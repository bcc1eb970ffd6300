-- ===== src/Handoff/Tests.antt =====
-- A message with the second of three keywords.
use wapsell_saas.Prelude.{
  ◌≡◌, ◌≢◌, ◌⊎◌, true, false, none, some, List, [], ◌∷◌, ◌++◌, Text, Unicode, codes, contains, All,
  pos,
}
use wapsell_saas.Models.{HandoffConfig}
use wapsell_saas.Handoff.Defs.{Normal, skip, normalize, evaluate}
use wapsell_saas.Handoff.Decision.{Misses, evaluate_cases}

abbrev ascii : Unicode
ascii = record { lower = λ s. s; is_space = λ c. false }

abbrev plain : Normal
plain = record { nfd = λ s. s; is_mark = λ c. false }

abbrev config : HandoffConfig
config = record {
  enabled = true;
  keywords = codes "" ∷ codes "humano" ∷ codes "asesor" ∷ [];
  webhook_url = none;
  handoff_message = codes "Te paso con un humano.";
  auto_pause_hours = pos 12;
}

evaluate_cases_example :
    ((evaluate ascii plain (codes "un humano") (some config) ≡ skip) × (some config ≡ none))
    ⊎ ((c : HandoffConfig) × (some config ≡ some c)
        × (((evaluate ascii plain (codes "un humano") (some config) ≡ skip)
              × ((c.enabled ≡ false) ⊎ All (Misses ascii plain (codes "un humano")) c.keywords))
            ⊎ ((c.enabled ≡ true)
                × ((before : List Text) × (k : Text) × (after : List Text) × (c.keywords
                      ≡ before ++ k ∷ after)
                    × All (Misses ascii plain (codes "un humano")) before
                    × (normalize ascii plain k ≢ [])
                    × (contains
                          (normalize ascii plain (codes "un humano"))
                          (normalize ascii plain k)
                        ≡ true)
                    × (evaluate ascii plain (codes "un humano") (some config)
                        ≡ record { escalate = true; matched_keyword = some k })))))
evaluate_cases_example = evaluate_cases ascii plain (codes "un humano") (some config)
