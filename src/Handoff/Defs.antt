-- ===== src/Handoff/Defs.antt =====
-- `HandoffDetector` of sdk/wapsell/handoff/detector.py. `Normal` is what the module `unicodedata`
-- provides.
use wapsell_saas.Prelude.{
  ℕ, Bool, true, false, not, ◌&&◌, Option, none, some, List, [], ◌∷◌, Text, Unicode, contains,
  is_empty, strip_by, filter, if◌then◌else◌,
}
use wapsell_saas.Models.{HandoffConfig}

-- `normalize("NFD", ...)`, and whether a character is of the category Mn.
pub record Normal : Type 0 where
  pub nfd : Text → Text
  pub is_mark : ℕ → Bool

pub record HandoffDecision : Type 0 where
  pub escalate : Bool
  pub matched_keyword : Option Text

abbrev pub skip : HandoffDecision
skip = record { escalate = false; matched_keyword = none }

module _ (u : Unicode) (n : Normal) where
  unfoldable pub normalize : Text → Text
  unfolding strip_by
  normalize text = strip_by u.is_space (u.lower (filter (λ c. not (n.is_mark c)) (n.nfd text)))

  abbrev pub trips : Text → Text → Bool
  trips normalized keyword =
      not (is_empty (normalize keyword)) && contains normalized (normalize keyword)

  unfoldable pub first_match : Text → List Text → HandoffDecision
  first_match normalized [] = skip
  first_match normalized (k ∷ ks) =
      if trips normalized k
      then record { escalate = true; matched_keyword = some k }
      else first_match normalized ks

  unfoldable pub evaluate : Text → Option HandoffConfig → HandoffDecision
  unfolding first_match
  evaluate message none = skip
  evaluate message (some config) =
      if not config.enabled then skip else first_match (normalize message) config.keywords
