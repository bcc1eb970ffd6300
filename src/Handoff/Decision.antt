-- ===== src/Handoff/Decision.antt =====
-- What the detector decides.
use wapsell_saas.Prelude.{
  ap, ◌≡◌, ◌≢◌, ◌⊎◌, inl, inr, refl, true, false, Option, none, some, List, [], ◌∷◌, ◌++◌, Text,
  Unicode, contains, All, arith, Bool-cases,
}
use wapsell_saas.Models.{HandoffConfig}
use wapsell_saas.Handoff.Defs.{Normal, skip, normalize, trips, first_match, evaluate}

module _ (u : Unicode) (n : Normal) where
  abbrev pub Misses : Text → Text → Type 0
  Misses message k = trips u n (normalize u n message) k ≡ false

  first_match_cases :
      (message : Text) (ks : List Text)
      → ((first_match u n (normalize u n message) ks ≡ skip) × All (Misses message) ks)
        ⊎ ((before : List Text) × (k : Text) × (after : List Text) × (ks ≡ before ++ k ∷ after)
            × All (Misses message) before
            × (trips u n (normalize u n message) k ≡ true)
            × (first_match u n (normalize u n message) ks
                ≡ record { escalate = true; matched_keyword = some k }))
  unfolding first_match
  first_match_cases message [] = inl (refl, tt)
  first_match_cases message (k ∷ ks) = elim (Bool-cases (trips u n (normalize u n message) k)) [
    | inl t ↦ inr ([], k, ks, refl, tt, t, rw t)
    | inr f ↦ elim (first_match_cases message ks) [
      | inl (e, all) ↦ inl (rw f e, (f, all))
      | inr (before, j, after, e, all, t, r) ↦
          inr (k ∷ before, j, after, ap (λ l. k ∷ l) e, (f, all), t, rw f r)
    ]
  ]

  -- A message is escalated exactly where the tenant has a configuration, it is enabled, and some
  -- keyword is in the message, both normalized, the keyword not to nothing. The keyword that the
  -- decision names is the first such one, as the tenant wrote it.
  pub evaluate_cases :
      (message : Text) (config : Option HandoffConfig)
      → let skips = evaluate u n message config ≡ skip in
        (skips × (config ≡ none))
        ⊎ ((c : HandoffConfig) × (config ≡ some c)
            × ((skips × ((c.enabled ≡ false) ⊎ All (Misses message) c.keywords))
                ⊎ ((c.enabled ≡ true)
                    × ((before : List Text) × (k : Text) × (after : List Text) × (c.keywords
                          ≡ before ++ k ∷ after)
                        × All (Misses message) before
                        × (normalize u n k ≢ [])
                        × (contains (normalize u n message) (normalize u n k) ≡ true)
                        × (evaluate u n message config
                            ≡ record { escalate = true; matched_keyword = some k })))))
  unfolding evaluate
  evaluate_cases message none = inl (refl, refl)
  evaluate_cases message (some c) = inr (
    c,
    refl,
    elim (Bool-cases c.enabled) [
      | inr off ↦ inl (rw off, inl off)
      | inl on ↦ elim (first_match_cases message c.keywords) [
        | inl (e, all) ↦ inl (rw on e, inr all)
        | inr (before, k, after, e, all, t, r) ↦
            inr (on, (before, k, after, e, all, ground arith, ground arith, rw on r))
      ]
    ],
  )
