-- ===== src/Sources/Due.antt =====
-- When `_is_due` says that a source is due.
use wapsell_saas.Prelude.{
  ℕ, ◌≡◌, ◌≢◌, ◌⊎◌, inl, inr, refl, ap, ◌∙◌, Bool, true, false, Option, none, some, codes, Dict,
  lookup, arith, Option-cases,
}
use wapsell_saas.Prelude.Values.{Value, Floated, number, rejected, overflow}
use wapsell_saas.Sources.Defs.{DataSource}
use wapsell_saas.Sources.Scheduler.{Clock, interval_of, is_due}

module _ (c : Clock) (now : ℕ) where
  -- The interval that is configured, and the default one where there is none or it is no number.
  abbrev pub HasInterval : Dict Value → c.Number → Type 0
  HasInterval config n =
      ((lookup (codes "sync_interval_seconds") config ≡ none) × (n ≡ c.default_sync_interval))
      ⊎ ((v : Value) × (lookup (codes "sync_interval_seconds") config ≡ some v)
          × ((c.to_float v ≡ number n)
              ⊎ ((c.to_float v ≡ rejected) × (n ≡ c.default_sync_interval))))

  -- Whether the interval has passed since the last synchronization.
  abbrev pub HasElapsed : DataSource → Bool → Type 0
  HasElapsed s b =
      (last : ℕ) × (n : c.Number) × (s.last_synced_at ≡ some last)
      × HasInterval s.config n
      × (c.at_most n (c.total_seconds now last) ≡ b)

  -- The configured interval is no integer that is too large for a float.
  abbrev pub IsFloat : DataSource → Type 0
  IsFloat s =
      (v : Value)
      → lookup (codes "sync_interval_seconds") s.config ≡ some v
      → c.to_float v ≢ overflow

  converted :
      (o : Floated c.Number) (n : c.Number) (v : Value)
      → c.to_float v ≡ o
      → elim o as (λ x. Option c.Number) [
        | number k ↦ some k
        | rejected ↦ some c.default_sync_interval
        | overflow ↦ none
      ]
        ≡ some n
      → (c.to_float v ≡ number n) ⊎ ((c.to_float v ≡ rejected) × (n ≡ c.default_sync_interval))
  converted (number k) n v e h = inl cc
  converted rejected n v e h = inr (e, cc)
  converted overflow n v e h = cc

  interval_of-HasInterval :
      (config : Dict Value) (n : c.Number) → interval_of c config ≡ some n → HasInterval config n
  unfolding interval_of
  interval_of-HasInterval config n h = read (lookup (codes "sync_interval_seconds") config) refl h
    where
      read :
          (o : Option Value)
          → lookup (codes "sync_interval_seconds") config ≡ o
          → elim o as (λ x. Option c.Number) [
            | none ↦ some c.default_sync_interval
            | some v ↦ elim (c.to_float v) [
              | number k ↦ some k
              | rejected ↦ some c.default_sync_interval
              | overflow ↦ none
            ]
          ]
            ≡ some n
          → HasInterval config n
      read none e g = inl (e, cc)
      read (some v) e g = inr (v, e, converted (c.to_float v) n v refl g)

  interval_of-some :
      (config : Dict Value)
      → ((v : Value)
          → lookup (codes "sync_interval_seconds") config ≡ some v
          → c.to_float v ≢ overflow)
      → interval_of c config ≢ none
  unfolding interval_of
  interval_of-some config ok h = read (lookup (codes "sync_interval_seconds") config) refl h
    where
      floated :
          (v : Value) (o : Floated c.Number)
          → lookup (codes "sync_interval_seconds") config ≡ some v
          → c.to_float v ≡ o
          → elim o as (λ x. Option c.Number) [
            | number k ↦ some k
            | rejected ↦ some c.default_sync_interval
            | overflow ↦ none
          ]
            ≢ none
      floated v (number k) e q g = cc
      floated v rejected e q g = cc
      floated v overflow e q g = ok v e q

      read :
          (o : Option Value)
          → lookup (codes "sync_interval_seconds") config ≡ o
          → elim o as (λ x. Option c.Number) [
            | none ↦ some c.default_sync_interval
            | some v ↦ elim (c.to_float v) [
              | number k ↦ some k
              | rejected ↦ some c.default_sync_interval
              | overflow ↦ none
            ]
          ]
            ≢ none
      read none e g = cc
      read (some v) e g = floated v (c.to_float v) e refl g

  -- The one answer of `_is_due`, and what it says.
  pub is_due_cases :
      (s : DataSource)
      → IsFloat s
      → ((is_due c s now ≡ some true) × ((s.last_synced_at ≡ none) ⊎ HasElapsed s true))
        ⊎ ((is_due c s now ≡ some false) × HasElapsed s false)
  unfolding is_due
  is_due_cases s ok = elim (Option-cases s.last_synced_at) [
    | inl e ↦ inl (ground arith, inl e)
    | inr (last, e) ↦ elim (Option-cases (interval_of c s.config)) [
      | inl z ↦ absurd (interval_of-some s.config ok z)
      | inr (n, i) ↦
          decided last n e (interval_of-HasInterval s.config n i)
            (c.at_most n (c.total_seconds now last)) refl
            (ap
                (λ o. elim o as (λ x. Option Bool) [
                  | none ↦ some true
                  | some at ↦ elim (interval_of c s.config) [
                    | none ↦ none
                    | some k ↦ some (c.at_most k (c.total_seconds now at))
                  ]
                ])
                e
              ∙ ap
                  (λ o. elim o as (λ x. Option Bool) [
                    | none ↦ none
                    | some k ↦ some (c.at_most k (c.total_seconds now last))
                  ])
                  i)
    ]
  ]
    where
      decided :
          (last : ℕ) (n : c.Number)
          → s.last_synced_at ≡ some last
          → HasInterval s.config n
          → (b : Bool) → c.at_most n (c.total_seconds now last) ≡ b
          → is_due c s now ≡ some (c.at_most n (c.total_seconds now last))
          → ((is_due c s now ≡ some true) × ((s.last_synced_at ≡ none) ⊎ HasElapsed s true))
            ⊎ ((is_due c s now ≡ some false) × HasElapsed s false)
      decided last n e i true q d = inl (d ∙ ap some q, inr (last, n, e, i, q))
      decided last n e i false q d = inr (d ∙ ap some q, (last, n, e, i, q))
