-- ===== src/Skills/Closing.antt =====
-- The conversations that the sales closer drives.
use wapsell_saas.Prelude.{
  ◌≡◌, ◌⊎◌, inl, inr, refl, ap, Bool, true, false, List, [], ◌∷◌, ◌++◌, Text, codes, contains,
  Bool-cases, arith,
}
use wapsell_saas.Skills.Closer.{
  Casing, Stage, identify, present, objections, confirm, notify, closed, escalated, any_in,
  payment_words, transition,
}

-- The stage after the messages, each handled at the stage that the one before returned.
unfoldable pub converse : Casing → Stage → List Text → Stage
converse u s [] = s
converse u s (m ∷ ms) = converse u (transition u s m) ms

abbrev pub is_paid : Stage → Bool
is_paid notify = true
is_paid closed = true
is_paid s = false

-- The message, in lower case, contains "pagado", "transferí", "ok" or "listo".
unfoldable pub IsConsent : Casing → Text → Type 0
IsConsent u m =
    (contains (u.lower m) (codes "pagado") ≡ true)
    ⊎ (contains (u.lower m) (codes "transferí") ≡ true)
    ⊎ (contains (u.lower m) (codes "ok") ≡ true)
    ⊎ (contains (u.lower m) (codes "listo") ≡ true)

-- Among the messages is one that came at the stage CONFIRM and has one of the four words.
abbrev pub PaidIn : Casing → Stage → List Text → Type 0
PaidIn u s ms =
    (before : List Text) × (m : Text) × (after : List Text) × (ms ≡ before ++ m ∷ after)
    × (converse u s before ≡ confirm)
    × IsConsent u m

consents : (u : Casing) (m : Text) → any_in payment_words (u.lower m) ≡ true → IsConsent u m
unfolding any_in IsConsent
consents u m h = elim (Bool-cases (contains (u.lower m) (codes "pagado"))) [
  | inl e ↦ inl e
  | inr e ↦ elim (Bool-cases (contains (u.lower m) (codes "transferí"))) [
    | inl f ↦ inr (inl f)
    | inr f ↦ elim (Bool-cases (contains (u.lower m) (codes "ok"))) [
      | inl g ↦ inr (inr (inl g))
      | inr g ↦ inr (inr (inr (ground arith)))
    ]
  ]
]

step_paid :
    (u : Casing) (s : Stage) (m : Text)
    → is_paid (transition u s m) ≡ true
    → (is_paid s ≡ true) ⊎ ((s ≡ confirm) × IsConsent u m)
unfolding transition
step_paid u identify m h = inl h
step_paid u present m h = ground arith
step_paid u objections m h = ground arith
step_paid u confirm m h = inr (refl, consents u m (ground arith))
step_paid u notify m h = inl refl
step_paid u closed m h = inl refl
step_paid u escalated m h = inl h

paid_cases :
    (u : Casing) (s : Stage) (ms : List Text)
    → is_paid (converse u s ms) ≡ true
    → (is_paid s ≡ true) ⊎ PaidIn u s ms
unfolding converse
paid_cases u s [] h = inl h
paid_cases u s (m ∷ ms) h = elim (paid_cases u (transition u s m) ms h) [
  | inr (before, k, after, e, c, p) ↦ inr (m ∷ before, k, after, ap (λ l. m ∷ l) e, c, p)
  | inl q ↦ elim (step_paid u s m q) [ inl r ↦ inl r | inr (c, p) ↦ inr ([], m, ms, refl, c, p) ]
]

-- A conversation that is closed, from its start, has a message that came at the stage CONFIRM and
-- that contains, in lower case, "pagado", "transferí", "ok" or "listo"; and once closed or escalated
-- it stays so, whatever is said.
pub converse-closed :
    (u : Casing) (ms : List Text)
    → (converse u identify ms ≡ closed → PaidIn u identify ms)
      × (converse u closed ms ≡ closed)
      × (converse u escalated ms ≡ escalated)
unfolding converse transition
converse-closed u ms = (
  λ e. elim (paid_cases u identify ms (ap is_paid e)) [ inl q ↦ absurd (ground arith) | inr p ↦ p ],
  stays_closed ms,
  stays_escalated ms,
)
  where
    stays_closed : (ms : List Text) → converse u closed ms ≡ closed
    stays_closed [] = refl
    stays_closed (m ∷ ms) = stays_closed ms

    stays_escalated : (ms : List Text) → converse u escalated ms ≡ escalated
    stays_escalated [] = refl
    stays_escalated (m ∷ ms) = stays_escalated ms
