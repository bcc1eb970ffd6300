-- ===== src/Skills/Qualifier.antt =====
-- sdk/wapsell/skills/lead_qualifier.py. `Signals` holds what the four regular expressions find: the
-- number of matches in a message, and whether one is found.
use wapsell_saas.Prelude.{
  ℕ, ◌+◌, ◌-◌, ◌*◌, Bool, true, false, ◌&&◌, Option, none, some, [], ◌∷◌, Text, codes, strip_by,
  Result, ok, err, leb, if◌then◌else◌,
}

pub record Signals : Type 0 where
  pub lower : Text → Text
  pub is_space : ℕ → Bool
  pub high_intent : Text → ℕ
  pub low_intent : Text → ℕ
  pub urgency : Text → ℕ
  pub budget : Text → ℕ
  pub urgency_found : Text → Bool
  pub budget_found : Text → Bool

-- `max(0, min(100, 50 + high * 10 - low * 8 + urgency * 15 + budget * 5))`: the subtraction, last,
-- stops at zero, as `max(0, ...)` does.
unfoldable pub weigh : ℕ → ℕ → ℕ → ℕ → ℕ
weigh high low urgency budget =
    let total = 50 + high * 10 + urgency * 15 + budget * 5 - low * 8 in
    if leb total 100 then total else 100

unfoldable pub score : Signals → Text → ℕ
unfolding weigh
score s message =
    let m = s.lower message in weigh (s.high_intent m) (s.low_intent m) (s.urgency m) (s.budget m)

-- The strings that `_tag` returns.
pub data Tag : Type 0 where
  hot warm cold : Tag

unfoldable pub tag : ℕ → Tag
tag n = if leb 70 n then hot else if leb 40 n then warm else cold

abbrev pub is_hot : Tag → Bool
is_hot hot = true
is_hot t = false

abbrev pub is_warm : Tag → Bool
is_warm warm = true
is_warm t = false

pub data Action : Type 0 where
  prioritize nurture monitor : Action

-- The strings of `_next_action`, by their first word.
unfoldable pub next_action : ℕ → Tag → Action
next_action n t =
    if is_hot t then prioritize else if is_warm t && leb 55 n then nurture else monitor

pub record Qualification : Type 0 where
  pub intent_score : ℕ
  pub lead_tag : Tag
  pub urgency_detected : Bool
  pub budget_signal_detected : Bool
  pub suggested_next_action : Action

abbrev pub or_empty : Option Text → Text
or_empty none = []
or_empty (some t) = t

unfoldable pub qualify : Signals → Option Text → Result Text Qualification
unfolding strip_by score tag next_action
qualify s message = elim (strip_by s.is_space (or_empty message)) [
  | [] ↦ err (codes "message is required")
  | c ∷ m ↦
      let n = score s (c ∷ m) in
      ok (record {
        intent_score = n;
        lead_tag = tag n;
        urgency_detected = s.urgency_found (c ∷ m);
        budget_signal_detected = s.budget_found (c ∷ m);
        suggested_next_action = next_action n (tag n);
      })
]
