-- ===== src/Analytics/Counting.antt =====
-- The counts of the loops over the turns.
use wapsell_saas.Prelude.{
  ℕ, ◌+◌, ◌/◌, ◌≡◌, refl, Bool, true, false, not, ◌&&◌, none, List, [], ◌∷◌, ◌++◌, nat_eq,
  nat_eq_iff, ltb, arith, Bool-cases, inl, inr, if◌then◌else◌,
}
use wapsell_saas.Memory.{BuyerInteraction, BuyerMemory, BuyerThreadSummary, buyer, agent, recall}
use wapsell_saas.Analytics.Defs.{
  day, Counts, count_of, bump, Tally, count_turn, count_turns, count_threads,
}

abbrev pub is_buyer : BuyerInteraction → Bool
is_buyer x = elim x.role [ buyer ↦ true | agent ↦ false ]

-- The number of the elements that pass a test.
abbrev pub number {ℓ} : {A : Type ℓ} → (A → Bool) → List A → ℕ
number p [] = 0
number p (x ∷ xs) = if p x then number p xs + 1 else number p xs

abbrev pub in_window : ℕ → BuyerInteraction → Bool
in_window since x = not (ltb x.at since)

-- The turns of a role, in the window, and of those the ones of a date.
abbrev pub buyer_turn : ℕ → BuyerInteraction → Bool
buyer_turn since x = in_window since x && is_buyer x

abbrev pub agent_turn : ℕ → BuyerInteraction → Bool
agent_turn since x = in_window since x && not (is_buyer x)

abbrev pub on_date : (BuyerInteraction → Bool) → ℕ → BuyerInteraction → Bool
on_date p d x = p x && nat_eq (x.at / day) d

-- The turns of the listed threads, one thread after the other.
abbrev pub turns_of : BuyerMemory → List BuyerThreadSummary → List BuyerInteraction
turns_of m [] = []
turns_of m (t ∷ ts) = recall t.buyer_id none m ++ turns_of m ts

count_of-bump :
    (d e : ℕ) (cs : Counts)
    → count_of e (bump d cs) ≡ (if nat_eq d e then count_of e cs + 1 else count_of e cs)
unfolding count_of bump
count_of-bump d e [] = ground arith
count_of-bump d e ((f, n) ∷ cs) =
    ground (arith, count_of-bump d e cs, nat_eq_iff f d, nat_eq_iff f e, nat_eq_iff d e)

abbrev bit : Bool → ℕ
bit b = if b then 1 else 0

abbrev step : ℕ → BuyerInteraction → Tally → Tally
step since x y = if ltb x.at since then y else count_turn x y

module _ (since d : ℕ) where
  step-buyer :
      (x : BuyerInteraction) (y : Tally)
      → ((step since x y).messages_buyer ≡ y.messages_buyer + bit (buyer_turn since x))
        × (count_of d (step since x y).daily_buyer
            ≡ count_of d y.daily_buyer + bit (on_date (buyer_turn since) d x))
  unfolding count_turn
  step-buyer x y = elim (Bool-cases (ltb x.at since)) [
    | inl e ↦ rw e (omega arith, omega arith)
    | inr e ↦ rw e (spoken x y)
  ]
    where
      spoken :
          (x : BuyerInteraction) (y : Tally)
          → ((count_turn x y).messages_buyer ≡ y.messages_buyer + bit (is_buyer x))
            × (count_of d (count_turn x y).daily_buyer
                ≡ count_of d y.daily_buyer + bit (is_buyer x && nat_eq (x.at / day) d))
      spoken x y =
          let b = count_of-bump (x.at / day) d y.daily_buyer in
          elim x.role
            as (λ o.
              ((count_turn (record x { role = o }) y).messages_buyer
                ≡ y.messages_buyer + bit (is_buyer (record x { role = o })))
              × (count_of d (count_turn (record x { role = o }) y).daily_buyer
                  ≡ count_of d y.daily_buyer
                    + bit (is_buyer (record x { role = o }) && nat_eq (x.at / day) d))) [
                      | buyer ↦ (refl, ground (arith, b))
                      | agent ↦ (omega arith, omega arith)
                    ]

  step-agent :
      (x : BuyerInteraction) (y : Tally)
      → ((step since x y).messages_agent ≡ y.messages_agent + bit (agent_turn since x))
        × (count_of d (step since x y).daily_agent
            ≡ count_of d y.daily_agent + bit (on_date (agent_turn since) d x))
  unfolding count_turn
  step-agent x y = elim (Bool-cases (ltb x.at since)) [
    | inl e ↦ rw e (omega arith, omega arith)
    | inr e ↦ rw e (spoken x y)
  ]
    where
      spoken :
          (x : BuyerInteraction) (y : Tally)
          → ((count_turn x y).messages_agent ≡ y.messages_agent + bit (not (is_buyer x)))
            × (count_of d (count_turn x y).daily_agent
                ≡ count_of d y.daily_agent + bit (not (is_buyer x) && nat_eq (x.at / day) d))
      spoken x y =
          let b = count_of-bump (x.at / day) d y.daily_agent in
          elim x.role
            as (λ o.
              ((count_turn (record x { role = o }) y).messages_agent
                ≡ y.messages_agent + bit (not (is_buyer (record x { role = o }))))
              × (count_of d (count_turn (record x { role = o }) y).daily_agent
                  ≡ count_of d y.daily_agent
                    + bit (not (is_buyer (record x { role = o })) && nat_eq (x.at / day) d))) [
                      | buyer ↦ (omega arith, omega arith)
                      | agent ↦ (refl, ground (arith, b))
                    ]

  -- What the loop adds to the tally.
  abbrev pub Added : List BuyerInteraction → Tally → Tally → Type 0
  Added xs y y' =
      (y'.messages_buyer ≡ y.messages_buyer + number (buyer_turn since) xs)
      × (count_of d y'.daily_buyer
          ≡ count_of d y.daily_buyer + number (on_date (buyer_turn since) d) xs)
      × (y'.messages_agent ≡ y.messages_agent + number (agent_turn since) xs)
      × (count_of d y'.daily_agent
          ≡ count_of d y.daily_agent + number (on_date (agent_turn since) d) xs)

  pub count_turns-Added :
      (xs : List BuyerInteraction) (y : Tally) → Added xs y (count_turns since xs y)
  unfolding count_turns
  count_turns-Added [] y = (omega arith, omega arith, omega arith, omega arith)
  count_turns-Added (x ∷ xs) y =
      let h = count_turns-Added xs (step since x y) in
      let a = step-buyer x y in
      let b = step-agent x y in
      (
        one (buyer_turn since x) _ _ _ _ h.0 a.0,
        one (on_date (buyer_turn since) d x) _ _ _ _ h.1 a.1,
        one (agent_turn since x) _ _ _ _ h.2 b.0,
        one (on_date (agent_turn since) d x) _ _ _ _ h.3 b.1,
      )
    where
      one : (b : Bool) (u v w n : ℕ) → u ≡ v + n → v ≡ w + bit b → u ≡ w + (if b then n + 1 else n)
      one true u v w n p q = omega arith
      one false u v w n p q = omega arith

number-append :
    {A : Type 0} (p : A → Bool) (xs ys : List A) → number p (xs ++ ys) ≡ number p xs + number p ys
number-append p [] ys = omega arith
number-append p (x ∷ xs) ys = ground (arith, number-append p xs ys)

module _ (since d : ℕ) where
  Added-append :
      (xs ys : List BuyerInteraction) (y y' y'' : Tally)
      → Added since d xs y y'
      → Added since d ys y' y''
      → Added since d (xs ++ ys) y y''
  Added-append xs ys y y' y'' h k = (
    omega (arith, h.0, k.0, number-append (buyer_turn since) xs ys),
    omega (arith, h.1, k.1, number-append (on_date (buyer_turn since) d) xs ys),
    omega (arith, h.2, k.2, number-append (agent_turn since) xs ys),
    omega (arith, h.3, k.3, number-append (on_date (agent_turn since) d) xs ys),
  )

  pub count_threads-Added :
      (m : BuyerMemory) (ts : List BuyerThreadSummary) (y : Tally)
      → Added since d (turns_of m ts) y (count_threads since m ts y)
  unfolding count_threads
  count_threads-Added m [] y = (omega arith, omega arith, omega arith, omega arith)
  count_threads-Added m (t ∷ ts) y =
      let xs : List BuyerInteraction = recall t.buyer_id none m in
      let y' : Tally = record y { last_buyer_at = none } in
      Added-append xs (turns_of m ts) y (count_turns since xs y')
        (count_threads since m ts (count_turns since xs y')) (count_turns-Added since d xs y')
        (count_threads-Added m ts (count_turns since xs y'))
