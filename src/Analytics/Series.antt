-- ===== src/Analytics/Series.antt =====
-- The daily series, and what it leaves out.
use wapsell_saas.Prelude.{
  ℕ, zero, suc, ◌+◌, ◌*◌, ◌/◌, ◌≤◌, ◌<◌, ◌≡◌, refl, sym, ap, ◌∙◌, Bool, true, ◌&&◌, List, [], ◌∷◌,
  map, nat_eq_iff, ltb, leb, All, arith, Bool-cases, inl, inr, if◌then◌else◌,
}
use wapsell_saas.Memory.{BuyerInteraction}
use wapsell_saas.Analytics.Defs.{day, count_of, Tally, DailyBucket, daily_series}
use wapsell_saas.Analytics.Counting.{number, on_date}

-- The sum of `f` over `n` dates from `lo`.
abbrev pub sum_from : (ℕ → ℕ) → ℕ → ℕ → ℕ
sum_from f lo zero = 0
sum_from f lo (suc n) = f lo + sum_from f (lo + 1) n

abbrev pub dates_from : ℕ → ℕ → List ℕ
dates_from lo zero = []
dates_from lo (suc n) = lo ∷ dates_from (lo + 1) n

abbrev pub total_of : (DailyBucket → ℕ) → List DailyBucket → ℕ
total_of f [] = 0
total_of f (b ∷ bs) = f b + total_of f bs

pub sum_from-cong :
    (f g : ℕ → ℕ) → ((d : ℕ) → f d ≡ g d) → (lo n : ℕ) → sum_from f lo n ≡ sum_from g lo n
sum_from-cong f g h lo zero = refl
sum_from-cong f g h lo (suc n) = omega (arith, h lo, sum_from-cong f g h (lo + 1) n)

pub sum_from-last : (f : ℕ → ℕ) (lo n : ℕ) → sum_from f lo (suc n) ≡ sum_from f lo n + f (lo + n)
sum_from-last f lo zero = let q : f lo ≡ f (lo + 0) = ap f (omega arith) in omega arith
sum_from-last f lo (suc n) =
    let q : f (lo + 1 + n) ≡ f (lo + suc n) = ap f (omega arith) in
    omega (arith, sum_from-last f (lo + 1) n)

sum_from-zero : (lo n : ℕ) → sum_from (λ d. 0) lo n ≡ 0
sum_from-zero lo zero = refl
sum_from-zero lo (suc n) = omega (arith, sum_from-zero (lo + 1) n)

date_of : (since i : ℕ) → (since + i * day) / day ≡ since / day + i
date_of since i = omega arith

module _ (y : Tally) (since : ℕ) where
  pub daily_series-dates :
      (i n : ℕ) → map DailyBucket.date (daily_series y since i n) ≡ dates_from (since / day + i) n
  unfolding daily_series
  daily_series-dates i zero = refl
  daily_series-dates i (suc n) =
      ap (λ d. d ∷ map DailyBucket.date (daily_series y since (i + 1) n)) (date_of since i)
      ∙ ap (λ ds. (since / day + i) ∷ ds)
          (daily_series-dates (i + 1) n ∙ ap (λ d. dates_from d n) (omega arith))

  pub daily_series-total :
      (f : DailyBucket → ℕ) (g : ℕ → ℕ)
      → ((d : ℕ)
          → f (record {
            date = d;
            buyer = count_of d y.daily_buyer;
            agent = count_of d y.daily_agent;
          })
            ≡ g d)
      → (i n : ℕ) → total_of f (daily_series y since i n) ≡ sum_from g (since / day + i) n
  unfolding daily_series
  daily_series-total f g h i zero = refl
  daily_series-total f g h i (suc n) =
      let a = h ((since + i * day) / day) in
      let b : g ((since + i * day) / day) ≡ g (since / day + i) = ap g (date_of since i) in
      let c : sum_from g (since / day + (i + 1)) n ≡ sum_from g (since / day + i + 1) n =
        ap (λ d. sum_from g d n) (omega arith) in
      omega (arith, a, b, c, daily_series-total f g h (i + 1) n)

module _ (p : BuyerInteraction → Bool) where
  sum_from-turn :
      (x : BuyerInteraction) (f : ℕ → ℕ) (lo n : ℕ)
      → sum_from (λ d. if on_date p d x then f d + 1 else f d) lo n ≡ (
          if p x && (leb lo (x.at / day) && ltb (x.at / day) (lo + n))
          then sum_from f lo n + 1
          else sum_from f lo n)
  sum_from-turn x f lo zero = ground arith
  sum_from-turn x f lo (suc n) =
      ground (arith, sum_from-turn x f (lo + 1) n, nat_eq_iff (x.at / day) lo)

  -- The turns that pass are as many as those of each date together, if all are of one of the dates.
  pub number-sum_from :
      (lo n : ℕ) (xs : List BuyerInteraction)
      → All (λ x. p x ≡ true → (lo ≤ x.at / day) × (x.at / day < lo + n)) xs
      → number p xs ≡ sum_from (λ d. number (on_date p d) xs) lo n
  number-sum_from lo n [] h = sym (sum_from-zero lo n)
  number-sum_from lo n (x ∷ xs) h =
      let a = sum_from-turn x (λ d. number (on_date p d) xs) lo n in
      let b = number-sum_from lo n xs h.1 in
      elim (Bool-cases (p x)) [
        | inl e ↦ let (l, u) = h.0 e in ground (arith, a, b)
        | inr e ↦ ground (arith, a, b)
      ]
