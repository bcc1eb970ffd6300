-- ===== src/Analytics/Today.antt =====
-- What the analytics count, and what their daily series leaves out.
use wapsell_saas.Prelude.{
  ℕ, suc, ◌+◌, ◌-◌, ◌*◌, ◌/◌, ◌≤◌, ◌<◌, ◌≡◌, sym, ap, ◌∙◌, Bool, true, not, ◌&&◌, none, some, List,
  [], ◌∷◌, ◌++◌, Text, codes, map, All, All-append, arith,
}
use wapsell_saas.Models.{Tenant}
use wapsell_saas.Memory.{
  BuyerInteraction, BuyerMemory, BuyerThreadSummary, bucket, recall, list_threads,
}
use wapsell_saas.Crm.{Python}
use wapsell_saas.Analytics.Defs.{
  Floats, day, count_of, Tally, empty_tally, count_threads, DailyBucket, daily_series, analytics_of,
}
use wapsell_saas.Analytics.Counting.{
  is_buyer, number, in_window, buyer_turn, agent_turn, on_date, turns_of, count_threads-Added,
  Added,
}
use wapsell_saas.Analytics.Series.{
  dates_from, total_of, sum_from, sum_from-last, daily_series-dates, daily_series-total,
  number-sum_from,
}

turns_of-All :
    (P : BuyerInteraction → Type 0) (m : BuyerMemory) (ts : List BuyerThreadSummary)
    → ((b : Text) → All P (bucket b m))
    → All P (turns_of m ts)
unfolding recall
turns_of-All P m [] h = tt
turns_of-All P m (t ∷ ts) h =
    All-append P (recall t.buyer_id none m) (turns_of m ts) (h t.buyer_id) (turns_of-All P m ts h)

module _ (now days : ℕ) where
  abbrev pub since : ℕ
  since = now - days * day

  since-date : days * day ≤ now → now / day ≡ since / day + days
  since-date h = omega arith

  in_dates :
      (role : BuyerInteraction → Bool) (xs : List BuyerInteraction)
      → days * day ≤ now
      → All (λ x. x.at ≤ now) xs
      → All
          (λ x.
            (in_window since x && role x) ≡ true
            → (since / day ≤ x.at / day) × (x.at / day < since / day + suc days))
          xs
  in_dates role [] h a = tt
  in_dates role (x ∷ xs) h a = (
    λ e.
        let w : since ≤ x.at = ground arith in
        let u : x.at ≤ now = a.0 in (omega arith, omega arith),
    in_dates role xs h a.1,
  )

  -- The turns of a role are those of the series' dates and those of today.
  split_today :
      (role : BuyerInteraction → Bool) (xs : List BuyerInteraction)
      → days * day ≤ now
      → All (λ x. x.at ≤ now) xs
      → let p : BuyerInteraction → Bool = λ x. in_window since x && role x in
        number p xs
        ≡ sum_from (λ d. number (on_date p d) xs) (since / day) days
          + number (on_date p (now / day)) xs
  split_today role xs h a =
      let p : BuyerInteraction → Bool = λ x. in_window since x && role x in
      let f : ℕ → ℕ = λ d. number (on_date p d) xs in
      number-sum_from p (since / day) (suc days) xs (in_dates role xs h a)
      ∙ (sum_from-last f (since / day) days
          ∙ ap (λ d. sum_from f (since / day) days + f d) (sym (since-date h)))

plain : (a n : ℕ) → a ≡ 0 + n → a ≡ n
plain a n h = omega arith

-- Where no stored message is from the future, the analytics of a window count its messages of
-- buyers and of the agent in the listed threads; the series has as many dates as the window has days,
-- and the last is yesterday; and what its buckets leave out of the counts is today's messages.
pub analytics_miss_today :
    (f : Floats) (py : Python) (now days : ℕ) (t : Tenant) (m : BuyerMemory)
    → days * day ≤ now
    → ((b : Text) → All (λ x. x.at ≤ now) (bucket b m))
    → let r = analytics_of f py now days t m in
      let xs = turns_of m (list_threads py.is_space (some (t.slug ++ codes ":")) 100 m) in
      (map DailyBucket.date r.daily ≡ dates_from (now / day - days) days)
      × (r.messages_buyer ≡ number (buyer_turn (since now days)) xs)
      × (r.messages_agent ≡ number (agent_turn (since now days)) xs)
      × (r.messages_buyer
          ≡ total_of DailyBucket.buyer r.daily
            + number (on_date (buyer_turn (since now days)) (now / day)) xs)
      × (r.messages_agent
          ≡ total_of DailyBucket.agent r.daily
            + number (on_date (agent_turn (since now days)) (now / day)) xs)
unfolding analytics_of count_of
analytics_miss_today f py now days t m h a =
    let ts : List BuyerThreadSummary =
      list_threads py.is_space (some (t.slug ++ codes ":")) 100 m in
    let xs : List BuyerInteraction = turns_of m ts in
    let s : ℕ = since now days in
    let y : Tally = count_threads s m ts empty_tally in
    let counted : (d : ℕ) → Added s d xs empty_tally y =
      λ d. count_threads-Added s d m ts empty_tally in
    let now_all : All (λ x. x.at ≤ now) xs = turns_of-All (λ x. x.at ≤ now) m ts a in
    let lo : s / day + 0 ≡ s / day = omega arith in
    let buyers : y.messages_buyer ≡ number (buyer_turn s) xs = plain _ _ (counted 0).0 in
    let agents : y.messages_agent ≡ number (agent_turn s) xs = plain _ _ (counted 0).2 in
    let shown_b : total_of DailyBucket.buyer (daily_series y s 0 days)
        ≡ sum_from (λ d. number (on_date (buyer_turn s) d) xs) (s / day) days =
      daily_series-total y s DailyBucket.buyer (λ d. number (on_date (buyer_turn s) d) xs)
        (λ d. plain _ _ (counted d).1) 0 days
      ∙ ap (λ d. sum_from (λ e. number (on_date (buyer_turn s) e) xs) d days) lo in
    let shown_a : total_of DailyBucket.agent (daily_series y s 0 days)
        ≡ sum_from (λ d. number (on_date (agent_turn s) d) xs) (s / day) days =
      daily_series-total y s DailyBucket.agent (λ d. number (on_date (agent_turn s) d) xs)
        (λ d. plain _ _ (counted d).3) 0 days
      ∙ ap (λ d. sum_from (λ e. number (on_date (agent_turn s) e) xs) d days) lo in
    (
      daily_series-dates y s 0 days
          ∙ ap (λ d. dates_from d days) (omega (arith, since-date now days h)),
      buyers,
      agents,
      omega (arith, buyers, shown_b, split_today now days is_buyer xs h now_all),
      omega (arith, agents, shown_a, split_today now days (λ x. not (is_buyer x)) xs h now_all),
    )
