-- ===== src/Analytics/Tests.antt =====
-- A shop with a message of yesterday, and two of today.
use wapsell_saas.Prelude.{
  ◌/◌, ℕ, ◌+◌, ◌-◌, ◌≤◌, ◌≡◌, arith, some, [], ◌∷◌, Text, codes, ◌==◌, lookup, map, All, Bool-cases,
  leb, inl, inr,
}
use wapsell_saas.Memory.{BuyerInteraction, BuyerMemory, Role, buyer, agent, bucket, list_threads}
use wapsell_saas.Agent.Tests.{tenant}
use wapsell_saas.Webhook.Tests.{python}
use wapsell_saas.Analytics.Defs.{Floats, DailyBucket, analytics_of}
use wapsell_saas.Analytics.Counting.{number, buyer_turn, agent_turn, on_date, turns_of}
use wapsell_saas.Analytics.Series.{dates_from, total_of}
use wapsell_saas.Analytics.Today.{since, analytics_miss_today}

-- Whole seconds in place of floats
abbrev floats : Floats
floats = record {
  Number = ℕ;
  seconds = λ a b. (a - b) / 1000000;
  at_most = leb;
  mean = λ a b. (a + b) / 2;
  ratio = λ a b. 0;
  nought = 0;
}

abbrev said : Role → ℕ → BuyerInteraction
said role at = record { text = codes "hola"; role = role; at = at; metadata = [] }

abbrev memory : BuyerMemory
memory = record {
  max_items = 50;
  dialectic_depth = 3;
  store =
      (
        codes "tienda:555",
        said buyer 864000000000 ∷ said buyer 950400000000 ∷ said agent 950400000005 ∷ [],
      )
      ∷ [];
}

-- Noon of the eleventh day
abbrev noon : ℕ
noon = 993600000000

past : (b : Text) → All (λ x. x.at ≤ noon) (bucket b memory)
unfolding bucket lookup
past b = elim (Bool-cases (codes "tienda:555" == b)) [
  | inl e ↦ rw (e, All, bucket, lookup) (omega arith, (omega arith, (omega arith, tt)))
  | inr e ↦ rw (e, All, bucket, lookup) tt
]

analytics_miss_today_example :
    let r = analytics_of floats python noon 2 tenant memory in
    let xs = turns_of memory (list_threads python.is_space (some (codes "tienda:")) 100 memory) in
    (map DailyBucket.date r.daily ≡ dates_from (11 - 2) 2)
    × (r.messages_buyer ≡ number (buyer_turn (since noon 2)) xs)
    × (r.messages_agent ≡ number (agent_turn (since noon 2)) xs)
    × (r.messages_buyer
        ≡ total_of DailyBucket.buyer r.daily + number (on_date (buyer_turn (since noon 2)) 11) xs)
    × (r.messages_agent
        ≡ total_of DailyBucket.agent r.daily + number (on_date (agent_turn (since noon 2)) 11) xs)
analytics_miss_today_example =
    analytics_miss_today floats python noon 2 tenant memory (omega arith) past
