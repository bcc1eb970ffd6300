-- ===== src/Analytics/Defs.antt =====
-- `get_analytics` of services/api/main.py. A date is the number of days since the epoch, in UTC, which
-- `strftime("%Y-%m-%d")` writes out, and a turn's instant is one in UTC. `Floats` holds Python's
-- floats: the seconds from the second instant to the first, `<=`, the mean of two, the quotient of
-- two integers, and 0.0.
use wapsell_saas.Prelude.{
  ℕ, zero, suc, ◌+◌, ◌-◌, ◌*◌, ◌/◌, ◌%◌, map, ◌>>=◌, Bool, false, ◌||◌, Option, none, some, List,
  [], ◌∷◌, ◌++◌, length, Text, codes, is_text, Dict, lookup, insert, take, sort_desc, nat_eq, ltb,
  leb, ℤ, pos, negsuc, Result, ok, err, if◌then◌else◌,
}
use wapsell_saas.Models.{Tenant}
use wapsell_saas.Access.{Context}
use wapsell_saas.Memory.{
  BuyerInteraction, BuyerMemory, BuyerThreadSummary, buyer, agent, recall, list_threads,
}
use wapsell_saas.Crm.{Python}
use wapsell_saas.Takeover.{
  Desk, RouteError, unprocessable, guarded_by_access, with_tenant, tenant_of,
}

abbrev pub day : ℕ
day = 86400000000

pub record Floats : Type 1 where
  pub Number : Type 0
  pub seconds : ℕ → ℕ → Number
  pub at_most : Number → Number → Bool
  pub mean : Number → Number → Number
  pub ratio : ℕ → ℕ → Number
  pub nought : Number

abbrev pub analytics_max_days : ℕ
analytics_max_days = 365

-- A `dict[str, int]` of dates.
abbrev pub Counts : Type 0
Counts = List (ℕ × ℕ)

-- `counts.get(d, 0)`
unfoldable pub count_of : ℕ → Counts → ℕ
count_of d [] = 0
count_of d ((e, n) ∷ cs) = if nat_eq e d then n else count_of d cs

-- `counts[d] = counts.get(d, 0) + 1`
unfoldable pub bump : ℕ → Counts → Counts
bump d [] = (d, 1) ∷ []
bump d ((e, n) ∷ cs) = if nat_eq e d then (e, n + 1) ∷ cs else (e, n) ∷ bump d cs

-- What the loops over the threads and their turns count.
pub record Tally : Type 0 where
  pub messages_buyer : ℕ
  pub messages_agent : ℕ
  pub handoff_count : ℕ
  pub human_takeover_count : ℕ
  pub daily_buyer : Counts
  pub daily_agent : Counts
  pub handoff_keywords : Dict ℕ
  pub last_buyer_at : Option ℕ
  pub response_times : List (ℕ × ℕ)

abbrev pub empty_tally : Tally
empty_tally = record {
  messages_buyer = 0;
  messages_agent = 0;
  handoff_count = 0;
  human_takeover_count = 0;
  daily_buyer = [];
  daily_agent = [];
  handoff_keywords = [];
  last_buyer_at = none;
  response_times = [];
}

abbrev pub has_flag : Text → BuyerInteraction → Bool
has_flag k turn = is_text (lookup k turn.metadata) (codes "true")

abbrev pub add_one : Option ℕ → ℕ
add_one none = 1
add_one (some n) = n + 1

-- The keyword's count, where there is a keyword.
abbrev pub count_keyword : Option Text → Dict ℕ → Dict ℕ
count_keyword none d = d
count_keyword (some []) d = d
count_keyword (some (c ∷ s)) d = insert (c ∷ s) (add_one (lookup (c ∷ s) d)) d

-- The instants of an answer and of what it answers.
abbrev pub answered : ℕ → Option ℕ → List (ℕ × ℕ) → List (ℕ × ℕ)
answered at none times = times
answered at (some asked) times = times ++ (at, asked) ∷ []

-- A turn of the window.
unfoldable pub count_turn : BuyerInteraction → Tally → Tally
unfolding bump
count_turn turn y = elim turn.role [
  | buyer ↦ record y {
    messages_buyer = y.messages_buyer + 1;
    daily_buyer = bump (turn.at / day) y.daily_buyer;
    last_buyer_at = some turn.at;
  }
  | agent ↦ record y {
    messages_agent = y.messages_agent + 1;
    daily_agent = bump (turn.at / day) y.daily_agent;
    handoff_count =
        if has_flag (codes "handoff") turn then y.handoff_count + 1 else y.handoff_count;
    handoff_keywords =
        if has_flag (codes "handoff") turn
        then count_keyword (lookup (codes "handoff_keyword") turn.metadata) y.handoff_keywords
        else y.handoff_keywords;
    human_takeover_count =
        if has_flag (codes "human") turn
        then y.human_takeover_count + 1
        else y.human_takeover_count;
    response_times = answered turn.at y.last_buyer_at y.response_times;
    last_buyer_at = none;
  }
]

unfoldable pub count_turns : ℕ → List BuyerInteraction → Tally → Tally
unfolding count_turn
count_turns since [] y = y
count_turns since (turn ∷ turns) y =
    let rest = count_turns since turns in rest (if ltb turn.at since then y else count_turn turn y)

-- The turns of the listed threads, one after the other.
unfoldable pub count_threads : ℕ → BuyerMemory → List BuyerThreadSummary → Tally → Tally
unfolding count_turns recall
count_threads since m [] y = y
count_threads since m (t ∷ ts) y =
    count_threads since m ts
      (count_turns since (recall t.buyer_id none m) (record y { last_buyer_at = none }))

abbrev pub any_since : ℕ → List BuyerInteraction → Bool
any_since since [] = false
any_since since (turn ∷ turns) = leb since turn.at || any_since since turns

-- The listed threads with a turn in the window; their ids differ.
unfoldable pub unique_buyers_of : ℕ → BuyerMemory → List BuyerThreadSummary → ℕ
unfolding recall
unique_buyers_of since m [] = 0
unique_buyers_of since m (t ∷ ts) =
    let rest = unique_buyers_of since m ts in
    if any_since since (recall t.buyer_id none m) then rest + 1 else rest

pub record DailyBucket : Type 0 where
  pub date : ℕ
  pub buyer : ℕ
  pub agent : ℕ

-- The series from the `i`-th day after `since`, for `n` days.
unfoldable pub daily_series : Tally → ℕ → ℕ → ℕ → List DailyBucket
unfolding count_of
daily_series y since i zero = []
daily_series y since i (suc n) =
    let d = (since + i * day) / day in
    record { date = d; buyer = count_of d y.daily_buyer; agent = count_of d y.daily_agent }
    ∷ daily_series y since (i + 1) n

abbrev pub second : Text × ℕ → ℕ
second (k, n) = n

-- The five keywords that count most, the first of equal ones first.
unfoldable pub top_keywords : Dict ℕ → List (Text × ℕ)
unfolding sort_desc
top_keywords d = take 5 (sort_desc second d)

-- `sorted(values)`, the first of equal ones first
unfoldable pub place {ℓ} : {A : Type ℓ} → (A → A → Bool) → A → List A → List A
place at_most x [] = x ∷ []
place at_most x (z ∷ zs) =
    let rest = place at_most x zs in if at_most x z then x ∷ z ∷ zs else z ∷ rest

unfoldable pub sorted {ℓ} : {A : Type ℓ} → (A → A → Bool) → List A → List A
unfolding place
sorted at_most [] = []
sorted at_most (x ∷ xs) = place at_most x (sorted at_most xs)

abbrev pub nth {ℓ} : {A : Type ℓ} → ℕ → List A → Option A
nth n [] = none
nth zero (x ∷ xs) = some x
nth (suc n) (x ∷ xs) = nth n xs

unfoldable pub median : (f : Floats) → List f.Number → Option f.Number
unfolding sorted
median f values =
    let ordered = sorted f.at_most values in
    let mid = length ordered / 2 in
    if nat_eq (length ordered % 2) 1
    then nth mid ordered
    else (do lo ← nth (mid - 1) ordered; hi ← nth mid ordered; some (f.mean lo hi))

pub record Analytics (Number : Type 0) : Type 0 where
  pub window_days : ℕ
  pub window_start : ℕ
  pub window_end : ℕ
  pub messages_total : ℕ
  pub messages_buyer : ℕ
  pub messages_agent : ℕ
  pub unique_buyers : ℕ
  pub handoff_count : ℕ
  pub handoff_rate : Number
  pub human_takeover_count : ℕ
  pub median_response_seconds : Option Number
  pub daily : List DailyBucket
  pub top_handoff_keywords : List (Text × ℕ)

-- `days` where it is one to `analytics_max_days`
abbrev pub window_of : ℤ → Option ℕ
window_of (pos n) = if nat_eq n 0 || ltb analytics_max_days n then none else some n
window_of (negsuc n) = none

module _ (f : Floats) (py : Python) (now : ℕ) where
  unfoldable pub analytics_of : ℕ → Tenant → BuyerMemory → Analytics f.Number
  unfolding list_threads count_threads unique_buyers_of daily_series top_keywords median
  analytics_of days t m =
      let since = now - days * day in
      let threads = list_threads py.is_space (some (t.slug ++ codes ":")) 100 m in
      let y = count_threads since m threads empty_tally in
      record {
        window_days = days;
        window_start = since;
        window_end = now;
        messages_total = y.messages_buyer + y.messages_agent;
        messages_buyer = y.messages_buyer;
        messages_agent = y.messages_agent;
        unique_buyers = unique_buyers_of since m threads;
        handoff_count = y.handoff_count;
        handoff_rate =
            if ltb 0 y.messages_agent then f.ratio y.handoff_count y.messages_agent else f.nought;
        human_takeover_count = y.human_takeover_count;
        median_response_seconds =
            median f (map (λ (answer, asked). f.seconds answer asked) y.response_times);
        daily = daily_series y since 0 days;
        top_handoff_keywords = top_keywords y.handoff_keywords;
      }

  abbrev pub answer_of : Option ℕ → Tenant → Desk → Result RouteError (Analytics f.Number) × Desk
  answer_of none t d = (err unprocessable, d)
  answer_of (some days) t d = (ok (analytics_of days t d.world.memory), d)

  unfoldable pub get_analytics :
      Text → ℤ → Context → Desk → Result RouteError (Analytics f.Number) × Desk
  unfolding guarded_by_access tenant_of analytics_of
  get_analytics tenant_id days c d =
      guarded_by_access tenant_id c
        (λ e. with_tenant (tenant_of tenant_id e.tenants) (λ t g. answer_of (window_of days) t g) e)
        d
