-- ===== src/Sources/Scheduler.antt =====
-- `SyncScheduler._is_due` and `tick_once` of sdk/wapsell/resources/scheduler.py. `Clock` holds
-- Python's numbers: `float`, `total_seconds` of the time from the second instant to the first, and
-- `<=`. An OverflowError of `float` is caught nowhere and ends the tick. The `i`-th listed source is synchronized with
-- the `i`-th feed.
use wapsell_saas.Prelude.{
  ℕ, ◌+◌, Bool, true, false, Option, none, some, List, [], ◌∷◌, codes, Dict, lookup, Result, ok,
  err,
}
use wapsell_saas.Prelude.Values.{Value, Floated, number, rejected, overflow}
use wapsell_saas.Sources.Defs.{
  DataSource, list_all_active, Feed, SyncError, SyncReport, Stores, sync,
}

pub record Clock : Type 1 where
  pub Number : Type 0
  pub to_float : Value → Floated Number
  pub total_seconds : ℕ → ℕ → Number
  pub at_most : Number → Number → Bool
  pub default_sync_interval : Number

module _ (c : Clock) where
  -- `none` is the OverflowError.
  unfoldable pub interval_of : Dict Value → Option c.Number
  unfolding lookup
  interval_of config = elim (lookup (codes "sync_interval_seconds") config) [
    | none ↦ some c.default_sync_interval
    | some v ↦ elim (c.to_float v) [
      | number n ↦ some n
      | rejected ↦ some c.default_sync_interval
      | overflow ↦ none
    ]
  ]

  unfoldable pub is_due : DataSource → ℕ → Option Bool
  unfolding interval_of
  is_due s now = elim s.last_synced_at [
    | none ↦ some true
    | some last ↦ elim (interval_of s.config) [
      | none ↦ none
      | some n ↦ some (c.at_most n (c.total_seconds now last))
    ]
  ]

  -- `synced += 1`, where `sync` did not raise
  unfoldable pub count : ℕ → Result SyncError SyncReport × Stores → ℕ × Stores
  count n (ok report, w) = (n + 1, w)
  count n (err e, w) = (n, w)

  -- One round, with the count and the stores after the synchronization and before it. `none` is the
  -- exception of `_is_due`.
  unfoldable pub visited : Option Bool → ℕ × Stores → ℕ × Stores → Option ℕ × Stores
  visited none after (n, w) = (none, w)
  visited (some true) (m, v) (n, w) = (some m, v)
  visited (some false) after (n, w) = (some n, w)

  module _ (feeds : ℕ → Feed) (now : ℕ) where
    -- One round of the loop.
    unfoldable pub tick_source : ℕ → DataSource → ℕ × Stores → Option ℕ × Stores
    unfolding is_due sync count visited
    tick_source i s (n, w) = visited (is_due s now) (count n (sync (feeds i) s.id w)) (n, w)

    -- The rounds, up to the first that raises.
    unfoldable pub tick_sources : ℕ → List DataSource → ℕ × Stores → Option ℕ × Stores
    unfolding tick_source
    tick_sources i [] (n, w) = (some n, w)
    tick_sources i (s ∷ ss) a =
        let (o, w) = tick_source i s a in
        elim o [ none ↦ (none, w) | some n ↦ tick_sources (i + 1) ss (n, w) ]

    unfoldable pub tick_once : Stores → Option ℕ × Stores
    unfolding tick_sources list_all_active
    tick_once w = tick_sources 0 (list_all_active w.sources) (0, w)
