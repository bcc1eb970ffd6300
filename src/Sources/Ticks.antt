-- ===== src/Sources/Ticks.antt =====
-- What a tick of the scheduler does to each source.
use wapsell_saas.Prelude.{
  ℕ, ◌≡◌, ◌≢◌, Bool, true, false, ◌&&◌, none, some, Text, codes, ◌==◌, lookup, ◌⊎◌,
}
use wapsell_saas.Sources.Defs.{DataSource, list_all_active, Feed, Stores}
use wapsell_saas.Sources.Scheduler.{Clock}
use wapsell_saas.Sources.Due.{HasElapsed, IsFloat}
use wapsell_saas.Sources.Rounds.{due, rounds, IsSynced}

-- An active row, which is `s` if it has the id of `s`.
abbrev IsListed : DataSource → DataSource → Type 0
IsListed s x = (x.status ≡ codes "active") × (x.id ≡ s.id → x ≡ s)

module _ (c : Clock) (feeds : ℕ → Feed) (now : ℕ) where
  abbrev is_chosen : DataSource → Bool
  is_chosen s = s.status == codes "active" && due c feeds now s

  -- No active source has an interval that is too large for a float.
  abbrev pub IsReadable : Stores → Type 0
  IsReadable w =
      (j : Text) (x : DataSource)
      → lookup j w.sources ≡ some x
      → x.status ≡ codes "active"
      → IsFloat c now x

  ticked : Stores → ℕ × Stores
  ticked w = rounds c feeds now 0 (list_all_active w.sources) (0, w)

  -- The source is synchronized in the tick, since it is active and due, or is as it was.
  abbrev pub IsTicked : DataSource → Text → Stores → Type 0
  IsTicked s kind v =
      ((s.status ≡ codes "active")
        × ((s.last_synced_at ≡ none) ⊎ HasElapsed c now s true)
        × IsSynced c feeds now s kind v)
      ⊎ (((s.status ≢ codes "active") ⊎ HasElapsed c now s false)
          × (lookup s.id v.sources ≡ some s))
