-- ===== src/Sources/Recorded.antt =====
-- The rows that a synchronization writes.
use wapsell_saas.Prelude.{
  ℕ, ◌+◌, ◌≡◌, ◌≢◌, refl, ap, Bool, true, false, Option, none, some, List, [], ◌∷◌, Text, Dict,
  lookup, lookup-insert_self, IsKeyed, insert-IsKeyed, Result, ok, err, Option-cases, inl, inr,
}
use wapsell_saas.Prelude.Values.{Value}
use wapsell_saas.Resources.{Resource, ResourceRepo, upsert}
use wapsell_saas.Resources.Store.{upsert-IsKeyed}
use wapsell_saas.Sources.Defs.{
  DataSource, FetchError, adapter_error, other_error, Feed, Stores, resource_kind, to_resource,
  upsert_rows, synced, close_sync, store_rows, sync_source, sync,
}
use wapsell_saas.Sources.Outcome.{sync_known, sync_isolated}

abbrev pub IsStored : Stores → Type 0
IsStored w = IsKeyed DataSource.id w.sources × IsKeyed Resource.id w.resources

module _ (f : Feed) where
  upsert_rows-IsKeyed :
      (s : DataSource) (kind : Text) (i : ℕ) (rows : List (Dict Value)) (d : ResourceRepo)
      → IsKeyed Resource.id d
      → IsKeyed Resource.id (upsert_rows f s kind i rows d)
  unfolding upsert_rows
  upsert_rows-IsKeyed s kind i [] d h = h
  upsert_rows-IsKeyed s kind i (row ∷ rows) d h =
      upsert_rows-IsKeyed s kind (i + 1) rows (upsert (to_resource f s kind i row) d).1
        (upsert-IsKeyed (to_resource f s kind i row) d h)

  close_sync-IsStored :
      (s : DataSource) (b : Bool) (n : ℕ) (x : Option Text) (w : Stores)
      → IsStored w
      → IsStored (close_sync f s b n x w).1
  unfolding close_sync synced
  close_sync-IsStored s b n x w h = elim (Option-cases (lookup s.id w.sources)) [
    | inl e ↦ rw (e, close_sync) h
    | inr (v, e) ↦
        rw (e, close_sync)
          (insert-IsKeyed DataSource.id s.id (synced f s b n x) w.sources refl h.0, h.1)
  ]

  sync_source-IsStored :
      (s : DataSource) (r : Result FetchError (List (Dict Value))) (w : Stores)
      → IsStored w
      → IsStored (sync_source f s r w).1
  unfolding sync_source store_rows
  sync_source-IsStored s (err (adapter_error e)) w h = close_sync-IsStored s false 0 _ w h
  sync_source-IsStored s (err (other_error e)) w h = h
  sync_source-IsStored s (ok []) w h = close_sync-IsStored s true 0 none w h
  sync_source-IsStored s (ok (row ∷ rows)) w h = elim (Option-cases (resource_kind s.config)) [
    | inl e ↦ rw (e, store_rows) h
    | inr (kind, e) ↦
        rw (e, store_rows)
          (close_sync-IsStored s true _ none
            (record w { resources = upsert_rows f s kind 0 (row ∷ rows) w.resources })
            (h.0, upsert_rows-IsKeyed s kind 0 (row ∷ rows) w.resources h.1))
  ]

  sync_unknown : (j : Text) (w : Stores) → lookup j w.sources ≡ none → (sync f j w).1 ≡ w
  unfolding sync
  sync_unknown j w e = rw (e, sync) refl

  pub sync-IsStored : (j : Text) (w : Stores) → IsStored w → IsStored (sync f j w).1
  sync-IsStored j w h = elim (Option-cases (lookup j w.sources)) [
    | inl e ↦ rw (sync_unknown j w e) h
    | inr (s, e) ↦ rw (sync_known f j s w e) (sync_source-IsStored s (f.fetch s) w h)
  ]

  pub sync_other :
      (j i : Text) (w : Stores)
      → IsStored w
      → i ≢ j
      → lookup i (sync f j w).1.sources ≡ lookup i w.sources
  sync_other j i w h ne = elim (Option-cases (lookup j w.sources)) [
    | inl e ↦ ap (λ v. lookup i v.sources) (sync_unknown j w e)
    | inr (s, e) ↦ (sync_isolated f j s w h.0 h.1 e).0 i ne
  ]

  -- A synchronization whose fetch does not raise past it is recorded on the source's row.
  abbrev IsRecorded : DataSource → DataSource → Type 0
  IsRecorded s x = (x.config ≡ s.config) × (x.last_synced_at ≡ some f.now) × (x.last_sync_ok ≢ none)

  close_sync-IsRecorded :
      (s : DataSource) (b : Bool) (n : ℕ) (x : Option Text) (w : Stores)
      → lookup s.id w.sources ≢ none
      → (v : DataSource) × (lookup s.id (close_sync f s b n x w).1.sources ≡ some v)
        × IsRecorded s v
  unfolding close_sync synced
  close_sync-IsRecorded s b n x w there = elim (Option-cases (lookup s.id w.sources)) [
    | inl e ↦ absurd (there e)
    | inr (v, e) ↦ (
      synced f s b n x,
      rw (e, close_sync) (lookup-insert_self s.id (synced f s b n x) w.sources),
      (refl, refl, λ q. cc),
    )
  ]

  pub sync_source-IsRecorded :
      (s : DataSource) (r : Result FetchError (List (Dict Value))) (kind : Text) (w : Stores)
      → lookup s.id w.sources ≢ none
      → resource_kind s.config ≡ some kind
      → ((e : Text) → r ≢ err (other_error e))
      → (v : DataSource) × (lookup s.id (sync_source f s r w).1.sources ≡ some v) × IsRecorded s v
  unfolding sync_source store_rows
  sync_source-IsRecorded s (err (adapter_error e)) kind w there k calm =
      close_sync-IsRecorded s false 0 _ w there
  sync_source-IsRecorded s (err (other_error e)) kind w there k calm = absurd (calm e refl)
  sync_source-IsRecorded s (ok []) kind w there k calm = close_sync-IsRecorded s true 0 none w there
  sync_source-IsRecorded s (ok (row ∷ rows)) kind w there k calm =
      rw (k, store_rows)
        (close_sync-IsRecorded s true _ none
          (record w { resources = upsert_rows f s kind 0 (row ∷ rows) w.resources }) there)
