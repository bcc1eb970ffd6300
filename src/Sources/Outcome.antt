-- ===== src/Sources/Outcome.antt =====
-- What a synchronization leaves alone.
use wapsell_saas.Prelude.{
  ℕ, ◌+◌, ◌≡◌, ◌≢◌, refl, ap, ◌∙◌, Bool, true, false, Option, none, some, List, [], ◌∷◌, Text, Dict,
  eq_iff, lookup, insert, lookup-insert, IsKeyed, lookup-key, Result, ok, err, arith, Option-cases,
  inl, inr,
}
use wapsell_saas.Prelude.Values.{Value}
use wapsell_saas.Resources.{Resource, ResourceRepo, upsert}
use wapsell_saas.Resources.Store.{upsert-IsKeyed, upsert_dedups}
use wapsell_saas.Sources.Defs.{
  DataSource, FetchError, adapter_error, other_error, Feed, Stores, resource_kind,
  extract_external_id, to_resource, upsert_rows, close_sync, store_rows, sync_source, sync,
}

module _ (f : Feed) where
  upsert_rows-others :
      (s : DataSource) (kind : Text) (i : ℕ) (rows : List (Dict Value)) (d : ResourceRepo)
      (k : Text) (e : Resource)
      → IsKeyed Resource.id d
      → ((j : ℕ) → k ≢ f.new_id j)
      → ((e.tenant_id ≡ s.tenant_id) × (e.source_id ≡ some s.id) → ⊥)
      → lookup k d ≡ some e
      → lookup k (upsert_rows f s kind i rows d) ≡ some e
  unfolding upsert_rows
  upsert_rows-others s kind i [] d k e h fresh foreign l = l
  upsert_rows-others s kind i (row ∷ rows) d k e h fresh foreign l =
      let r : Resource = to_resource f s kind i row in
      upsert_rows-others s kind (i + 1) rows (upsert r d).1 k e (upsert-IsKeyed r d h) fresh foreign
        ((upsert_dedups r s.id (extract_external_id f row) d h (unfold to_resource in refl)
            (unfold to_resource in refl)).2
          k e (unfold to_resource in fresh i) l (unfold to_resource in λ q. foreign (q.0, q.1)))

  -- The other sources, and the items that are not the source's.
  abbrev Kept : DataSource → Stores → Stores → Type 0
  Kept s w w' =
      ((j : Text) → j ≢ s.id → lookup j w'.sources ≡ lookup j w.sources)
      × ((k : Text) (e : Resource)
          → ((j : ℕ) → k ≢ f.new_id j)
          → ((e.tenant_id ≡ s.tenant_id) × (e.source_id ≡ some s.id) → ⊥)
          → lookup k w.resources ≡ some e
          → lookup k w'.resources ≡ some e)

  lookup-insert_other :
      (s : DataSource) (j : Text) (d : Dict DataSource) (v : DataSource)
      → j ≢ s.id
      → lookup j (insert s.id v d) ≡ lookup j d
  lookup-insert_other s j d v ne = ground (arith, eq_iff s.id j, lookup-insert s.id j v d)

  close_sync-Kept :
      (s : DataSource) (b : Bool) (n : ℕ) (x : Option Text) (w : Stores)
      → ((j : Text) → j ≢ s.id → lookup j (close_sync f s b n x w).1.sources ≡ lookup j w.sources)
        × ((close_sync f s b n x w).1.resources ≡ w.resources)
  unfolding close_sync
  close_sync-Kept s b n x w = go (lookup s.id w.sources) refl
    where
      go :
          (o : Option DataSource)
          → lookup s.id w.sources ≡ o
          → ((j : Text)
              → j ≢ s.id
              → lookup j (close_sync f s b n x w).1.sources ≡ lookup j w.sources)
            × ((close_sync f s b n x w).1.resources ≡ w.resources)
      go none e = (λ j ne. rw (e, close_sync) refl, rw (e, close_sync) refl)
      go (some v) e = (
        λ j ne. rw (e, close_sync) (lookup-insert_other s j w.sources _ ne),
        rw (e, close_sync) refl,
      )

  -- What closing a synchronization keeps, over the items that were written before it.
  close_sync-over :
      (s : DataSource) (b : Bool) (n : ℕ) (x : Option Text) (w v : Stores)
      → v.sources ≡ w.sources
      → ((k : Text) (e : Resource)
          → ((j : ℕ) → k ≢ f.new_id j)
          → ((e.tenant_id ≡ s.tenant_id) × (e.source_id ≡ some s.id) → ⊥)
          → lookup k w.resources ≡ some e
          → lookup k v.resources ≡ some e)
      → Kept s w (close_sync f s b n x v).1
  close_sync-over s b n x w v es er =
      let (a, c) = close_sync-Kept s b n x v in
      (
        λ j ne. a j ne ∙ ap (λ d. lookup j d) es,
        λ k e fresh foreign l. ap (λ d. lookup k d) c ∙ er k e fresh foreign l,
      )

  store_rows-Kept :
      (s : DataSource) (rows : List (Dict Value)) (w : Stores)
      → IsKeyed Resource.id w.resources
      → Kept s w (store_rows f s rows w).1
  unfolding store_rows
  store_rows-Kept s [] w h = close_sync-over s true 0 none w w refl (λ k e fresh foreign l. l)
  store_rows-Kept s (row ∷ rows) w h = elim (Option-cases (resource_kind s.config)) [
    | inl e ↦ rw (e, store_rows) (λ j ne. refl, λ k x fresh foreign l. l)
    | inr (kind, e) ↦
        rw (e, store_rows)
          (close_sync-over s true _ none w
            (record w { resources = upsert_rows f s kind 0 (row ∷ rows) w.resources }) refl
            (λ k x fresh foreign l.
              upsert_rows-others s kind 0 (row ∷ rows) w.resources k x h fresh foreign l))
  ]

  sync_source-Kept :
      (s : DataSource) (r : Result FetchError (List (Dict Value))) (w : Stores)
      → IsKeyed Resource.id w.resources
      → Kept s w (sync_source f s r w).1
  unfolding sync_source
  sync_source-Kept s (err (adapter_error x)) w h =
      close_sync-over s false 0 _ w w refl (λ k e fresh foreign l. l)
  sync_source-Kept s (err (other_error x)) w h = (λ j ne. refl, λ k e fresh foreign l. l)
  sync_source-Kept s (ok rows) w h = store_rows-Kept s rows w h

  pub sync_known :
      (source_id : Text) (s : DataSource) (w : Stores)
      → lookup source_id w.sources ≡ some s
      → sync f source_id w ≡ sync_source f s (f.fetch s) w
  unfolding sync sync_source
  sync_known source_id s w found = rw (found, sync) refl

  -- However the synchronization of a source ends, every other source is as it was, and so is every
  -- item that is not of the source's tenant and the source, if the identifiers of new items are
  -- fresh for it.
  pub sync_isolated :
      (source_id : Text) (s : DataSource) (w : Stores)
      → IsKeyed DataSource.id w.sources
      → IsKeyed Resource.id w.resources
      → lookup source_id w.sources ≡ some s
      → let w' = (sync f source_id w).1 in
        ((j : Text) → j ≢ source_id → lookup j w'.sources ≡ lookup j w.sources)
        × ((k : Text) (e : Resource)
            → ((j : ℕ) → k ≢ f.new_id j)
            → ((e.tenant_id ≡ s.tenant_id) × (e.source_id ≡ some source_id) → ⊥)
            → lookup k w.resources ≡ some e
            → lookup k w'.resources ≡ some e)
  sync_isolated source_id s w hs hr found =
      let same : s.id ≡ source_id = lookup-key DataSource.id source_id w.sources hs found in
      let q : (sync f source_id w) ≡ sync_source f s (f.fetch s) w =
        sync_known source_id s w found in
      let (a, c) = sync_source-Kept s (f.fetch s) w hr in
      (
        λ j ne. ap (λ o. lookup j o.1.sources) q ∙ a j (λ z. ne (z ∙ same)),
        λ k e fresh foreign l.
            ap (λ o. lookup k o.1.resources) q
            ∙ c k e fresh (λ z. foreign (z.0, z.1 ∙ ap some same)) l,
      )
