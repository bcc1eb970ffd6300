-- ===== src/Resources/Store.antt =====
-- What an upsert leaves in the store of items.
use wapsell_saas.Prelude.{
  ◌≡◌, ◌≢◌, refl, Bool, Option, none, some, [], ◌∷◌, Text, eq_iff, is_text→eq, eq→is_text, lookup,
  lookup-insert, lookup-insert_self, IsKeyed, insert-IsKeyed, lookup-key, arith, if◌then◌else◌,
  Option-cases, inl, inr,
}
use wapsell_saas.Resources.Defs.{Resource, ResourceRepo, same_key, evict, dedup, upsert}

abbrev unless : (Resource → Bool) → Option Resource → Option Resource
unless p none = none
unless p (some e) = if p e then none else some e

lookup-evict :
    (p : Resource → Bool) (k : Text) (d : ResourceRepo)
    → IsKeyed Resource.id d
    → lookup k (evict p d) ≡ unless p (lookup k d)
unfolding lookup evict
lookup-evict p k [] h = refl
lookup-evict p k ((j, e) ∷ d) h = ground (arith, lookup-evict p k d h.2, eq_iff j k)

evict-IsKeyed :
    (p : Resource → Bool) (d : ResourceRepo)
    → IsKeyed Resource.id d
    → IsKeyed Resource.id (evict p d)
unfolding evict
evict-IsKeyed p [] h = tt
evict-IsKeyed p ((j, e) ∷ d) h = ground (arith, evict-IsKeyed p d h.2, lookup-evict p j d h.2)

pub dedup-IsKeyed :
    (r : Resource) (d : ResourceRepo) → IsKeyed Resource.id d → IsKeyed Resource.id (dedup r d)
unfolding dedup
dedup-IsKeyed r d h = elim (Option-cases r.external_id) [
  | inl e ↦ rw (e, dedup) h
  | inr (x, e) ↦ elim (Option-cases r.source_id) [
    | inl f ↦ rw (e, dedup, f) h
    | inr (s, f) ↦ rw (e, dedup, f) (evict-IsKeyed (same_key r s x) d h)
  ]
]

pub upsert-IsKeyed :
    (r : Resource) (d : ResourceRepo) → IsKeyed Resource.id d → IsKeyed Resource.id (upsert r d).1
unfolding upsert
upsert-IsKeyed r d h = insert-IsKeyed Resource.id r.id r (dedup r d) refl (dedup-IsKeyed r d h)

-- An item with a source and an external id: after its upsert it is stored under its id, it is the
-- only one of its tenant, source and external id, and an item of another id stays exactly if it
-- differs from it in one of the three.
pub upsert_dedups :
    (r : Resource) (source external : Text) (d : ResourceRepo)
    → IsKeyed Resource.id d
    → r.source_id ≡ some source
    → r.external_id ≡ some external
    → let d' = (upsert r d).1 in
      (lookup r.id d' ≡ some r)
      × ((k : Text) (e : Resource)
          → lookup k d' ≡ some e
          → e.tenant_id ≡ r.tenant_id
          → e.source_id ≡ some source
          → e.external_id ≡ some external
          → e ≡ r)
      × ((k : Text) (e : Resource)
          → k ≢ r.id
          → lookup k d ≡ some e
          → ((e.tenant_id ≡ r.tenant_id)
                × (e.source_id ≡ some source)
                × (e.external_id ≡ some external)
              → ⊥)
          → lookup k d' ≡ some e)
unfolding upsert dedup
upsert_dedups r source external d h hs hx = (
  lookup-insert_self r.id r (dedup r d),
  λ k e l t s x. ground (
    arith,
    lookup-insert r.id k r (evict (same_key r source external) d),
    lookup-evict (same_key r source external) k d h,
    hs,
    hx,
    eq_iff r.id k,
    eq_iff e.id r.id,
    eq_iff e.tenant_id r.tenant_id,
    eq→is_text e.source_id source s,
    eq→is_text e.external_id external x,
    lookup-key Resource.id k d {v = e} h,
  ),
  λ k e ne l differs. ground (
    arith,
    lookup-insert r.id k r (evict (same_key r source external) d),
    lookup-evict (same_key r source external) k d h,
    hs,
    hx,
    eq_iff r.id k,
    eq_iff e.tenant_id r.tenant_id,
    is_text→eq e.source_id source,
    is_text→eq e.external_id external,
    differs,
  ),
)

-- An upsert's first part removes rows and changes none.
pub lookup-dedup :
    (r : Resource) (k : Text) (d : ResourceRepo) (e : Resource)
    → IsKeyed Resource.id d
    → lookup k (dedup r d) ≡ some e
    → lookup k d ≡ some e
unfolding dedup
lookup-dedup r k d e h l = elim (Option-cases r.external_id) [
  | inl n ↦ ground arith
  | inr (x, n) ↦ elim (Option-cases r.source_id) [
    | inl m ↦ ground arith
    | inr (s, m) ↦ ground (arith, lookup-evict (same_key r s x) k d h)
  ]
]
