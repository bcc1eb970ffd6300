-- ===== src/Resources/Defs.antt =====
-- `InMemoryResourceRepository` of sdk/wapsell/resources/repository.py with the models of models.py.
use wapsell_saas.Prelude.{
  ℕ, Bool, true, not, ◌&&◌, Option, none, some, List, [], ◌∷◌, Text, codes, ◌==◌, is_text, Dict,
  insert, erase, values, find, filter, sort_desc, take, if◌then◌else◌,
}
use wapsell_saas.Prelude.Values.{Value}

pub record Resource : Type 0 where
  pub id : Text
  pub tenant_id : Text
  pub source_id : Option Text
  pub kind : Text
  pub external_id : Option Text
  pub data_ : Dict Value
  pub summary : Text
  pub status : Text
  pub created_at : ℕ
  pub updated_at : ℕ

abbrev pub ResourceRepo : Type 0
ResourceRepo = Dict Resource

unfoldable pub add : Resource → ResourceRepo → Resource × ResourceRepo
add r d = (r, insert r.id r d)

-- The row has the key (tenant, source, external id) of `r`, and another identifier.
abbrev pub same_key : Resource → Text → Text → Resource → Bool
same_key r source external e =
    e.tenant_id == r.tenant_id
    && (is_text e.source_id source && (is_text e.external_id external && not (e.id == r.id)))

unfoldable pub evict : (Resource → Bool) → ResourceRepo → ResourceRepo
evict p [] = []
evict p ((k, e) ∷ d) = if p e then evict p d else (k, e) ∷ evict p d

unfoldable pub dedup : Resource → ResourceRepo → ResourceRepo
unfolding evict
dedup r d = elim r.external_id [
  | none ↦ d
  | some external ↦ elim r.source_id [
    | none ↦ d
    | some source ↦ evict (same_key r source external) d
  ]
]

unfoldable pub upsert : Resource → ResourceRepo → Resource × ResourceRepo
unfolding dedup
upsert r d = (r, insert r.id r (dedup r d))

abbrev pub has_external : Text → Text → Text → Resource → Bool
has_external tenant_id kind external_id r =
    r.tenant_id == tenant_id && (r.kind == kind && is_text r.external_id external_id)

unfoldable pub find_by_external_id : Text → Text → Text → ResourceRepo → Option Resource
find_by_external_id tenant_id kind external_id d =
    find (has_external tenant_id kind external_id) (values d)

abbrev pub is_kind : Option Text → Resource → Bool
is_kind none r = true
is_kind (some k) r = r.kind == k

unfoldable pub list_for : Text → Option Text → ℕ → ResourceRepo → List Resource
unfolding sort_desc
list_for tenant_id kind limit d = take limit (
    sort_desc Resource.created_at (
      filter (λ r. r.tenant_id == tenant_id && (r.status == codes "active" && is_kind kind r))
        (values d)))

unfoldable pub delete : Text → ResourceRepo → ResourceRepo
delete id d = erase id d
