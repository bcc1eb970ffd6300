-- ===== src/Sources/Defs.antt =====
-- `InMemoryDataSourceRepository` of sdk/wapsell/resources/repository.py and `ResourceSynchronizer` of
-- sdk/wapsell/resources/sync.py. `Feed` holds what a synchronization takes from outside: the
-- adapter's fetch, the strings of integers, the digest and the JSON text of a row, and the
-- identifiers of new items.
use wapsell_saas.Prelude.{
  ℕ, ◌+◌, Bool, true, false, Option, none, some, List, [], ◌∷◌, Text, codes, ◌==◌, is_empty,
  strip_by, Dict, lookup, insert, values, filter, sort_desc, take, length, Result, ok, err, ℤ,
  if◌then◌else◌,
}
use wapsell_saas.Prelude.Values.{Value, boolean, int, text}
use wapsell_saas.Resources.{Resource, ResourceRepo, upsert}

pub record DataSource : Type 0 where
  pub id : Text
  pub tenant_id : Text
  pub kind : Text
  pub name : Text
  pub config : Dict Value
  pub last_synced_at : Option ℕ
  pub last_sync_ok : Option Bool
  pub last_sync_count : Option ℕ
  pub last_sync_error : Option Text
  pub status : Text
  pub created_at : ℕ

abbrev pub SourceRepo : Type 0
SourceRepo = Dict DataSource

unfoldable pub list_all_active : SourceRepo → List DataSource
unfolding sort_desc
list_all_active d =
    sort_desc DataSource.created_at (filter (λ s. s.status == codes "active") (values d))

-- An `AdapterError`, with its message, or an exception that `sync` does not catch.
pub data FetchError : Type 0 where
  adapter_error other_error : Text → FetchError

pub data SyncError : Type 0 where
  unknown_source validation_error : SyncError
  raised : Text → SyncError

pub record Feed : Type 0 where
  pub fetch : DataSource → Result FetchError (List (Dict Value))
  pub show_int : ℤ → Text
  pub is_space : ℕ → Bool
  pub digest : Dict Value → Text
  pub dumps : Dict Value → Text
  pub new_id : ℕ → Text
  pub now : ℕ

pub record SyncReport : Type 0 where
  pub source_id : Text
  pub succeeded : Bool
  pub item_count : ℕ
  pub error : Option Text

-- The stores that a synchronization writes.
pub record Stores : Type 0 where
  pub sources : SourceRepo
  pub resources : ResourceRepo

-- `source.config.get("resource_kind", "item")`; `none` is the model's refusal of what is no string.
unfoldable pub resource_kind : Dict Value → Option Text
resource_kind config = elim (lookup (codes "resource_kind") config) [
  | none ↦ some (codes "item")
  | some v ↦ elim v [ text t ↦ some t | _ ↦ none ]
]

module _ (f : Feed) where
  -- `str(value)`, where `isinstance(value, (str, int))`
  unfoldable pub id_text : Option Value → Option Text
  id_text (some (text t)) = some t
  id_text (some (int z)) = some (f.show_int z)
  id_text (some (boolean b)) = some (if b then codes "True" else codes "False")
  id_text v = none

  unfoldable pub first_id : List Text → Dict Value → Text
  unfolding id_text strip_by
  first_id [] row = f.digest row
  first_id (k ∷ ks) row =
      let rest = first_id ks row in
      elim (id_text (lookup k row)) [
        | none ↦ rest
        | some t ↦ if is_empty (strip_by f.is_space t) then rest else t
      ]

  unfoldable pub extract_external_id : Dict Value → Text
  unfolding first_id
  extract_external_id row =
      first_id (codes "external_id" ∷ codes "id" ∷ codes "code" ∷ codes "sku" ∷ codes "slug" ∷ [])
        row

  unfoldable pub first_summary : List Text → Dict Value → Text
  unfolding strip_by
  first_summary [] row = take 240 (f.dumps row)
  first_summary (k ∷ ks) row =
      let rest = first_summary ks row in
      elim (lookup k row) [
        | none ↦ rest
        | some v ↦ elim v [
          | text t ↦
              if is_empty (strip_by f.is_space t) then rest else take 240 (strip_by f.is_space t)
          | _ ↦ rest
        ]
      ]

  unfoldable pub derive_summary : Dict Value → Text
  unfolding first_summary
  derive_summary row =
      first_summary (codes "title" ∷ codes "name" ∷ codes "label" ∷ codes "description" ∷ []) row

  unfoldable pub to_resource : DataSource → Text → ℕ → Dict Value → Resource
  unfolding extract_external_id derive_summary
  to_resource s kind i row = record {
    id = f.new_id i;
    tenant_id = s.tenant_id;
    source_id = some s.id;
    kind = kind;
    external_id = some (extract_external_id row);
    data_ = row;
    summary = derive_summary row;
    status = codes "active";
    created_at = f.now;
    updated_at = f.now;
  }

  -- The loop over the rows, from the `i`-th.
  unfoldable pub upsert_rows :
      DataSource → Text → ℕ → List (Dict Value) → ResourceRepo → ResourceRepo
  unfolding to_resource upsert
  upsert_rows s kind i [] d = d
  upsert_rows s kind i (row ∷ rows) d =
      upsert_rows s kind (i + 1) rows (upsert (to_resource s kind i row) d).1

  unfoldable pub synced : DataSource → Bool → ℕ → Option Text → DataSource
  synced s succeeded count error = record s {
    last_synced_at = some f.now;
    last_sync_ok = some succeeded;
    last_sync_count = some count;
    last_sync_error = error;
  }

  -- The source's update and the report. The row was read under its id, so the update finds it.
  unfoldable pub close_sync :
      DataSource → Bool → ℕ → Option Text → Stores → Result SyncError SyncReport × Stores
  unfolding synced
  close_sync s succeeded count error w = elim (lookup s.id w.sources) [
    | none ↦ (err unknown_source, w)
    | some _ ↦ (
      ok (record { source_id = s.id; succeeded = succeeded; item_count = count; error = error }),
      record w { sources = insert s.id (synced s succeeded count error) w.sources },
    )
  ]

  unfoldable pub store_rows :
      DataSource → List (Dict Value) → Stores → Result SyncError SyncReport × Stores
  unfolding close_sync upsert_rows resource_kind
  store_rows s [] w = close_sync s true 0 none w
  store_rows s (row ∷ rows) w = elim (resource_kind s.config) [
    | none ↦ (err validation_error, w)
    | some kind ↦
        close_sync s true (length (row ∷ rows)) none
          (record w { resources = upsert_rows s kind 0 (row ∷ rows) w.resources })
  ]

  unfoldable pub sync_source :
      DataSource
      → Result FetchError (List (Dict Value))
      → Stores
      → Result SyncError SyncReport × Stores
  unfolding store_rows close_sync
  sync_source s (err (adapter_error e)) w = close_sync s false 0 (some (take 500 e)) w
  sync_source s (err (other_error e)) w = (err (raised e), w)
  sync_source s (ok rows) w = store_rows s rows w

  unfoldable pub sync : Text → Stores → Result SyncError SyncReport × Stores
  unfolding sync_source
  sync source_id w = elim (lookup source_id w.sources) [
    | none ↦ (err unknown_source, w)
    | some s ↦ sync_source s (f.fetch s) w
  ]
