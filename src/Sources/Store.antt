-- ===== src/Sources/Store.antt =====
-- `InMemoryDataSourceRepository` of sdk/wapsell/resources/repository.py, but for
-- `list_all_active`, which the synchronization's file has. `get` is `lookup`.
use wapsell_saas.Prelude.{
  none, some, List, Text, ◌==◌, lookup, insert, erase, values, filter, sort_desc, Result, ok, err,
}
use wapsell_saas.Sources.Defs.{DataSource, SourceRepo}

-- The KeyError of an update.
pub data SourceError : Type 0 where
  no_source : SourceError

unfoldable pub add : DataSource → SourceRepo → DataSource × SourceRepo
add s d = (s, insert s.id s d)

unfoldable pub list_for : Text → SourceRepo → List DataSource
unfolding sort_desc
list_for tenant_id d =
    sort_desc DataSource.created_at (filter (λ s. s.tenant_id == tenant_id) (values d))

unfoldable pub update : DataSource → SourceRepo → Result SourceError DataSource × SourceRepo
update s d = elim (lookup s.id d) [ none ↦ (err no_source, d) | some old ↦ (ok s, insert s.id s d) ]

unfoldable pub delete : Text → SourceRepo → SourceRepo
unfolding erase
delete source_id d = erase source_id d
