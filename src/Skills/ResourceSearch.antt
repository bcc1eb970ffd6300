-- ===== src/Skills/ResourceSearch.antt =====
-- `ResourceSearchSkill.execute` of sdk/wapsell/skills/resource_search.py, and
-- `InMemoryQueryLogRepository.record` of sdk/wapsell/resources/repository.py. `Convert` holds `str` on
-- what is no string, and `int`, whose `none` is an exception.
use wapsell_saas.Prelude.{
  ℕ, ◌+◌, Option, none, some, List, [], ◌∷◌, ◌++◌, Text, codes, str, length, map, strip_by, Dict,
  lookup, leb, ℤ, pos, negsuc, if◌then◌else◌,
}
use wapsell_saas.Prelude.Values.{Value, null, text, object, to_dict, is_truthy}
use wapsell_saas.Resources.{Resource, ResourceRepo, Compare, search_items}

pub record QueryLogEntry : Type 0 where
  pub id : ℕ
  pub tenant_id : Text
  pub buyer_id : Option Text
  pub query_text : Option Text
  pub filters : Dict Value
  pub result_count : ℕ
  pub created_at : ℕ

pub record QueryLog : Type 0 where
  pub entries : List QueryLogEntry
  pub next_id : ℕ

unfoldable pub record_entry : QueryLogEntry → QueryLog → QueryLogEntry × QueryLog
record_entry e q =
    let stored = record e { id = q.next_id } in
    (stored, record { entries = q.entries ++ stored ∷ []; next_id = q.next_id + 1 })

pub record Convert : Type 0 where
  pub str_other : Value → Text
  pub to_int : Value → Option ℤ

pub record Match : Type 0 where
  pub id : Text
  pub summary : Text
  pub data_ : Dict Value
  pub kind : Text

-- The two results of the skill, and an exception.
pub data SearchOutcome : Type 0 where
  failed : (error : Text) → SearchOutcome
  found :
      (matches : List Match) (message tenant_id : Text) (applied_filters : Dict Value)
      (query : Option Text)
      → SearchOutcome
  raised : SearchOutcome

abbrev pub default_limit : ℕ
default_limit = 5

abbrev pub max_limit : ℕ
max_limit = 25

-- `v or None`
abbrev pub truthy : Option Value → Option Value
truthy none = none
truthy (some v) = if is_truthy v then some v else none

-- `max(1, min(n, _MAX_LIMIT))`
abbrev pub clamp : ℤ → ℕ
clamp (pos n) = if leb n max_limit then (if leb 1 n then n else 1) else max_limit
clamp (negsuc n) = 1

abbrev pub to_match : Resource → Match
to_match r = record { id = r.id; summary = r.summary; data_ = r.data_; kind = r.kind }

abbrev pub message_of : List Resource → Text
message_of [] = codes "no matches for the given filters / query"
message_of (r ∷ rs) = codes "found " ++ (str (length (r ∷ rs)) ++ codes " match(es)")

-- `filters`, where it is a dict; `none` is the failure.
abbrev pub filters_of : Option Value → Option (Dict Value)
filters_of none = some []
filters_of (some (object m)) = some (to_dict m)
filters_of (some v) = none

-- The buyer of the log's entry, where pydantic accepts it.
abbrev pub buyer_of : Option Value → Option (Option Text)
buyer_of none = some none
buyer_of (some null) = some none
buyer_of (some (text t)) = some (some t)
buyer_of (some v) = none

module _ (p : Compare) (c : Convert) (now : ℕ) (log_fault : Option Text) (d : ResourceRepo) where
  abbrev pub str_value : Value → Text
  str_value (text t) = t
  str_value v = c.str_other v

  abbrev pub kind_of : Option Value → Option Text
  kind_of none = none
  kind_of (some v) = some (str_value v)

  -- The stripped query, with `none` for an empty one; the outer `none` is the exception of `strip`
  -- on what is no string.
  unfoldable pub query_of : Option Value → Option (Option Text)
  unfolding strip_by
  query_of none = some none
  query_of (some (text t)) = elim (strip_by p.unicode.is_space t) [
    | [] ↦ some none
    | x ∷ s ↦ some (some (x ∷ s))
  ]
  query_of (some v) = none

  abbrev pub limit_of : Option Value → Option ℕ
  limit_of none = some default_limit
  limit_of (some v) = elim (c.to_int v) [ none ↦ none | some z ↦ some (clamp z) ]

  unfoldable pub log_search :
      Text → Option (Option Text) → Option Text → Dict Value → ℕ → QueryLog → QueryLog
  unfolding record_entry
  log_search tenant_id none query filters count q = q
  log_search tenant_id (some buyer_id) query filters count q = elim log_fault [
    | some e ↦ q
    | none ↦
        (record_entry
          (record {
            id = 0;
            tenant_id = tenant_id;
            buyer_id = buyer_id;
            query_text = query;
            filters = filters;
            result_count = count;
            created_at = now;
          })
          q).1
  ]

  -- The answer to what the search gave, and the log.
  unfoldable pub answer :
      Text
      → Option (Option Text)
      → Option Text
      → Dict Value
      → Option (List Resource)
      → QueryLog
      → SearchOutcome × QueryLog
  unfolding log_search
  answer tenant_id buyer_id query filters none q = (raised, q)
  answer tenant_id buyer_id query filters (some hits) q = (
    found (map to_match hits) (message_of hits) tenant_id filters query,
    log_search tenant_id buyer_id query filters (length hits) q,
  )

  -- The search, where the query and the limit could be read.
  unfoldable pub search_with :
      Text
      → Option (Option Text)
      → Dict Value
      → Option Text
      → Option (Option Text)
      → Option ℕ
      → QueryLog
      → SearchOutcome × QueryLog
  unfolding answer search_items
  search_with tenant_id buyer_id filters kind none limit q = (raised, q)
  search_with tenant_id buyer_id filters kind (some query) none q = (raised, q)
  search_with tenant_id buyer_id filters kind (some query) (some limit) q =
      answer tenant_id buyer_id query filters (search_items p tenant_id filters query kind limit d)
        q

  unfoldable pub with_filters :
      Text → Dict Value → Dict Value → Option (Dict Value) → QueryLog → SearchOutcome × QueryLog
  unfolding search_with query_of
  with_filters tenant_id context params none q =
      (failed (codes "filters must be a dict of {key: value}"), q)
  with_filters tenant_id context params (some filters) q =
      search_with tenant_id (buyer_of (lookup (codes "buyer_id") context)) filters
        (kind_of (truthy (lookup (codes "kind") params)))
        (query_of (truthy (lookup (codes "query") params)))
        (limit_of (truthy (lookup (codes "limit") params))) q

  unfoldable pub execute : Dict Value → Dict Value → QueryLog → SearchOutcome × QueryLog
  unfolding with_filters to_dict
  execute context params q = elim (truthy (lookup (codes "tenant_id") context)) [
    | none ↦ (failed (codes "context.tenant_id is required for resource search"), q)
    | some v ↦
        with_filters (str_value v) context params
          (filters_of (truthy (lookup (codes "filters") params))) q
  ]
