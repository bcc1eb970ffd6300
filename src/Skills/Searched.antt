-- ===== src/Skills/Searched.antt =====
-- What the resource search skill answers and logs.
use wapsell_saas.Prelude.{
  ℕ, ◌+◌, ◌≤◌, ◌≡◌, ◌≢◌, ◌⊎◌, Option, none, some, List, [], ◌∷◌, ◌++◌, Text, codes, length, map,
  Dict, lookup, All,
}
use wapsell_saas.Prelude.Values.{Value}
use wapsell_saas.Resources.{Resource, ResourceRepo, Compare, needle_of, search_items}
use wapsell_saas.Resources.Found.{Hit}
use wapsell_saas.Skills.ResourceSearch.{
  QueryLog, Convert, Match, truthy, to_match, buyer_of, kind_of, query_of, limit_of, log_search,
}
use wapsell_saas.Skills.Asked.{IsTenant, IsFilters, IsQuery, IsWantedKind, IsLimit}

module _ (p : Compare) (c : Convert) (now : ℕ) (log_fault : Option Text) (d : ResourceRepo)
    (context params : Dict Value) where
  -- The log has one entry more, of this search, if its write does not fail and the context's buyer is
  -- a text, null or missing; else it is as it was.
  abbrev pub IsLogged : Text → Dict Value → Option Text → ℕ → QueryLog → QueryLog → Type 0
  IsLogged t f query n q q' =
      ((b : Option Text) × (log_fault ≡ none)
        × (buyer_of (lookup (codes "buyer_id") context) ≡ some b)
        × (q' ≡ record {
          entries =
              q.entries
              ++ record {
                id = q.next_id;
                tenant_id = t;
                buyer_id = b;
                query_text = query;
                filters = f;
                result_count = n;
                created_at = now;
              }
                ∷ [];
          next_id = q.next_id + 1;
        }))
      ⊎ (((log_fault ≢ none) ⊎ (buyer_of (lookup (codes "buyer_id") context) ≡ none)) × (q' ≡ q))

  abbrev pub IsSearched :
      List Match → Text → Dict Value → Option Text → QueryLog → QueryLog → Type 0
  IsSearched ms t f query q q' =
      IsTenant p c now log_fault d context params t
      × IsFilters p c now log_fault d context params f
      × IsQuery p c now log_fault d context params query
      × ((kind : Option Text) × (limit : ℕ) × (hits : List Resource) × IsWantedKind p c now
            log_fault d context params kind
          × IsLimit p c now log_fault d context params limit
          × (length hits ≤ limit)
          × (search_items p t f query kind limit d ≡ some hits)
          × All (Hit p t kind f (needle_of p query)) hits
          × (ms ≡ map to_match hits))
      × IsLogged t f query (length ms) q q'

  abbrev kind_param : Option Text
  kind_param = kind_of p c now log_fault d (truthy (lookup (codes "kind") params))

  abbrev query_param : Option (Option Text)
  query_param = query_of p c now log_fault d (truthy (lookup (codes "query") params))

  abbrev limit_param : Option ℕ
  limit_param = limit_of p c now log_fault d (truthy (lookup (codes "limit") params))

  abbrev buyer_param : Option (Option Text)
  buyer_param = buyer_of (lookup (codes "buyer_id") context)

  -- What a stage did, where it gave matches.
  abbrev IsAnswer : Text → Dict Value → Option Text → ℕ → List Match → QueryLog → QueryLog → Type 0
  IsAnswer t f query limit ms q q' =
      (hits : List Resource) × (search_items p t f query kind_param limit d ≡ some hits)
      × (ms ≡ map to_match hits)
      × (q' ≡ log_search p c now log_fault d t buyer_param query f (length hits) q)
