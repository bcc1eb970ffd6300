-- ===== src/Resources/Search.antt =====
-- `InMemoryResourceRepository.search` and `_matches_filter` of sdk/wapsell/resources/repository.py.
-- `Compare` holds Python's operations on JSON values: `float`, `<=` on its results,
-- `==`, `json.dumps`, and the Unicode database. `none` of a search is an exception: any of
-- `float(value)`, or the OverflowError of `_as_number`.
use wapsell_saas.Prelude.{
  ℕ, Bool, true, false, Option, none, some, List, [], ◌∷◌, ◌++◌, Text, Unicode, codes, contains,
  starts_with, strip_by, drop, Dict, lookup, take, ◌>>=◌, ◌==◌, if◌then◌else◌,
}
use wapsell_saas.Prelude.Values.{Value, null, text, Floated, number, rejected, overflow}
use wapsell_saas.Resources.Defs.{Resource, ResourceRepo, list_for}

pub record Compare : Type 1 where
  pub unicode : Unicode
  pub Number : Type 0
  pub to_float : Value → Floated Number
  pub at_most : Number → Number → Bool
  pub same : Value → Value → Bool
  pub dumps : Dict Value → Text

abbrev pub or_null : Option Value → Value
or_null none = null
or_null (some v) = v

module _ (p : Compare) where
  -- `_as_number(data.get(key))`; the outer `none` is the OverflowError, which is not caught.
  unfoldable pub as_number : Option Value → Option (Option p.Number)
  as_number v = elim (p.to_float (or_null v)) [
    | number a ↦ some (some a)
    | rejected ↦ some none
    | overflow ↦ none
  ]

  -- `a <= float(value)`
  unfoldable pub below : p.Number → Value → Option Bool
  below a value = elim (p.to_float value) [ number b ↦ some (p.at_most a b) | _ ↦ none ]

  -- `a >= float(value)`
  unfoldable pub above : p.Number → Value → Option Bool
  above a value = elim (p.to_float value) [ number b ↦ some (p.at_most b a) | _ ↦ none ]

  unfoldable pub equal_to : Value → Value → Bool
  equal_to (text s) (text t) = p.unicode.lower s == p.unicode.lower t
  equal_to v w = p.same v w

  unfoldable pub matches_filter : Dict Value → Text → Value → Option Bool
  unfolding as_number below above equal_to
  matches_filter data' key value =
      if starts_with key (codes "max_")
      then (elim (as_number (lookup (drop 4 key) data')) [
        | none ↦ none
        | some none ↦ some true
        | some (some a) ↦ below a value
      ])
      else if starts_with key (codes "min_")
      then (elim (as_number (lookup (drop 4 key) data')) [
        | none ↦ none
        | some none ↦ some false
        | some (some a) ↦ above a value
      ])
      else some (equal_to (or_null (lookup key data')) value)

  unfoldable pub matches_filters : Dict Value → Dict Value → Option Bool
  unfolding matches_filter
  matches_filters data' [] = some true
  matches_filters data' ((k, v) ∷ fs) =
      let rest = matches_filters data' fs in
      do here ← matches_filter data' k v; elim here [ true ↦ rest | false ↦ some false ]

  unfoldable pub needle_of : Option Text → Text
  unfolding strip_by
  needle_of none = strip_by p.unicode.is_space (p.unicode.lower [])
  needle_of (some q) = strip_by p.unicode.is_space (p.unicode.lower q)

  unfoldable pub has_needle : Text → Resource → Bool
  unfolding contains
  has_needle [] r = true
  has_needle (c ∷ needle) r =
      contains (p.unicode.lower (r.summary ++ (codes " " ++ p.dumps r.data_))) (c ∷ needle)

  unfoldable pub matches : Dict Value → Text → Resource → Option Bool
  unfolding matches_filters has_needle
  matches filters needle r = do
    here ← matches_filters r.data_ filters
    elim here [ true ↦ some (has_needle needle r) | false ↦ some false ]

  -- `[r for r in candidates if matches(r)]`
  unfoldable pub all_matching : Dict Value → Text → List Resource → Option (List Resource)
  unfolding matches
  all_matching filters needle [] = some []
  all_matching filters needle (r ∷ rs) =
      let rest = all_matching filters needle rs in
      do here ← matches filters needle r; found ← rest; some (if here then r ∷ found else found)

  unfoldable pub search_items :
      Text → Dict Value → Option Text → Option Text → ℕ → ResourceRepo → Option (List Resource)
  unfolding list_for needle_of all_matching
  search_items tenant_id filters query_text kind limit d = do
    found ← all_matching filters (needle_of query_text) (list_for tenant_id kind 10000 d)
    some (take limit found)
