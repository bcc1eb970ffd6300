-- ===== src/Extractor/Contact.antt =====
-- `CrmExtractor._patch_contact` of sdk/wapsell/crm/extractor.py. `Run` holds what a call of `apply`
-- takes from outside: `==` and `str` on JSON values, the Unicode database, the clock, and the
-- identifiers of new rows: one for the stage's activity, and one for each task.
use wapsell_saas.Prelude.{
  ℕ, Bool, true, false, ◌&&◌, ◌||◌, Option, none, some, List, [], ◌∷◌, ◌++◌, Text, Unicode, codes,
  ◌==◌, is_empty, strip_by, Dict, lookup, insert, Result, ok, err, if◌then◌else◌,
}
use wapsell_saas.Prelude.Values.{Value, null, text, array, object, to_list, from_list}
use wapsell_saas.Resources.{Resource, ResourceRepo, upsert}
use wapsell_saas.Extractor.Parse.{ExtractionResult}

pub record Run : Type 0 where
  pub unicode : Unicode
  pub same : Value → Value → Bool
  pub str_other : Value → Text
  pub isoformat : ℕ → Text
  pub now : ℕ
  pub task_id : ℕ → Text
  pub stage_id : Text

abbrev pub auto_source : Text
auto_source = codes "llm-extractor"

-- `set(tags)` raises on a list or an object.
pub data ApplyError : Type 0 where
  unhashable : ApplyError

abbrev pub is_protected : Text → Bool
is_protected k =
    k == codes "phone"
    || (k == codes "first_contact_at"
        || (k == codes "last_seen_at" || (k == codes "turn_count" || k == codes "source")))

abbrev pub or_null : Option Value → Value
or_null none = null
or_null (some v) = v

abbrev pub is_hashable : Value → Bool
is_hashable (array xs) = false
is_hashable (object m) = false
is_hashable v = true

abbrev pub all_hashable : List Value → Bool
all_hashable [] = true
all_hashable (v ∷ vs) = is_hashable v && all_hashable vs

-- `v == t` for a string `t`
abbrev pub equals_text : Value → Text → Bool
equals_text (text s) t = s == t
equals_text v t = false

abbrev pub has_tag : Text → List Value → Bool
has_tag t [] = false
has_tag t (v ∷ vs) = equals_text v t || has_tag t vs

-- `list(tags) if isinstance(tags, list) else []`
unfoldable pub tag_list : Option Value → List Value
unfolding to_list
tag_list (some (array xs)) = to_list xs
tag_list v = []

module _ (r : Run) where
  -- One round of the loop over `contact_updates`: the data, and whether it changed.
  unfoldable pub merge_update : Text → Value → Dict Value × Bool → Dict Value × Bool
  merge_update k v (d, changed) =
      if is_protected k || r.same (or_null (lookup k d)) v
      then (d, changed)
      else (insert k v d, true)

  unfoldable pub merge_updates : Dict Value → Dict Value × Bool → Dict Value × Bool
  unfolding merge_update
  merge_updates [] s = s
  merge_updates ((k, v) ∷ us) s = merge_updates us (merge_update k v s)

  unfoldable pub normalize_tag : Text → Text
  unfolding strip_by
  normalize_tag t = r.unicode.lower (strip_by r.unicode.is_space t)

  -- One round of the loop over `new_tags`: the list, and whether it changed.
  unfoldable pub merge_tag : Text → List Value × Bool → List Value × Bool
  unfolding normalize_tag
  merge_tag t (tags, changed) =
      let n = normalize_tag t in
      if is_empty n || has_tag n tags then (tags, changed) else (tags ++ text n ∷ [], true)

  unfoldable pub merge_tags : List Text → List Value × Bool → List Value × Bool
  unfolding merge_tag
  merge_tags [] s = s
  merge_tags (t ∷ ts) s = merge_tags ts (merge_tag t s)

  -- The tags of the data with the new ones, where there are new ones.
  unfoldable pub add_tags : List Text → Dict Value × Bool → Result ApplyError (Dict Value × Bool)
  unfolding merge_tags tag_list from_list
  add_tags [] s = ok s
  add_tags (t ∷ ts) (d, changed) =
      let tags = tag_list (lookup (codes "tags") d) in
      let (tags', changed') = merge_tags (t ∷ ts) (tags, changed) in
      if all_hashable tags
      then ok (insert (codes "tags") (array (from_list tags')) d, changed')
      else err unhashable

  -- The new data of the contact, and whether it changed.
  unfoldable pub patched_data :
      ExtractionResult → Dict Value → Result ApplyError (Dict Value × Bool)
  unfolding merge_updates add_tags
  patched_data x d = add_tags x.new_tags (merge_updates x.contact_updates (d, false))

  abbrev pub write_contact : Resource → Dict Value × Bool → ResourceRepo → ResourceRepo
  write_contact contact (data', changed) d =
      if changed then (upsert (record contact { data_ = data'; updated_at = r.now }) d).1 else d

  unfoldable pub patch_contact :
      Resource → ExtractionResult → ResourceRepo → Result ApplyError (Unit {0}) × ResourceRepo
  unfolding patched_data upsert
  patch_contact contact x d = elim (patched_data x contact.data_) [
    | err e ↦ (err e, d)
    | ok data' ↦ (ok tt, write_contact contact data' d)
  ]
