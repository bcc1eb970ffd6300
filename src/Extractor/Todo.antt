-- ===== src/Extractor/Todo.antt =====
-- `CrmExtractor._write_tasks` of sdk/wapsell/crm/extractor.py.
use wapsell_saas.Prelude.{
  ℕ, ◌+◌, Bool, true, false, not, ◌&&◌, ◌||◌, Option, none, some, List, [], ◌∷◌, ◌++◌, Text, codes,
  ◌==◌, is_empty, strip_by, Dict, lookup, insert, take, map, filter, if◌then◌else◌,
}
use wapsell_saas.Prelude.Values.{Value, boolean, text}
use wapsell_saas.Resources.{Resource, ResourceRepo, upsert, list_for}
use wapsell_saas.Extractor.Parse.{ExtractedTask}
use wapsell_saas.Extractor.Contact.{Run, auto_source, or_null, equals_text}

abbrev pub task_kind : Text
task_kind = codes "task"

abbrev pub max_task_title_chars : ℕ
max_task_title_chars = 200

abbrev pub starts_with_space : (ℕ → Bool) → Text → Bool
starts_with_space p [] = false
starts_with_space p (c ∷ s) = p c

-- `re.sub(r"\s+", " ", s)`: a run of white space gives one space, at its last character.
unfoldable pub collapse_spaces : (ℕ → Bool) → Text → Text
collapse_spaces p [] = []
collapse_spaces p (c ∷ s) =
    let rest = collapse_spaces p s in
    if p c then (if starts_with_space p s then rest else 32 ∷ rest) else c ∷ rest

-- `if v: d[k] = v`
abbrev pub set_filled : Text → Option Text → Dict Value → Dict Value
set_filled k none d = d
set_filled k (some []) d = d
set_filled k (some (c ∷ t)) d = insert k (text (c ∷ t)) d

abbrev pub mem_text : Text → List Text → Bool
mem_text k [] = false
mem_text k (x ∷ xs) = x == k || mem_text k xs

module _ (r : Run) where
  unfoldable pub task_dedup_key : Text → Text
  unfolding strip_by collapse_spaces
  task_dedup_key title =
      collapse_spaces r.unicode.is_space (r.unicode.lower (strip_by r.unicode.is_space title))

  -- `str(d.get("title", ""))`
  unfoldable pub title_of : Resource → Text
  unfolding lookup
  title_of e = elim (lookup (codes "title") e.data_) [
    | none ↦ []
    | some v ↦ elim v [ text t ↦ t | w ↦ r.str_other w ]
  ]

  unfoldable pub is_open_task : Text → Resource → Bool
  unfolding lookup title_of
  is_open_task contact_id e =
      equals_text (or_null (lookup (codes "contact_id") e.data_)) contact_id
      && (equals_text (or_null (lookup (codes "status") e.data_)) (codes "open")
          && not (is_empty (title_of e)))

  unfoldable pub open_task_titles : Text → Text → ResourceRepo → List Text
  unfolding list_for is_open_task title_of task_dedup_key
  open_task_titles tenant_id contact_id d =
      map (λ e. task_dedup_key (title_of e))
        (filter (is_open_task contact_id) (list_for tenant_id (some task_kind) 1000 d))

  unfoldable pub task_title : ExtractedTask → Text
  unfolding strip_by
  task_title t = take max_task_title_chars (strip_by r.unicode.is_space t.title)

  unfoldable pub new_task : Text → Text → ℕ → ExtractedTask → Resource
  unfolding task_title task_dedup_key
  new_task tenant_id contact_id i t = record {
    id = r.task_id i;
    tenant_id = tenant_id;
    source_id = none;
    kind = task_kind;
    external_id =
        some (codes "task:" ++ (contact_id ++ (codes ":" ++ task_dedup_key (task_title t))));
    data_ = set_filled (codes "priority") t.priority (
        set_filled (codes "due_at") t.due_at (
          (codes "contact_id", text contact_id)
          ∷ (codes "title", text (task_title t))
          ∷ (codes "status", text (codes "open"))
          ∷ (codes "source", text auto_source)
          ∷ (codes "auto", boolean true)
          ∷ []));
    summary = take max_task_title_chars (task_title t);
    status = codes "active";
    created_at = r.now;
    updated_at = r.now;
  }

  -- One round of the loop, with the keys that are taken.
  unfoldable pub add_task :
      Text → Text → ℕ → ExtractedTask → List Text × ResourceRepo → List Text × ResourceRepo
  unfolding new_task upsert
  add_task tenant_id contact_id i t (keys, d) =
      let key = task_dedup_key (task_title t) in
      if is_empty (task_title t) || mem_text key keys
      then (keys, d)
      else (key ∷ keys, (upsert (new_task tenant_id contact_id i t) d).1)

  -- The loop over the tasks, from the `i`-th.
  unfoldable pub add_tasks :
      Text → Text → ℕ → List ExtractedTask → List Text × ResourceRepo → List Text × ResourceRepo
  unfolding add_task
  add_tasks tenant_id contact_id i [] s = s
  add_tasks tenant_id contact_id i (t ∷ ts) s =
      add_tasks tenant_id contact_id (i + 1) ts (add_task tenant_id contact_id i t s)

  unfoldable pub write_tasks : Text → Text → List ExtractedTask → ResourceRepo → ResourceRepo
  unfolding add_tasks open_task_titles
  write_tasks tenant_id contact_id tasks d =
      (add_tasks tenant_id contact_id 0 tasks (open_task_titles tenant_id contact_id d, d)).1
