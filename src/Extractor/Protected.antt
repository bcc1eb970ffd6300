-- ===== src/Extractor/Protected.antt =====
-- What the language model cannot change in a contact.
use wapsell_saas.Prelude.{
  ℕ, ◌+◌, ◌≡◌, ◌≢◌, refl, sym, ap, subst, ◌∙◌, Bool, true, false, ◌||◌, Option, none, some, List,
  [], ◌∷◌, Text, codes, ◌==◌, eq_iff, Dict, lookup, insert, lookup-insert, lookup-insert_self,
  IsKeyed, lookup-key, Result, ok, err, arith, Bool-cases, ◌⊎◌, inl, inr, is_empty,
}
use wapsell_saas.Prelude.Values.{Value, array, from_list}
use wapsell_saas.Resources.{Resource, ResourceRepo, upsert}
use wapsell_saas.Extractor.Parse.{ExtractedTask, StageTransition, ExtractionResult}
use wapsell_saas.Extractor.Contact.{
  Run, ApplyError, is_protected, or_null, merge_update, merge_updates, merge_tags, add_tags,
  tag_list, patched_data, write_contact, patch_contact,
}
use wapsell_saas.Extractor.Todo.{
  task_title, task_dedup_key, mem_text, new_task, add_task, add_tasks, write_tasks,
}
use wapsell_saas.Extractor.Apply.{
  stage_activity, write_stage_activity, is_empty_result, then_write, apply_to, apply,
}

is_protected-eq : (j k : Text) → is_protected k ≡ true → is_protected j ≡ false → (j == k) ≡ false
is_protected-eq j k h n = elim (Bool-cases (j == k)) [
  | inr f ↦ f
  | inl t ↦ absurd (
      let e : j ≡ k = (eq_iff j k).0 t in
      let q : is_protected j ≡ true = ap is_protected e ∙ h in ground arith)
]

-- The fields of a contact that the recorder keeps.
abbrev pub IsOwned : Text → Type 0
IsOwned k =
    (k ≡ codes "phone")
    ⊎ (k ≡ codes "first_contact_at")
    ⊎ (k ≡ codes "last_seen_at")
    ⊎ (k ≡ codes "turn_count")
    ⊎ (k ≡ codes "source")

owned-is_protected : (k : Text) → IsOwned k → is_protected k ≡ true
unfolding ◌==◌
owned-is_protected k (inl e) = ap is_protected e
owned-is_protected k (inr (inl e)) = ap is_protected e
owned-is_protected k (inr (inr (inl e))) = ap is_protected e
owned-is_protected k (inr (inr (inr (inl e)))) = ap is_protected e
owned-is_protected k (inr (inr (inr (inr e)))) = ap is_protected e

not_tags : is_protected (codes "tags") ≡ false
unfolding ◌==◌
not_tags = refl

module _ (r : Run) where
  lookup-insert_protected :
      (j k : Text) (v : Value) (d : Dict Value)
      → is_protected k ≡ true
      → is_protected j ≡ false
      → lookup k (insert j v d) ≡ lookup k d
  lookup-insert_protected j k v d h n = lookup-insert j k v d ∙ rw (is_protected-eq j k h n) refl

  merge_update-protected :
      (k j : Text) (v : Value) (s : Dict Value × Bool)
      → is_protected k ≡ true
      → lookup k (merge_update r j v s).0 ≡ lookup k s.0
  unfolding merge_update
  merge_update-protected k j v (d, changed) h = elim (Bool-cases (is_protected j)) [
    | inl t ↦ rw t refl
    | inr f ↦ elim (Bool-cases (r.same (or_null (lookup j d)) v)) [
      | inl t ↦ rw (f, t) refl
      | inr g ↦ rw (f, g) (lookup-insert_protected j k v d h f)
    ]
  ]

  merge_updates-protected :
      (k : Text) (us : Dict Value) (s : Dict Value × Bool)
      → is_protected k ≡ true
      → lookup k (merge_updates r us s).0 ≡ lookup k s.0
  unfolding merge_updates
  merge_updates-protected k [] s h = refl
  merge_updates-protected k ((j, v) ∷ us) s h =
      merge_updates-protected k us (merge_update r j v s) h ∙ merge_update-protected k j v s h

  add_tags-protected :
      (k : Text) (ts : List Text) (s o : Dict Value × Bool)
      → is_protected k ≡ true
      → add_tags r ts s ≡ ok o
      → lookup k o.0 ≡ lookup k s.0
  unfolding add_tags
  add_tags-protected k [] s o h e = cc
  add_tags-protected k (t ∷ ts) (d, changed) o h e = ground (
    arith,
    lookup-insert_protected (codes "tags") k
        (array (from_list (merge_tags r (t ∷ ts) (tag_list (lookup (codes "tags") d), changed)).0))
        d h not_tags,
  )

  patched_data-protected :
      (k : Text) (x : ExtractionResult) (d : Dict Value) (o : Dict Value × Bool)
      → is_protected k ≡ true
      → patched_data r x d ≡ ok o
      → lookup k o.0 ≡ lookup k d
  unfolding patched_data
  patched_data-protected k x d o h e =
      add_tags-protected k x.new_tags (merge_updates r x.contact_updates (d, false)) o h e
      ∙ merge_updates-protected k x.contact_updates (d, false) h

  pub lookup-insert_other :
      (i j : Text) (e : Resource) (d : ResourceRepo) → j ≢ i → lookup i (insert j e d) ≡ lookup i d
  lookup-insert_other i j e d ne = ground (arith, eq_iff j i, lookup-insert j i e d)

  add_task-lookup :
      (t c i : Text) (n : ℕ) (x : ExtractedTask) (s : List Text × ResourceRepo)
      → r.task_id n ≢ i
      → lookup i (add_task r t c n x s).1 ≡ lookup i s.1
  unfolding add_task upsert new_task
  add_task-lookup t c i n x (keys, d) ne =
      elim (Bool-cases
        (is_empty (task_title r x) || mem_text (task_dedup_key r (task_title r x)) keys)) [
          | inl y ↦ rw y refl
          | inr y ↦ rw y (lookup-insert_other i (r.task_id n) _ d ne)
        ]

  pub add_tasks-lookup :
      (t c i : Text) (n : ℕ) (xs : List ExtractedTask) (s : List Text × ResourceRepo)
      → ((j : ℕ) → r.task_id j ≢ i)
      → lookup i (add_tasks r t c n xs s).1 ≡ lookup i s.1
  unfolding add_tasks
  add_tasks-lookup t c i n [] s ne = refl
  add_tasks-lookup t c i n (x ∷ xs) s ne =
      add_tasks-lookup t c i (n + 1) xs (add_task r t c n x s) ne
      ∙ add_task-lookup t c i n x s (ne n)

  pub write_stage_activity-lookup :
      (t c i : Text) (s : Option StageTransition) (d : ResourceRepo)
      → r.stage_id ≢ i
      → lookup i (write_stage_activity r t c s d) ≡ lookup i d
  unfolding write_stage_activity upsert stage_activity
  write_stage_activity-lookup t c i none d ne = refl
  write_stage_activity-lookup t c i (some s) d ne = lookup-insert_other i r.stage_id _ d ne

  -- The row stands for the same item, with the protected fields of the old one.
  abbrev pub IsUpdate : Resource → Resource → Type 0
  IsUpdate old new =
      (new.id ≡ old.id)
      × (new.tenant_id ≡ old.tenant_id)
      × (new.kind ≡ old.kind)
      × (new.external_id ≡ old.external_id)
      × (new.source_id ≡ old.source_id)
      × ((k : Text) → IsOwned k → lookup k new.data_ ≡ lookup k old.data_)

  abbrev pub Updated : Resource → ResourceRepo → Type 0
  Updated old d = (new : Resource) × (lookup old.id d ≡ some new) × IsUpdate old new

  pub unchanged : (c : Resource) (d : ResourceRepo) → lookup c.id d ≡ some c → Updated c d
  unchanged c d l = (c, l, (refl, refl, refl, refl, refl, λ k h. refl))

  write_contact-Updated :
      (c : Resource) (o : Dict Value × Bool) (d : ResourceRepo)
      → lookup c.id d ≡ some c
      → ((k : Text) → is_protected k ≡ true → lookup k o.0 ≡ lookup k c.data_)
      → Updated c (write_contact r c o d)
  unfolding upsert
  write_contact-Updated c (data', false) d l h = unchanged c d l
  write_contact-Updated c (data', true) d l h = (
    record c { data_ = data'; updated_at = r.now },
    lookup-insert_self c.id _ _,
    (refl, refl, refl, refl, refl, λ k z. h k (owned-is_protected k z)),
  )

  patch_contact-Updated :
      (c : Resource) (x : ExtractionResult) (d : ResourceRepo)
      → lookup c.id d ≡ some c
      → Updated c (patch_contact r c x d).1
  unfolding patch_contact
  patch_contact-Updated c x d l = go (patched_data r x c.data_) refl
    where
      go :
          (o : Result ApplyError (Dict Value × Bool))
          → patched_data r x c.data_ ≡ o
          → Updated c (patch_contact r c x d).1
      go (err e) q = rw (q, patch_contact) (unchanged c d l)
      go (ok o) q =
          rw (q, patch_contact)
            (write_contact-Updated c o d l (λ k h. patched_data-protected k x c.data_ o h q))

  then_write-Updated :
      (c : Resource) (t i : Text) (x : ExtractionResult)
      (o : Result ApplyError (Unit {0}) × ResourceRepo)
      → ((j : ℕ) → r.task_id j ≢ c.id)
      → r.stage_id ≢ c.id
      → Updated c o.1
      → Updated c (then_write r t i x o).1
  unfolding write_tasks
  then_write-Updated c t i x (err e, d) nt ns u = u
  then_write-Updated c t i x (ok z, d) nt ns (new, l, h) = (
    new,
    write_stage_activity-lookup t i c.id x.stage_transition _ ns
        ∙ (add_tasks-lookup t i c.id 0 x.new_tasks _ nt ∙ l),
    h,
  )

  -- Whatever the model extracted, the contact is still stored under its id, as the same item of the
  -- same tenant, and its phone, its source, its dates and its count of turns are as they were, if the
  -- identifiers of the new rows are not its own.
  pub apply-Updated :
      (tenant_id contact_id : Text) (x : ExtractionResult) (d : ResourceRepo) (c : Resource)
      → IsKeyed Resource.id d
      → lookup contact_id d ≡ some c
      → ((j : ℕ) → r.task_id j ≢ c.id)
      → r.stage_id ≢ c.id
      → Updated c (apply r tenant_id contact_id x d).1
  unfolding apply
  apply-Updated tenant_id contact_id x d c hd found nt ns =
      let same : c.id ≡ contact_id = lookup-key Resource.id contact_id d hd found in
      let l : lookup c.id d ≡ some c = ap (λ k. lookup k d) same ∙ found in
      let applied : Updated c (apply_to r (some c) tenant_id contact_id x d).1 =
        elim (Bool-cases (c.tenant_id == tenant_id)) [
          | inl y ↦
              rw y (
                then_write-Updated c tenant_id contact_id x _ nt ns (patch_contact-Updated c x d l))
          | inr y ↦ rw y (unchanged c d l)
        ] in
      elim (Bool-cases (is_empty_result r x)) [
        | inl y ↦ rw y (unchanged c d l)
        | inr y ↦
            rw y
              (subst (λ o. Updated c (apply_to r o tenant_id contact_id x d).1) (sym found) applied)
      ]
