-- ===== src/Extractor/Rows.antt =====
-- The row of a new task.
use wapsell_saas.Prelude.{
  ℕ, ◌≡◌, inl, inr, refl, sym, ap, subst, ◌∙◌, true, false, ◌&&◌, Option, none, some, [], ◌∷◌, Text,
  codes, ◌==◌, eq_iff, eq_refl, Dict, lookup, insert, lookup-insert, lookup-insert_self, Bool-cases,
  is_empty,
}
use wapsell_saas.Prelude.Values.{Value, text, boolean}
use wapsell_saas.Resources.{Resource, ResourceRepo}
use wapsell_saas.Extractor.Parse.{ExtractedTask}
use wapsell_saas.Extractor.Contact.{Run, auto_source}
use wapsell_saas.Extractor.Todo.{
  set_filled, task_dedup_key, title_of, is_open_task, task_title, new_task,
}
use wapsell_saas.Extractor.Titles.{is_row, has_key, HasRow}

module _ (r : Run) (tenant_id contact_id : Text) where
  pub insert-HasRow :
      (k i : Text) (e : Resource) (d : ResourceRepo)
      → lookup i d ≡ none
      → HasRow r tenant_id contact_id k d
      → HasRow r tenant_id contact_id k (insert i e d)
  insert-HasRow k i e d free (j, x, l, t) =
      let ne : (i == j) ≡ false = elim (Bool-cases (i == j)) [
        | inr f ↦ f
        | inl y ↦
            let same : i ≡ j = (eq_iff i j).0 y in
            let q : lookup j d ≡ none = ap (λ z. lookup z d) (sym same) ∙ free in absurd (cc (q, l))
      ] in
      (j, x, lookup-insert i j e d ∙ rw ne l, t)

  open_fields :
      (e : Resource) (t : Text)
      → lookup (codes "contact_id") e.data_ ≡ some (text contact_id)
      → lookup (codes "status") e.data_ ≡ some (text (codes "open"))
      → title_of r e ≡ t
      → is_empty t ≡ false
      → is_open_task r contact_id e ≡ true
  unfolding is_open_task ◌==◌
  open_fields e t a b c n = rw (a, b, c, n, eq_refl) refl

  lookup-set_filled :
      (k j : Text) (o : Option Text) (d : Dict Value)
      → (j == k) ≡ false
      → lookup k (set_filled j o d) ≡ lookup k d
  lookup-set_filled k j none d h = refl
  lookup-set_filled k j (some []) d h = refl
  lookup-set_filled k j (some (c ∷ t)) d h = lookup-insert j k (text (c ∷ t)) d ∙ rw h refl

  new_task-field :
      (n : ℕ) (x : ExtractedTask) (k : Text) (v : Value)
      → (codes "priority" == k) ≡ false
      → (codes "due_at" == k) ≡ false
      → lookup k (
          (codes "contact_id", text contact_id)
          ∷ (codes "title", text (task_title r x))
          ∷ (codes "status", text (codes "open"))
          ∷ (codes "source", text auto_source)
          ∷ (codes "auto", boolean true)
          ∷ [])
        ≡ some v
      → lookup k (new_task r tenant_id contact_id n x).data_ ≡ some v
  unfolding new_task
  new_task-field n x k v p q h =
      lookup-set_filled k (codes "priority") x.priority _ p
      ∙ (lookup-set_filled k (codes "due_at") x.due_at _ q ∙ h)

  pub title_of-new_task :
      (n : ℕ) (x : ExtractedTask)
      → title_of r (new_task r tenant_id contact_id n x) ≡ task_title r x
  unfolding title_of ◌==◌
  title_of-new_task n x =
      rw
        (
          new_task-field n x (codes "title") (text (task_title r x)) refl refl
              (unfold lookup in refl),
          title_of,
        )
        refl

  new_task-open :
      (n : ℕ) (x : ExtractedTask)
      → is_empty (task_title r x) ≡ false
      → is_open_task r contact_id (new_task r tenant_id contact_id n x) ≡ true
  unfolding lookup ◌==◌
  new_task-open n x h =
      open_fields (new_task r tenant_id contact_id n x) (task_title r x)
        (new_task-field n x (codes "contact_id") (text contact_id) refl refl refl)
        (new_task-field n x (codes "status") (text (codes "open")) refl refl refl)
        (title_of-new_task n x) h

  new_task-is_row :
      (n : ℕ) (x : ExtractedTask) → is_row tenant_id (new_task r tenant_id contact_id n x) ≡ true
  unfolding new_task ◌==◌
  new_task-is_row n x = rw eq_refl refl

  pub new_task-row :
      (n : ℕ) (x : ExtractedTask)
      → is_empty (task_title r x) ≡ false
      → (is_row tenant_id (new_task r tenant_id contact_id n x)
          && has_key r tenant_id contact_id
              (task_dedup_key r (task_title r x))
              (new_task r tenant_id contact_id n x))
        ≡ true
  new_task-row n x h =
      rw (new_task-is_row n x, new_task-open n x h, title_of-new_task n x, eq_refl) refl

  pub new_task-HasRow :
      (n : ℕ) (x : ExtractedTask) (d : ResourceRepo) (k : Text)
      → is_empty (task_title r x) ≡ false
      → task_dedup_key r (task_title r x) ≡ k
      → HasRow r tenant_id contact_id k
          (insert (r.task_id n) (new_task r tenant_id contact_id n x) d)
  new_task-HasRow n x d k h e =
      subst
        (λ z.
          HasRow r tenant_id contact_id z
            (insert (r.task_id n) (new_task r tenant_id contact_id n x) d))
        e
        (
          r.task_id n,
          new_task r tenant_id contact_id n x,
          lookup-insert_self (r.task_id n) _ d,
          new_task-row n x h,
        )
