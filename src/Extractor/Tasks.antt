-- ===== src/Extractor/Tasks.antt =====
-- Writing the same tasks again.
use wapsell_saas.Prelude.{
  ℕ, ◌+◌, ◌≤◌, ◌≡◌, inl, inr, refl, sym, ap, subst, ◌∙◌, true, false, ◌||◌, none, List, [], ◌∷◌,
  Text, ◌==◌, eq_iff, eq_refl, lookup, insert, values, lookup-insert, IsKeyed, insert-IsKeyed,
  filter, length, All, arith, Bool-cases, is_empty,
}
use wapsell_saas.Resources.{Resource, ResourceRepo, upsert}
use wapsell_saas.Extractor.Parse.{ExtractedTask}
use wapsell_saas.Extractor.Contact.{Run}
use wapsell_saas.Extractor.Todo.{
  mem_text, task_dedup_key, title_of, is_open_task, open_task_titles, task_title, new_task,
  add_task, add_tasks, write_tasks,
}
use wapsell_saas.Extractor.Titles.{is_row, HasRow, HasRow→IsTaken, IsTaken→HasRow}
use wapsell_saas.Extractor.Rows.{insert-HasRow, new_task-HasRow}

module _ (r : Run) (tenant_id contact_id : Text) where
  -- The state of the loop: the rows under their ids, the free identifiers, and a row for each key.
  record IsSound (n : ℕ) (s : List Text × ResourceRepo) : Type 0 where
    keyed : IsKeyed Resource.id s.1
    free : (j : ℕ) → n ≤ j → lookup (r.task_id j) s.1 ≡ none
    backed : (k : Text) → mem_text k s.0 ≡ true → HasRow r tenant_id contact_id k s.1

  -- A task whose title is empty, or whose key is taken.
  abbrev IsDone : List Text → ExtractedTask → Type 0
  IsDone keys x =
      (is_empty (task_title r x) || mem_text (task_dedup_key r (task_title r x)) keys) ≡ true

  -- What a round keeps, and what it reaches.
  record Reached (n : ℕ) (x : ExtractedTask) (s s' : List Text × ResourceRepo) : Type 0 where
    sound : IsSound n s'
    kept : (k : Text) → mem_text k s.0 ≡ true → mem_text k s'.0 ≡ true
    done : IsDone s'.0 x

  add_task_kept :
      (n : ℕ) (x : ExtractedTask) (keys : List Text) (d : ResourceRepo)
      → IsDone keys x
      → add_task r tenant_id contact_id n x (keys, d) ≡ (keys, d)
  unfolding add_task
  add_task_kept n x keys d y = rw y refl

  add_task_new :
      (n : ℕ) (x : ExtractedTask) (keys : List Text) (d : ResourceRepo)
      → (is_empty (task_title r x) || mem_text (task_dedup_key r (task_title r x)) keys) ≡ false
      → add_task r tenant_id contact_id n x (keys, d) ≡ (
        task_dedup_key r (task_title r x) ∷ keys,
        insert (r.task_id n) (new_task r tenant_id contact_id n x) d,
      )
  unfolding add_task upsert new_task
  add_task_new n x keys d y = rw y refl

  fresh_after :
      ((i j : ℕ) → r.task_id i ≡ r.task_id j → i ≡ j)
      → (n j : ℕ) (e : Resource) (d : ResourceRepo) → n + 1 ≤ j
      → lookup (r.task_id j) d ≡ none
      → lookup (r.task_id j) (insert (r.task_id n) e d) ≡ none
  fresh_after inj n j e d le free =
      lookup-insert (r.task_id n) (r.task_id j) e d
      ∙ elim (Bool-cases (r.task_id n == r.task_id j)) [
        | inr f ↦ rw f free
        | inl y ↦
            absurd
              (let q : n ≡ j = inj n j ((eq_iff (r.task_id n) (r.task_id j)).0 y) in omega arith)
      ]

  add_task-Reached :
      ((i j : ℕ) → r.task_id i ≡ r.task_id j → i ≡ j)
      → (n : ℕ) (x : ExtractedTask) (s : List Text × ResourceRepo) → IsSound n s
      → Reached (n + 1) x s (add_task r tenant_id contact_id n x s)
  add_task-Reached inj n x (keys, d) h =
      elim (Bool-cases
        (is_empty (task_title r x) || mem_text (task_dedup_key r (task_title r x)) keys)) [
          | inl y ↦ subst (Reached (n + 1) x (keys, d)) (sym (add_task_kept n x keys d y)) (record {
            sound = record {
              keyed = h.keyed;
              free = λ j l. h.free j (omega arith);
              backed = h.backed;
            };
            kept = λ k m. m;
            done = y;
          })
          | inr y ↦
              let key : Text = task_dedup_key r (task_title r x) in
              let e : Resource = new_task r tenant_id contact_id n x in
              let filled : is_empty (task_title r x) ≡ false = ground arith in
              subst (Reached (n + 1) x (keys, d)) (sym (add_task_new n x keys d y)) (record {
                sound = record {
                  keyed =
                      insert-IsKeyed Resource.id (r.task_id n) e d (unfold new_task in refl)
                        h.keyed;
                  free = λ j l. fresh_after inj n j e d l (h.free j (omega arith));
                  backed = λ k m. elim (Bool-cases (key == k)) [
                    | inl z ↦
                        new_task-HasRow r tenant_id contact_id n x d k filled ((eq_iff key k).0 z)
                    | inr z ↦
                        insert-HasRow r tenant_id contact_id k (r.task_id n) e d
                          (h.free n (omega arith)) (h.backed k (ground arith))
                  ];
                };
                kept = λ k m. ground arith;
                done = rw eq_refl (ground arith);
              })
        ]

  IsDone-more :
      (keys keys' : List Text) (x : ExtractedTask)
      → ((k : Text) → mem_text k keys ≡ true → mem_text k keys' ≡ true)
      → IsDone keys x
      → IsDone keys' x
  IsDone-more keys keys' x h d = ground (arith, h (task_dedup_key r (task_title r x)))

  record Finished (xs : List ExtractedTask) (s s' : List Text × ResourceRepo) : Type 0 where
    backed : (k : Text) → mem_text k s'.0 ≡ true → HasRow r tenant_id contact_id k s'.1
    kept : (k : Text) → mem_text k s.0 ≡ true → mem_text k s'.0 ≡ true
    done : All (IsDone s'.0) xs

  add_tasks-Finished :
      ((i j : ℕ) → r.task_id i ≡ r.task_id j → i ≡ j)
      → (n : ℕ) (xs : List ExtractedTask) (s : List Text × ResourceRepo) → IsSound n s
      → Finished xs s (add_tasks r tenant_id contact_id n xs s)
  unfolding add_tasks
  add_tasks-Finished inj n [] s h = record { backed = h.backed; kept = λ k m. m; done = tt }
  add_tasks-Finished inj n (x ∷ xs) s h =
      let s' = add_task r tenant_id contact_id n x s in
      let one : Reached (n + 1) x s s' = add_task-Reached inj n x s h in
      let rest : Finished xs s' (add_tasks r tenant_id contact_id (n + 1) xs s') =
        add_tasks-Finished inj (n + 1) xs s' one.sound in
      record {
        backed = rest.backed;
        kept = λ k m. rest.kept k (one.kept k m);
        done = (IsDone-more s'.0 _ x rest.kept one.done, rest.done);
      }

  All-IsDone-more :
      (keys keys' : List Text) (xs : List ExtractedTask)
      → ((k : Text) → mem_text k keys ≡ true → mem_text k keys' ≡ true)
      → All (IsDone keys) xs
      → All (IsDone keys') xs
  All-IsDone-more keys keys' [] h d = tt
  All-IsDone-more keys keys' (x ∷ xs) h d =
      (IsDone-more keys keys' x h d.0, All-IsDone-more keys keys' xs h d.1)

  add_tasks_kept :
      (n : ℕ) (xs : List ExtractedTask) (keys : List Text) (d : ResourceRepo)
      → All (IsDone keys) xs
      → add_tasks r tenant_id contact_id n xs (keys, d) ≡ (keys, d)
  unfolding add_tasks
  add_tasks_kept n [] keys d h = refl
  add_tasks_kept n (x ∷ xs) keys d h =
      ap (add_tasks r tenant_id contact_id (n + 1) xs) (add_task_kept n x keys d h.0)
      ∙ add_tasks_kept (n + 1) xs keys d h.1

  -- After the tasks were written, each is done by the open tasks of the contact.
  write_tasks-IsDone :
      (xs : List ExtractedTask) (d : ResourceRepo)
      → IsKeyed Resource.id d
      → ((i j : ℕ) → r.task_id i ≡ r.task_id j → i ≡ j)
      → ((j : ℕ) → lookup (r.task_id j) d ≡ none)
      → let d' = write_tasks r tenant_id contact_id xs d in
        length (filter (is_row tenant_id) (values d')) ≤ 1000
        → All (IsDone (open_task_titles r tenant_id contact_id d')) xs
  unfolding write_tasks
  write_tasks-IsDone xs d h inj free small =
      let s : List Text × ResourceRepo = (open_task_titles r tenant_id contact_id d, d) in
      let f : Finished xs s (add_tasks r tenant_id contact_id 0 xs s) =
        add_tasks-Finished inj 0 xs s (record {
          keyed = h;
          free = λ j l. free j;
          backed = λ k m. IsTaken→HasRow r tenant_id contact_id k d h m;
        }) in
      All-IsDone-more (add_tasks r tenant_id contact_id 0 xs s).0 _ xs
        (λ k m.
          HasRow→IsTaken r tenant_id contact_id k (add_tasks r tenant_id contact_id 0 xs s).1 small
            (f.backed k m))
        f.done

-- Writing the same tasks again, at another time and with other identifiers for new rows, writes
-- nothing, if the first run drew distinct identifiers that were free, and the tenant then has no more
-- than 1000 active tasks, which is how many the extractor reads.
pub write_tasks-write_tasks :
    (r : Run) (later : ℕ) (other_id : ℕ → Text) (tenant_id contact_id : Text)
    (xs : List ExtractedTask) (d : ResourceRepo)
    → IsKeyed Resource.id d
    → ((i j : ℕ) → r.task_id i ≡ r.task_id j → i ≡ j)
    → ((j : ℕ) → lookup (r.task_id j) d ≡ none)
    → let d' = write_tasks r tenant_id contact_id xs d in
      length (filter (is_row tenant_id) (values d')) ≤ 1000
      → write_tasks (record r { now = later; task_id = other_id }) tenant_id contact_id xs d' ≡ d'
write_tasks-write_tasks r later other_id t c xs d h inj free small =
    let d' : ResourceRepo = write_tasks r t c xs d in
    let r' : Run = record r { now = later; task_id = other_id } in
    let keys : List Text = open_task_titles r' t c d' in
    let done : All (IsDone r' t c keys) xs =
      unfold task_title task_dedup_key open_task_titles is_open_task title_of in
      write_tasks-IsDone r t c xs d h inj free small in
    unfold write_tasks in ap (λ s. s.1) (add_tasks_kept r' t c 0 xs keys d' done)
