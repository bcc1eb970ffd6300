-- ===== src/Extractor/Stages.antt =====
-- Applying the same stage transition again.
use wapsell_saas.Prelude.{
  ℕ, ◌≡◌, ◌≢◌, refl, sym, ap, ◌∙◌, Bool, true, false, none, some, ◌++◌, Text, codes, ◌==◌, eq_iff,
  Dict, lookup, insert, lookup-insert_self, lookup-key, IsKeyed, Result, ok, err, arith,
  Option-cases, inl, inr,
}
use wapsell_saas.Prelude.Values.{Value}
use wapsell_saas.Resources.{Resource, ResourceRepo, upsert, dedup}
use wapsell_saas.Extractor.Parse.{StageTransition, ExtractionResult}
use wapsell_saas.Extractor.Contact.{Run, ApplyError, patched_data, write_contact, patch_contact}
use wapsell_saas.Extractor.Todo.{write_tasks}
use wapsell_saas.Extractor.Apply.{
  stage_activity, write_stage_activity, is_empty_result, then_write, apply,
}
use wapsell_saas.Extractor.Protected.{
  lookup-insert_other, add_tasks-lookup, write_stage_activity-lookup, apply-Updated,
}

-- A row with no source replaces none.
upsert_plain :
    (e : Resource) (d : ResourceRepo) → e.source_id ≡ none → upsert e d ≡ (e, insert e.id e d)
unfolding upsert dedup
upsert_plain e d h = elim (Option-cases e.external_id) [
  | inl n ↦ ground arith
  | inr (x, y) ↦ ground arith
]

module _ (r : Run) where
  write_contact-lookup :
      (c : Resource) (i : Text) (o : Dict Value × Bool) (d : ResourceRepo)
      → c.source_id ≡ none
      → c.id ≢ i
      → lookup i (write_contact r c o d) ≡ lookup i d
  write_contact-lookup c i (data', false) d sn ne = refl
  write_contact-lookup c i (data', true) d sn ne =
      let row : Resource = record c { data_ = data'; updated_at = r.now } in
      ap (λ a. lookup i a.1) (upsert_plain row d sn) ∙ lookup-insert_other r i c.id row d ne

  patch_contact-lookup :
      (c : Resource) (x : ExtractionResult) (i : Text) (d : ResourceRepo)
      → c.source_id ≡ none
      → c.id ≢ i
      → lookup i (patch_contact r c x d).1 ≡ lookup i d
  unfolding patch_contact
  patch_contact-lookup c x i d sn ne = patched (patched_data r x c.data_) refl
    where
      patched :
          (o : Result ApplyError (Dict Value × Bool))
          → patched_data r x c.data_ ≡ o
          → lookup i (patch_contact r c x d).1 ≡ lookup i d
      patched (err e) q = rw (q, patch_contact) refl
      patched (ok o) q = rw (q, patch_contact) (write_contact-lookup c i o d sn ne)

  then_write-ok :
      (t i : Text) (x : ExtractionResult) (o : Result ApplyError (Unit {0}) × ResourceRepo)
      → (then_write r t i x o).0 ≡ ok tt
      → (then_write r t i x o).1
        ≡ write_stage_activity r t i x.stage_transition (write_tasks r t i x.new_tasks o.1)
  then_write-ok t i x (err e, d) h = cc
  then_write-ok t i x (ok u, d) h = refl

  -- The store after an application that does not raise, of a result with a stage.
  apply-ok :
      (t i : Text) (x : ExtractionResult) (s : StageTransition) (d : ResourceRepo) (c : Resource)
      → x.stage_transition ≡ some s
      → lookup i d ≡ some c
      → c.tenant_id ≡ t
      → (apply r t i x d).0 ≡ ok tt
      → (apply r t i x d).1
        ≡ write_stage_activity r t i
            (some s)
            (write_tasks r t i x.new_tasks (patch_contact r c x d).1)
  unfolding apply
  apply-ok t i x s d c es l et h =
      let z : elim x.stage_transition as (λ y. Bool) [ none ↦ true | some y ↦ false ] ≡ false =
        ap (λ o. elim o as (λ y. Bool) [ none ↦ true | some y ↦ false ]) es in
      let full : is_empty_result r x ≡ false = ground arith in
      let own : (c.tenant_id == t) ≡ true = (eq_iff c.tenant_id t).1 et in
      let e : apply r t i x d ≡ then_write r t i x (patch_contact r c x d) =
        rw (full, l, own) refl in
      let q : (then_write r t i x (patch_contact r c x d)).0 ≡ ok tt = ap (λ a. a.0) (sym e) ∙ h in
      ap (λ a. a.1) e
      ∙ (then_write-ok t i x (patch_contact r c x d) q
          ∙ ap
              (λ o.
                write_stage_activity r t i o
                  (write_tasks r t i x.new_tasks (patch_contact r c x d).1))
              es)

  apply-stored :
      (t i : Text) (x : ExtractionResult) (s : StageTransition) (d : ResourceRepo) (c : Resource)
      → x.stage_transition ≡ some s
      → lookup i d ≡ some c
      → c.tenant_id ≡ t
      → (apply r t i x d).0 ≡ ok tt
      → lookup r.stage_id (apply r t i x d).1 ≡ some (stage_activity r t i s)
  unfolding write_stage_activity upsert stage_activity
  apply-stored t i x s d c es l et h =
      ap (lookup r.stage_id) (apply-ok t i x s d c es l et h) ∙ lookup-insert_self r.stage_id _ _

  apply-lookup :
      (t i j : Text) (x : ExtractionResult) (s : StageTransition) (d : ResourceRepo) (c : Resource)
      → x.stage_transition ≡ some s
      → lookup i d ≡ some c
      → c.tenant_id ≡ t
      → (apply r t i x d).0 ≡ ok tt
      → r.stage_id ≢ j
      → ((n : ℕ) → r.task_id n ≢ j)
      → c.source_id ≡ none
      → c.id ≢ j
      → lookup j (apply r t i x d).1 ≡ lookup j d
  unfolding write_tasks
  apply-lookup t i j x s d c es l et h ns nt sn nc =
      ap (lookup j) (apply-ok t i x s d c es l et h)
      ∙ (write_stage_activity-lookup r t i j (some s) _ ns
          ∙ (add_tasks-lookup r t i j 0 x.new_tasks _ nt ∙ patch_contact-lookup c x j d sn nc))

-- With the rows stored under their ids, two applications, one after the other, of results that report the same stage transition of a
-- stored contact of the tenant, one with no data source, neither of which raises, leave two activities, of one tenant, kind
-- and external id: the two rows whose identifiers the applications drew, if these differ and are no
-- identifiers of the contact or of the second's tasks.
pub apply_stage_twice :
    (r r' : Run) (tenant_id contact_id : Text) (x x' : ExtractionResult) (s : StageTransition)
    (d : ResourceRepo) (c : Resource)
    → IsKeyed Resource.id d
    → lookup contact_id d ≡ some c
    → c.tenant_id ≡ tenant_id
    → c.source_id ≡ none
    → x.stage_transition ≡ some s
    → x'.stage_transition ≡ some s
    → r.stage_id ≢ r'.stage_id
    → r.stage_id ≢ c.id
    → ((n : ℕ) → r.task_id n ≢ c.id)
    → ((n : ℕ) → r'.task_id n ≢ r.stage_id)
    → (apply r tenant_id contact_id x d).0 ≡ ok tt
    → (apply r' tenant_id contact_id x' (apply r tenant_id contact_id x d).1).0 ≡ ok tt
    → let d' = (apply r' tenant_id contact_id x' (apply r tenant_id contact_id x d).1).1 in
      let external_id = codes "stage:" ++ (contact_id ++ (codes ":" ++ s.to_stage)) in
      (a : Resource) × (b : Resource) × (lookup r.stage_id d' ≡ some a)
      × (lookup r'.stage_id d' ≡ some b)
      × (a.tenant_id ≡ tenant_id)
      × (b.tenant_id ≡ tenant_id)
      × (a.kind ≡ codes "activity")
      × (b.kind ≡ codes "activity")
      × (a.external_id ≡ some external_id)
      × (b.external_id ≡ some external_id)
apply_stage_twice r r' t i x x' s d c hd l et sn es es' ne nc nt nt' h h' =
    let d1 : ResourceRepo = (apply r t i x d).1 in
    let same : c.id ≡ i = lookup-key Resource.id i d {v = c} hd l in
    let (c', l', (ei, et', ek, ex, en, rest)) = apply-Updated r t i x d c hd l nt nc in
    let k : lookup i d1 ≡ some c' = ap (λ j. lookup j d1) (sym same) ∙ l' in
    let own : c'.tenant_id ≡ t = et' ∙ et in
    (
      stage_activity r t i s,
      stage_activity r' t i s,
      apply-lookup r' t i r.stage_id x' s d1 c' es' k own h' (λ q. ne (sym q)) nt' (en ∙ sn)
            (λ q. nc (sym (sym ei ∙ q)))
          ∙ apply-stored r t i x s d c es l et h,
      apply-stored r' t i x' s d1 c' es' k own h',
      unfold stage_activity in refl,
      unfold stage_activity in refl,
      unfold stage_activity in refl,
      unfold stage_activity in refl,
      unfold stage_activity in refl,
      unfold stage_activity in refl,
    )
