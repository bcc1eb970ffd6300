-- ===== src/Extractor/Tests.antt =====
-- An extraction with a task and a stage, for a contact whose phone the model also wants to change.
use wapsell_saas.Prelude.{
  ℕ, ◌≤◌, ◌≡◌, ◌≢◌, refl, arith, ok, true, false, none, some, [], ◌∷◌, codes, ◌==◌, nat_eq, IsKeyed,
  lookup, insert, values, filter, length,
}
use wapsell_saas.Prelude.Values.{Value, text, object, member, no_members}
use wapsell_saas.Resources.{Resource, ResourceRepo, find_by_external_id}
use wapsell_saas.Extractor.Parse.{Reader, ExtractedTask, StageTransition, ExtractionResult}
use wapsell_saas.Extractor.Contact.{Run, patch_contact}
use wapsell_saas.Extractor.Todo.{write_tasks}
use wapsell_saas.Extractor.Apply.{apply}
use wapsell_saas.Memory.{BuyerMemory, buyer}
use wapsell_saas.Crm.{contact_kind, contact_external_id}
use wapsell_saas.Extractor.Dispatch.{Interruption, run_crm_extractor}
use wapsell_saas.Extractor.Protected.{Updated}
use wapsell_saas.Extractor.Enriched.{run_crm_extractor-Updated}
use wapsell_saas.Extractor.Titles.{is_row}
use wapsell_saas.Extractor.Tasks.{write_tasks-write_tasks}
use wapsell_saas.Extractor.Stages.{apply_stage_twice}

abbrev run : Run
run = record {
  unicode = record { lower = λ s. s; is_space = λ c. nat_eq c 32 };
  same = λ v w. false;
  str_other = λ v. [];
  isoformat = λ n. codes "2026";
  now = 5;
  task_id = λ i. 110 ∷ i ∷ [];
  stage_id = codes "s1";
}

abbrev later_run : Run
later_run = record run { now = 9; stage_id = codes "s2" }

abbrev contact : Resource
contact = record {
  id = codes "c1";
  tenant_id = codes "t1";
  source_id = none;
  kind = codes "contact";
  external_id = some (codes "buyer:549");
  data_ = (codes "phone", text (codes "549")) ∷ [];
  summary = codes "Ana";
  status = codes "active";
  created_at = 1;
  updated_at = 1;
}

abbrev store : ResourceRepo
store = (codes "c1", contact) ∷ []

abbrev call_back : ExtractedTask
call_back = record {
  title = codes "Llamar el martes";
  due_at = none;
  priority = some (codes "high");
}

abbrev closing : StageTransition
closing = record { from_stage = none; to_stage = codes "closed_won"; reason = none }

abbrev extraction : ExtractionResult
extraction = record {
  contact_updates =
      (codes "phone", text (codes "000")) ∷ (codes "email", text (codes "a@b.c")) ∷ [];
  new_tasks = call_back ∷ [];
  new_tags = codes "Cuotas" ∷ [];
  stage_transition = some closing;
}

store-IsKeyed : IsKeyed Resource.id store
unfolding lookup
store-IsKeyed = (refl, refl, tt)

stored : lookup (codes "c1") store ≡ some contact
unfolding lookup ◌==◌
stored = refl

task_id_other : (j : ℕ) → run.task_id j ≢ codes "c1"
task_id_other j e = ground arith

stage_id_other : run.stage_id ≢ codes "c1"
stage_id_other e = ground arith

-- A reply that would change the phone
abbrev reply : Value
reply = object (
    member (codes "contact_updates")
      (object (member (codes "phone") (text (codes "000")) no_members)) no_members)

abbrev reader : Reader
reader = record { is_space = λ c. nat_eq c 32; loads = λ t. some reply; json_object = λ t. none }

abbrev memory : BuyerMemory
memory = record {
  max_items = 50;
  dialectic_depth = 3;
  store =
      (codes "tienda:549", record { text = codes "hola"; role = buyer; at = 1; metadata = [] } ∷ [])
      ∷ [];
}

abbrev calm : Interruption
calm = record { resolve_fault = none; recall_fault = none; extract_fault = none }

found_contact :
    find_by_external_id (codes "t1") contact_kind (contact_external_id (codes "549")) store
    ≡ some contact
unfolding find_by_external_id contact_external_id ◌==◌
found_contact = refl

run_crm_extractor-Updated_example : Updated run contact (
    run_crm_extractor run reader
      (codes "prompt")
      (λ ms. ok (codes "{}"))
      true
      calm
      (codes "t1")
      (codes "tienda:549")
      (codes "549")
      memory
      store)
run_crm_extractor-Updated_example =
    run_crm_extractor-Updated run reader (codes "prompt") (λ ms. ok (codes "{}")) contact store true
      calm (codes "t1") (codes "tienda:549") (codes "549") memory store-IsKeyed found_contact
      task_id_other stage_id_other

task_id-injective : (i j : ℕ) → run.task_id i ≡ run.task_id j → i ≡ j
task_id-injective i j e = cc

task_id-free : (j : ℕ) → lookup (run.task_id j) store ≡ none
unfolding lookup ◌==◌
task_id-free j = refl

one_task :
    length (
      filter
        (is_row (codes "t1"))
        (values (write_tasks run (codes "t1") (codes "c1") (call_back ∷ []) store)))
    ≡ 1
unfolding write_tasks ◌==◌ insert
one_task = refl

few :
    length (
      filter
        (is_row (codes "t1"))
        (values (write_tasks run (codes "t1") (codes "c1") (call_back ∷ []) store)))
    ≤ 1000
few = omega (arith, one_task)

write_tasks-write_tasks_example :
    write_tasks
      (record run { now = 9; task_id = λ i. 111 ∷ i ∷ [] })
      (codes "t1")
      (codes "c1")
      (call_back ∷ [])
      (write_tasks run (codes "t1") (codes "c1") (call_back ∷ []) store)
    ≡ write_tasks run (codes "t1") (codes "c1") (call_back ∷ []) store
write_tasks-write_tasks_example =
    write_tasks-write_tasks run 9 (λ i. 111 ∷ i ∷ []) (codes "t1") (codes "c1") (call_back ∷ [])
      store store-IsKeyed task_id-injective task_id-free few

other_stage : run.stage_id ≢ later_run.stage_id
other_stage e = ground arith

other_task_id : (n : ℕ) → later_run.task_id n ≢ run.stage_id
other_task_id n e = ground arith

applied_once : (apply run (codes "t1") (codes "c1") extraction store).0 ≡ ok tt
unfolding apply patch_contact ◌==◌ lookup insert
applied_once = refl

applied_twice :
    (apply later_run
      (codes "t1")
      (codes "c1")
      extraction
      (apply run (codes "t1") (codes "c1") extraction store).1).0
    ≡ ok tt
unfolding apply patch_contact ◌==◌ lookup insert
applied_twice = refl

apply_stage_twice_example :
    let d' =
      (apply later_run
        (codes "t1")
        (codes "c1")
        extraction
        (apply run (codes "t1") (codes "c1") extraction store).1).1 in
    (a : Resource) × (b : Resource) × (lookup (codes "s1") d' ≡ some a)
    × (lookup (codes "s2") d' ≡ some b)
    × (a.tenant_id ≡ codes "t1")
    × (b.tenant_id ≡ codes "t1")
    × (a.kind ≡ codes "activity")
    × (b.kind ≡ codes "activity")
    × (a.external_id ≡ some (codes "stage:c1:closed_won"))
    × (b.external_id ≡ some (codes "stage:c1:closed_won"))
apply_stage_twice_example =
    apply_stage_twice run later_run (codes "t1") (codes "c1") extraction extraction closing store
      contact store-IsKeyed stored refl refl refl refl other_stage stage_id_other task_id_other
      other_task_id applied_once applied_twice
