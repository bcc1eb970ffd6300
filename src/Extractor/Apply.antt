-- ===== src/Extractor/Apply.antt =====
-- `CrmExtractor._maybe_write_stage_activity` and `apply` of sdk/wapsell/crm/extractor.py.
use wapsell_saas.Prelude.{
  Bool, true, false, ◌&&◌, Option, none, some, [], ◌∷◌, ◌++◌, Text, codes, ◌==◌, lookup, Result, ok,
  err, if◌then◌else◌,
}
use wapsell_saas.Prelude.Values.{Value, null, boolean, text}
use wapsell_saas.Resources.{Resource, ResourceRepo, upsert}
use wapsell_saas.Crm.{activity_kind}
use wapsell_saas.Extractor.Parse.{StageTransition, ExtractionResult}
use wapsell_saas.Extractor.Contact.{Run, ApplyError, auto_source, patch_contact}
use wapsell_saas.Extractor.Todo.{write_tasks}

abbrev pub text_or_null : Option Text → Value
text_or_null none = null
text_or_null (some t) = text t

module _ (r : Run) where
  abbrev pub stage_summary : StageTransition → Text
  stage_summary s = elim s.from_stage [
    | none ↦ codes "Stage → " ++ s.to_stage
    | some [] ↦ codes "Stage → " ++ s.to_stage
    | some (c ∷ from) ↦ codes "Stage " ++ ((c ∷ from) ++ (codes " → " ++ s.to_stage))
  ]

  unfoldable pub stage_activity : Text → Text → StageTransition → Resource
  stage_activity tenant_id contact_id s = record {
    id = r.stage_id;
    tenant_id = tenant_id;
    source_id = none;
    kind = activity_kind;
    external_id = some (codes "stage:" ++ (contact_id ++ (codes ":" ++ s.to_stage)));
    data_ =
        (codes "contact_id", text contact_id)
        ∷ (codes "type", text (codes "stage_transition"))
        ∷ (codes "from", text_or_null s.from_stage)
        ∷ (codes "to", text s.to_stage)
        ∷ (codes "reason", text_or_null s.reason)
        ∷ (codes "source", text auto_source)
        ∷ (codes "auto", boolean true)
        ∷ (codes "at", text (r.isoformat r.now))
        ∷ [];
    summary = stage_summary s;
    status = codes "active";
    created_at = r.now;
    updated_at = r.now;
  }

  unfoldable pub write_stage_activity :
      Text → Text → Option StageTransition → ResourceRepo → ResourceRepo
  unfolding stage_activity upsert
  write_stage_activity tenant_id contact_id none d = d
  write_stage_activity tenant_id contact_id (some s) d =
      (upsert (stage_activity tenant_id contact_id s) d).1

  abbrev pub is_empty_result : ExtractionResult → Bool
  is_empty_result x =
      elim x.contact_updates [ [] ↦ true | u ∷ us ↦ false ]
      && (elim x.new_tasks [ [] ↦ true | u ∷ us ↦ false ]
          && (elim x.new_tags [ [] ↦ true | u ∷ us ↦ false ]
              && elim x.stage_transition [ none ↦ true | some s ↦ false ]))

  -- The last two steps, where the first did not raise.
  abbrev pub then_write :
      Text
      → Text
      → ExtractionResult
      → Result ApplyError (Unit {0}) × ResourceRepo
      → Result ApplyError (Unit {0}) × ResourceRepo
  then_write tenant_id contact_id x (err e, d) = (err e, d)
  then_write tenant_id contact_id x (ok u, d) = (
    ok tt,
    write_stage_activity tenant_id contact_id x.stage_transition
        (write_tasks r tenant_id contact_id x.new_tasks d),
  )

  abbrev pub apply_to :
      Option Resource
      → Text
      → Text
      → ExtractionResult
      → ResourceRepo
      → Result ApplyError (Unit {0}) × ResourceRepo
  apply_to none tenant_id contact_id x d = (ok tt, d)
  apply_to (some contact) tenant_id contact_id x d =
      if contact.tenant_id == tenant_id
      then then_write tenant_id contact_id x (patch_contact r contact x d)
      else (ok tt, d)

  unfoldable pub apply :
      Text → Text → ExtractionResult → ResourceRepo → Result ApplyError (Unit {0}) × ResourceRepo
  unfolding patch_contact write_tasks write_stage_activity
  apply tenant_id contact_id x d =
      if is_empty_result x
      then (ok tt, d)
      else apply_to (lookup contact_id d) tenant_id contact_id x d
