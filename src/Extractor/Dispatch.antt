-- ===== src/Extractor/Dispatch.antt =====
-- `_run_crm_extractor` of services/api/main.py. `Interruption` holds the messages of the exceptions
-- of the guarded calls before `apply`, where they raise. The instants of the turns, which the
-- transcript does not use, are left out, and so is a store that raises within `apply`.
use wapsell_saas.Prelude.{
  Bool, not, Option, none, some, List, [], ◌∷◌, Text, is_empty, map, filter, Result, if◌then◌else◌,
}
use wapsell_saas.Resources.{Resource, ResourceRepo, find_by_external_id}
use wapsell_saas.Memory.{BuyerInteraction, BuyerMemory, role_name, recall}
use wapsell_saas.Crm.{contact_kind, contact_external_id}
use wapsell_saas.Agent.{LlmMessage}
use wapsell_saas.Extractor.Parse.{Reader, ConversationTurn, ExtractionResult, extract}
use wapsell_saas.Extractor.Contact.{Run}
use wapsell_saas.Extractor.Apply.{is_empty_result, apply}

pub record Interruption : Type 0 where
  pub resolve_fault : Option Text
  pub recall_fault : Option Text
  pub extract_fault : Option Text

abbrev pub turns_of : List BuyerInteraction → List ConversationTurn
turns_of recent =
    map (λ i. record { role = role_name i.role; text = i.text })
      (filter (λ i. not (is_empty i.text)) recent)

module _ (run : Run) (reader : Reader) (system_prompt : Text)
    (complete : List LlmMessage → Result Text Text) where
  abbrev pub apply_result : Text → Resource → ExtractionResult → ResourceRepo → ResourceRepo
  apply_result tenant_id contact x d =
      if is_empty_result run x then d else (apply run tenant_id contact.id x d).1

  abbrev pub extract_turns :
      Option Text → Text → Resource → List ConversationTurn → ResourceRepo → ResourceRepo
  extract_turns fault tenant_id contact [] d = d
  extract_turns (some e) tenant_id contact (t ∷ ts) d = d
  extract_turns none tenant_id contact (t ∷ ts) d =
      apply_result tenant_id contact (extract reader system_prompt complete (t ∷ ts)) d

  abbrev pub recall_turns :
      Interruption → Text → Text → BuyerMemory → Option Resource → ResourceRepo → ResourceRepo
  recall_turns o tenant_id buyer_id m none d = d
  recall_turns o tenant_id buyer_id m (some contact) d = elim o.recall_fault [
    | some e ↦ d
    | none ↦
        extract_turns o.extract_fault tenant_id contact (turns_of (recall buyer_id (some 40) m)) d
  ]

  -- `enabled` is whether there is an extractor.
  unfoldable pub run_crm_extractor :
      Bool → Interruption → Text → Text → Text → BuyerMemory → ResourceRepo → ResourceRepo
  unfolding find_by_external_id contact_external_id recall extract apply
  run_crm_extractor enabled o tenant_id buyer_id from_number m d =
      let after =
        recall_turns o tenant_id buyer_id m
          (find_by_external_id tenant_id contact_kind (contact_external_id from_number) d) d in
      if enabled then (elim o.resolve_fault [ some e ↦ d | none ↦ after ]) else d
