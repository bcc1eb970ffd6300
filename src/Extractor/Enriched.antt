-- ===== src/Extractor/Enriched.antt =====
-- What a run of the extractor leaves of the contact.
use wapsell_saas.Prelude.{
  ℕ, ◌≡◌, ◌≢◌, sym, subst, Bool, true, false, Option, none, some, List, [], ◌∷◌, Text, lookup,
  IsKeyed, find-lookup, Bool-cases, inl, inr, Result, if◌then◌else◌,
}
use wapsell_saas.Resources.{Resource, ResourceRepo, has_external, find_by_external_id}
use wapsell_saas.Memory.{BuyerMemory, recall}
use wapsell_saas.Crm.{contact_kind, contact_external_id}
use wapsell_saas.Agent.{LlmMessage}
use wapsell_saas.Extractor.Parse.{Reader, ConversationTurn, ExtractionResult, extract}
use wapsell_saas.Extractor.Contact.{Run}
use wapsell_saas.Extractor.Apply.{is_empty_result}
use wapsell_saas.Extractor.Dispatch.{
  Interruption, turns_of, apply_result, extract_turns, recall_turns, run_crm_extractor,
}
use wapsell_saas.Extractor.Protected.{Updated, unchanged, apply-Updated}

module _ (run : Run) (reader : Reader) (prompt : Text)
    (complete : List LlmMessage → Result Text Text) (c : Resource) (d : ResourceRepo) where
  apply_result-Updated :
      (t : Text) (x : ExtractionResult)
      → IsKeyed Resource.id d
      → lookup c.id d ≡ some c
      → ((j : ℕ) → run.task_id j ≢ c.id)
      → run.stage_id ≢ c.id
      → Updated run c (apply_result run reader prompt complete t c x d)
  apply_result-Updated t x h l nt ns = elim (Bool-cases (is_empty_result run x)) [
    | inl e ↦ rw e (unchanged run c d l)
    | inr e ↦ rw e (apply-Updated run t c.id x d c h l nt ns)
  ]

  extract_turns-Updated :
      (fault : Option Text) (t : Text) (turns : List ConversationTurn)
      → IsKeyed Resource.id d
      → lookup c.id d ≡ some c
      → ((j : ℕ) → run.task_id j ≢ c.id)
      → run.stage_id ≢ c.id
      → Updated run c (extract_turns run reader prompt complete fault t c turns d)
  extract_turns-Updated fault t [] h l nt ns = unchanged run c d l
  extract_turns-Updated (some e) t (x ∷ xs) h l nt ns = unchanged run c d l
  extract_turns-Updated none t (x ∷ xs) h l nt ns =
      apply_result-Updated t (extract reader prompt complete (x ∷ xs)) h l nt ns

  -- Whatever the model replies, and whichever step of the run fails, the buyer's contact is still
  -- stored under its id, as the same item of the same tenant, and its phone, its source, its dates
  -- and its count of turns are as they were, if the identifiers of the new rows are not its own.
  pub run_crm_extractor-Updated :
      (enabled : Bool) (o : Interruption) (tenant_id buyer_id from_number : Text) (m : BuyerMemory)
      → IsKeyed Resource.id d
      → find_by_external_id tenant_id contact_kind (contact_external_id from_number) d ≡ some c
      → ((j : ℕ) → run.task_id j ≢ c.id)
      → run.stage_id ≢ c.id
      → Updated run c (
          run_crm_extractor run reader prompt complete enabled o tenant_id buyer_id from_number m d)
  unfolding run_crm_extractor
  run_crm_extractor-Updated enabled o t buyer_id number m h found nt ns =
      if_enabled enabled o.resolve_fault
    where
      l : lookup c.id d ≡ some c
      l =
          unfold find_by_external_id in
          find-lookup Resource.id (has_external t contact_kind (contact_external_id number)) d h
            found

      recalled :
          (fault : Option Text)
          → Updated run c (elim fault [
            | some e ↦ d
            | none ↦
                extract_turns run reader prompt complete o.extract_fault t c
                  (turns_of (recall buyer_id (some 40) m))
                  d
          ])
      recalled (some e) = unchanged run c d l
      recalled none =
          extract_turns-Updated o.extract_fault t (turns_of (recall buyer_id (some 40) m)) h l nt ns

      after : Option Resource → ResourceRepo
      after x = recall_turns run reader prompt complete o t buyer_id m x d

      if_enabled :
          (b : Bool) (fault : Option Text)
          → Updated run c (
              if b
              then elim fault [
                | some e ↦ d
                | none ↦ after (find_by_external_id t contact_kind (contact_external_id number) d)
              ]
              else d)
      if_enabled false fault = unchanged run c d l
      if_enabled true (some e) = unchanged run c d l
      if_enabled true none =
          subst (λ x. Updated run c (after x)) (sym found) (recalled o.recall_fault)
