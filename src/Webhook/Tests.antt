-- ===== src/Webhook/Tests.antt =====
-- A message that asks for a human, where notice, gateway and CRM fail, and the next message.
use wapsell_saas.Prelude.{
  ℕ, ◌≡◌, ◌≢◌, refl, arith, true, false, none, some, [], ◌∷◌, Text, codes, contains, ◌==◌, err, ok,
}
use wapsell_saas.Models.{InboundMessage}
use wapsell_saas.Memory.{buyer, remember}
use wapsell_saas.Crm.{Python}
use wapsell_saas.Handoff.{HandoffDecision, evaluate, normalize}
use wapsell_saas.Agent.{AgentTurn, handoff_model, respond}
use wapsell_saas.Agent.Tests.{ports, tenant, config, memory}
use wapsell_saas.Webhook.Defs.{
  World, Circumstances, buyer_id_for, remember_inbound, silent, process_inbound_message,
}
use wapsell_saas.Webhook.Outcome.{
  turn_on, reply_of, process_inbound_message-silent, process_inbound_message-answers,
  handover-silences,
}

abbrev pub python : Python
python = record { isoformat = λ n. codes "2026"; to_int = λ v. none; is_space = λ c. false }

abbrev pub at : ℕ → Circumstances
at now = record {
  now = now;
  contact_new = codes "c1";
  inbound_new = codes "i1";
  outbound_new = codes "o1";
  remember_buyer_fault = none;
  crm_inbound_fault = some (codes "crm");
  pause_check_fault = none;
  notify_fault = some (codes "timeout");
  pause_fault = none;
  gateway = err (codes "131030");
  remember_agent_fault = none;
  crm_outbound_fault = none;
  extractor_stride = some 3;
  contact_lookup_fault = none;
  create_task_fault = none;
}

abbrev message : Text → InboundMessage
message t = record {
  tenant_id = codes "t1";
  from_number = codes "555";
  text = t;
  message_id = codes "m1";
  profile_name = none;
  received_at = 1;
}

abbrev pub world : World
world = record {
  memory = memory;
  resources = [];
  pauses = [];
  sent = [];
  notified = [];
  extractions = [];
}

abbrev paused : World
paused = record world {
  pauses = record { tenant_id = codes "t1"; buyer_id = codes "tienda:555"; paused_until = 9 } ∷ [];
}

open_thread : (t : Text) → silent ports python (at 5) tenant (message t) world ≡ false
unfolding silent
open_thread t = refl

closed_thread : silent ports python (at 5) tenant (message (codes "hola")) paused ≡ true
unfolding silent ◌==◌
closed_thread = refl

process_inbound_message-silent_example :
    let w' = process_inbound_message ports python (at 5) tenant (message (codes "hola")) paused in
    (w'.sent ≡ [])
    × (w'.notified ≡ [])
    × (w'.pauses ≡ paused.pauses)
    × ((at 5).remember_buyer_fault ≡ none
        → w'.memory
          ≡ remember
              (codes "tienda:555")
              (record {
                text = codes "hola";
                role = buyer;
                at = 5;
                metadata = (codes "tenant_id", codes "t1") ∷ (codes "message_id", codes "m1") ∷ [];
              })
              memory)
    × ((at 5).remember_buyer_fault ≢ none → w'.memory ≡ memory)
unfolding buyer_id_for
process_inbound_message-silent_example =
    process_inbound_message-silent ports python (at 5) tenant (message (codes "hola")) paused
      closed_thread

process_inbound_message-answers_example :
    (process_inbound_message ports python (at 5) tenant (message (codes "hola")) world).sent
    ≡ record {
      to_number = codes "555";
      text =
          reply_of ports python
            (at 5)
            tenant
            (message (codes "hola"))
            (turn_on ports python (at 5) tenant (message (codes "hola")) world);
      tenant_id = codes "t1";
    }
      ∷ []
process_inbound_message-answers_example =
    (process_inbound_message-answers ports python (at 5) tenant (message (codes "hola")) world
      (open_thread (codes "hola"))).0

abbrev handed : HandoffDecision
handed = record { escalate = true; matched_keyword = some (codes "humano") }

abbrev turn : AgentTurn
turn = record {
  reply = config.handoff_message;
  model = handoff_model;
  facts_cited = [];
  history_used = 0;
  handoff = some handed;
  resources_cited = [];
}

asks : turn_on ports python (at 5) tenant (message (codes "un humano")) world ≡ ok turn
unfolding remember_inbound respond evaluate normalize contains
asks = refl

handover-silences_example :
    (process_inbound_message ports python
      (at 6)
      tenant
      (message (codes "hola?"))
      (process_inbound_message ports python (at 5) tenant (message (codes "un humano")) world)).sent
    ≡ (process_inbound_message ports python (at 5) tenant (message (codes "un humano")) world).sent
handover-silences_example =
    handover-silences ports python tenant (at 5) (at 6) (message (codes "un humano"))
      (message (codes "hola?")) world turn handed 12 (open_thread (codes "un humano")) asks refl
      refl refl (omega arith) refl refl (omega arith)
