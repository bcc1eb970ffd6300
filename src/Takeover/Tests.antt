-- ===== src/Takeover/Tests.antt =====
-- The owner of a shop answers a buyer.
use wapsell_saas.Prelude.{refl, true, none, some, [], ◌∷◌, codes, ok, pos}
use wapsell_saas.Models.{User, Session, InboundMessage, admin}
use wapsell_saas.Access.{Context}
use wapsell_saas.Agent.Tests.{tenant}
use wapsell_saas.Webhook.Tests.{python, at, world}
use wapsell_saas.Takeover.Defs.{
  Desk, Attempt, ConversationTurn, send_human_message, pause_bot, resume_bot,
}
use wapsell_saas.Takeover.Isolated.{IsIsolated, takeover-IsIsolated}

abbrev owner : User
owner = record {
  id = codes "u1";
  email = codes "ana@shop.test";
  password_hash = codes "hash";
  role = admin;
  tenant_id = none;
  created_at = 1;
}

abbrev session : Session
session = record { token = codes "tok"; user_id = codes "u1"; expires_at = 10; created_at = 1 }

abbrev pub desk : Desk
desk = record {
  auth = record { users = (codes "u1", owner) ∷ []; sessions = (codes "tok", session) ∷ [] };
  tenants = (codes "t1", tenant) ∷ [];
  templates = [];
  world = world;
}

abbrev pub context : Context
context = record { auth_required = true; token = some (codes "tok"); now = 5 }

abbrev attempt : Attempt
attempt = record {
  now = 5;
  gateway = ok (some (codes "w1"));
  pause_fault = none;
  remember_fault = none;
}

takeover-IsIsolated_example :
    IsIsolated
      (codes "t1")
      (codes "tienda:555")
      context
      desk
      (send_human_message python attempt
        (codes "t1")
        (codes "tienda:555")
        (codes "Hola")
        (some (pos 8))
        context
        desk).1
    × IsIsolated
        (codes "t1")
        (codes "tienda:555")
        context
        desk
        (pause_bot 5 (codes "t1") (codes "tienda:555") (pos 8) context desk).1
    × IsIsolated
        (codes "t1")
        (codes "tienda:555")
        context
        desk
        (resume_bot (codes "t1") (codes "tienda:555") context desk).1
takeover-IsIsolated_example =
    takeover-IsIsolated python attempt (codes "t1") (codes "tienda:555") (codes "Hola")
      (some (pos 8)) (pos 8) context desk refl

abbrev turn : ConversationTurn
turn = record {
  text = codes "Hola";
  at = 5;
  metadata =
      (codes "human", codes "true")
      ∷ (codes "vendor_message_id", codes "w1")
      ∷ (codes "bot_paused_until", codes "2026")
      ∷ [];
}

abbrev question : InboundMessage
question = record {
  tenant_id = codes "t1";
  from_number = codes "555";
  text = codes "precio?";
  message_id = codes "m1";
  profile_name = none;
  received_at = 6;
}
