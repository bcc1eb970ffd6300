-- ===== src/Takeover/Reading.antt =====
-- The inbox routes of services/api/main.py that read: `list_conversations` and
-- `get_conversation_thread`. They give the stores' rows, whose instants the responses show in ISO
-- format.
use wapsell_saas.Prelude.{
  ℕ, true, false, Option, none, some, List, ◌++◌, Text, codes, ◌==◌, map, find, ltb, Result, ok,
  if◌then◌else◌,
}
use wapsell_saas.Access.{Context}
use wapsell_saas.Memory.{BuyerInteraction, BuyerThreadSummary, recall, list_threads}
use wapsell_saas.Inbox.{BotPause, list_active, get}
use wapsell_saas.Crm.{Python}
use wapsell_saas.Takeover.Defs.{
  Desk, RouteError, PauseState, split_from_number, tenant_of, guarded_by_access, with_tenant,
  conversation_route,
}

pub record ConversationThread : Type 0 where
  pub summary : BuyerThreadSummary
  pub from_number : Text
  pub pause_state : PauseState

pub record ThreadDetail : Type 0 where
  pub turns : List BuyerInteraction
  pub pause_state : PauseState

abbrev pub state_of : Option BotPause → PauseState
state_of none = record { bot_paused = false; bot_paused_until = none }
state_of (some p) = record { bot_paused = true; bot_paused_until = some p.paused_until }

abbrev pub active_at : ℕ → Option BotPause → Option BotPause
active_at now none = none
active_at now (some p) = if ltb now p.paused_until then some p else none

unfoldable pub get_conversation_thread :
    ℕ → Text → Text → Context → Desk → Result RouteError ThreadDetail × Desk
unfolding conversation_route recall get
get_conversation_thread now tenant_id buyer_id c d =
    conversation_route tenant_id buyer_id c
      (λ t e. (
        ok (record {
          turns = recall buyer_id none e.world.memory;
          pause_state = state_of (active_at now (get t.id buyer_id e.world.pauses));
        }),
        e,
      ))
      d

unfoldable pub thread_row : List BotPause → BuyerThreadSummary → ConversationThread
unfolding split_from_number
thread_row active s = record {
  summary = s;
  from_number = split_from_number s.buyer_id;
  pause_state = state_of (find (λ p. p.buyer_id == s.buyer_id) active);
}

unfoldable pub list_conversations :
    Python → ℕ → Text → Context → Desk → Result RouteError (List ConversationThread) × Desk
unfolding guarded_by_access tenant_of thread_row list_threads list_active
list_conversations py now tenant_id c d =
    guarded_by_access tenant_id c
      (λ e.
        with_tenant (tenant_of tenant_id e.tenants)
          (λ t f. (
            ok (
                map (thread_row (list_active t.id now f.world.pauses))
                  (list_threads py.is_space (some (t.slug ++ codes ":")) 100 f.world.memory)),
            f,
          ))
          e)
      d
