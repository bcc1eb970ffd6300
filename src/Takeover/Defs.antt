-- ===== src/Takeover/Defs.antt =====
-- The inbox routes of services/api/main.py that write: `send_human_message`, `pause_bot` and
-- `resume_bot`. `Desk` holds the stores that they use, and
-- `Attempt` what the outside does during a request: the clock, the gateway's answer, and the message of
-- the exception of each guarded call, if it raises one. A guarded call that raises leaves its store as
-- it was.
use wapsell_saas.Prelude.{
  ℕ, zero, suc, Bool, true, false, Option, none, some, [], ◌∷◌, ◌++◌, Text, codes, starts_with,
  strip_by, take, nat_eq, Dict, insert, ℤ, pos, negsuc, Result, ok, err, if◌then◌else◌,
}
use wapsell_saas.Models.{User, Tenant, MessageTemplate}
use wapsell_saas.Tenants.{TenantRepo, require}
use wapsell_saas.Auth.{AuthState}
use wapsell_saas.Access.{Context, HttpError, assert_tenant_access}
use wapsell_saas.Memory.{BuyerInteraction, agent, remember}
use wapsell_saas.Inbox.{pause, resume}
use wapsell_saas.Crm.{Python}
use wapsell_saas.Webhook.Defs.{World, after_hours}

pub record Desk : Type 0 where
  pub auth : AuthState
  pub tenants : TenantRepo
  pub templates : Dict MessageTemplate
  pub world : World

pub record Attempt : Type 0 where
  pub now : ℕ
  pub gateway : Result Text (Option Text)
  pub pause_fault : Option Text
  pub remember_fault : Option Text

-- The status codes 401 and 403, 404, 409, 422, and the 500 of an exception.
pub data RouteError : Type 0 where
  denied : HttpError → RouteError
  not_found conflict unprocessable server_error : RouteError

pub record PauseState : Type 0 where
  pub bot_paused : Bool
  pub bot_paused_until : Option ℕ

pub record ConversationTurn : Type 0 where
  pub text : Text
  pub at : ℕ
  pub metadata : Dict Text

-- `hours` where it is positive
abbrev pub positive : ℤ → Option ℕ
positive (pos zero) = none
positive (pos (suc n)) = some (suc n)
positive (negsuc n) = none

-- `req.pause_hours` where it is given and positive
abbrev pub window : Option ℤ → Option ℕ
window none = none
window (some z) = positive z

-- `buyer_id.partition(":")`: what follows the first colon.
abbrev pub after_colon : Text → Option Text
after_colon [] = none
after_colon (c ∷ s) = if nat_eq c 58 then some s else after_colon s

unfoldable pub split_from_number : Text → Text
split_from_number buyer_id = elim (after_colon buyer_id) [ none ↦ buyer_id | some rest ↦ rest ]

unfoldable pub tenant_of : Text → TenantRepo → Result RouteError Tenant
unfolding require
tenant_of tenant_id repo = elim (require tenant_id repo) [ err e ↦ err not_found | ok t ↦ ok t ]

abbrev pub in_shop : Text → Tenant → Bool
in_shop buyer_id t = starts_with buyer_id (t.slug ++ codes ":")

unfoldable pub tenant_for_conv : Text → Text → TenantRepo → Result RouteError Tenant
unfolding tenant_of
tenant_for_conv tenant_id buyer_id repo = elim (tenant_of tenant_id repo) [
  | err e ↦ err e
  | ok t ↦ if in_shop buyer_id t then ok t else err not_found
]

abbrev pub after_access :
    {A : Type 0}
    → Result HttpError (Option User)
    → (Desk → Result RouteError A × Desk)
    → Desk
    → Result RouteError A × Desk
after_access (err e) body d = (err (denied e), d)
after_access (ok user) body d = body d

-- The access check before the body of a route, which gets the desk without the session that the
-- check may drop.
unfoldable pub guarded_by_access :
    {A : Type 0}
    → Text
    → Context
    → (Desk → Result RouteError A × Desk)
    → Desk
    → Result RouteError A × Desk
unfolding assert_tenant_access
guarded_by_access tenant_id c body d =
    after_access (assert_tenant_access tenant_id c d.auth).0 body
      (record d { auth = (assert_tenant_access tenant_id c d.auth).1 })

-- A body that needs the conversation's tenant.
abbrev pub with_tenant :
    {A : Type 0}
    → Result RouteError Tenant
    → (Tenant → Desk → Result RouteError A × Desk)
    → Desk
    → Result RouteError A × Desk
with_tenant (err e) body d = (err e, d)
with_tenant (ok t) body d = body t d

unfoldable pub conversation_route :
    {A : Type 0}
    → Text
    → Text
    → Context
    → (Tenant → Desk → Result RouteError A × Desk)
    → Desk
    → Result RouteError A × Desk
unfolding guarded_by_access tenant_for_conv
conversation_route tenant_id buyer_id c body d =
    guarded_by_access tenant_id c
      (λ e. with_tenant (tenant_for_conv tenant_id buyer_id e.tenants) body e) d

-- The metadata after the gateway's answer.
abbrev pub vendor_meta : Result Text (Option Text) → Dict Text
vendor_meta (ok (some (c ∷ id))) =
    (codes "human", codes "true") ∷ (codes "vendor_message_id", c ∷ id) ∷ []
vendor_meta (ok id) = (codes "human", codes "true") ∷ []
vendor_meta (err []) = (codes "human", codes "true") ∷ []
vendor_meta (err (c ∷ e)) =
    (codes "human", codes "true") ∷ (codes "delivery_error", take 200 (c ∷ e)) ∷ []

-- The pause of a send, `none` being no window, and then an exception of its computation.
unfoldable pub pause_after :
    Python → Option Text → Text → Text → Option ℕ → Dict Text → World → Dict Text × World
unfolding pause
pause_after py (some e) tenant_id buyer_id until meta w = (meta, w)
pause_after py none tenant_id buyer_id none meta w = (meta, w)
pause_after py none tenant_id buyer_id (some until) meta w = (
  insert (codes "bot_paused_until") (py.isoformat until) meta,
  record w { pauses = (pause tenant_id buyer_id until w.pauses).1 },
)

abbrev pub until_of : ℕ → Option ℕ → Option ℕ
until_of now none = none
until_of now (some hours) = after_hours now hours

abbrev pub remember_turn : Option Text → Text → BuyerInteraction → World → World
remember_turn (some e) buyer_id turn w = w
remember_turn none buyer_id turn w = record w { memory = remember buyer_id turn w.memory }

unfoldable pub send_body :
    Python → Attempt → Text → Text → Option ℤ → Tenant → World → ConversationTurn × World
unfolding pause_after split_from_number remember
send_body py a buyer_id text pause_hours t w =
    let sent = record w {
      sent =
          w.sent
          ++ record { to_number = split_from_number buyer_id; text = text; tenant_id = t.id } ∷ [];
    } in
    let (meta, paused) =
      pause_after py a.pause_fault t.id buyer_id (until_of a.now (window pause_hours))
        (vendor_meta a.gateway) sent in
    (
      record { text = text; at = a.now; metadata = meta },
      remember_turn a.remember_fault buyer_id
          (record { text = text; role = agent; at = a.now; metadata = meta }) paused,
    )

-- The request's text with no white space around it is sent, unless it is empty.
unfoldable pub send_stripped :
    Python
    → Attempt
    → Text
    → Text
    → Option ℤ
    → Tenant
    → Desk
    → Result RouteError ConversationTurn × Desk
unfolding send_body
send_stripped py a buyer_id [] pause_hours t d = (err unprocessable, d)
send_stripped py a buyer_id (c ∷ text) pause_hours t d =
    let (turn, w) = send_body py a buyer_id (c ∷ text) pause_hours t d.world in
    (ok turn, record d { world = w })

unfoldable pub send_human_message :
    Python
    → Attempt
    → Text
    → Text
    → Text
    → Option ℤ
    → Context
    → Desk
    → Result RouteError ConversationTurn × Desk
unfolding conversation_route send_stripped strip_by
send_human_message py a tenant_id buyer_id text pause_hours c d =
    conversation_route tenant_id buyer_id c
      (λ t e. send_stripped py a buyer_id (strip_by py.is_space text) pause_hours t e) d

abbrev pub pause_hours_of :
    ℕ → Text → Option ℕ → Tenant → Desk → Result RouteError PauseState × Desk
pause_hours_of now buyer_id none t d = (err unprocessable, d)
pause_hours_of now buyer_id (some hours) t d = elim (after_hours now hours) [
  | none ↦ (err server_error, d)
  | some until ↦ (
    ok (record { bot_paused = true; bot_paused_until = some until }),
    record d { world = record d.world { pauses = (pause t.id buyer_id until d.world.pauses).1 } },
  )
]

unfoldable pub pause_bot :
    ℕ → Text → Text → ℤ → Context → Desk → Result RouteError PauseState × Desk
unfolding conversation_route pause
pause_bot now tenant_id buyer_id hours c d =
    conversation_route tenant_id buyer_id c
      (λ t e. pause_hours_of now buyer_id (positive hours) t e) d

unfoldable pub resume_bot : Text → Text → Context → Desk → Result RouteError PauseState × Desk
unfolding conversation_route resume
resume_bot tenant_id buyer_id c d =
    conversation_route tenant_id buyer_id c
      (λ t e. (
        ok (record { bot_paused = false; bot_paused_until = none }),
        record e { world = record e.world { pauses = resume t.id buyer_id e.world.pauses } },
      ))
      d
