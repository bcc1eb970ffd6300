-- ===== src/Takeover/Isolated.antt =====
-- What an action on a conversation leaves alone, and who may act.
use wapsell_saas.Prelude.{
  ℕ, ◌≡◌, ◌≢◌, ◌⊎◌, inl, inr, refl, sym, subst, ◌∙◌, true, false, Option, none, some, [], ◌∷◌, ◌++◌,
  Text, ◌==◌, eq_iff, lookup, strip_by, ℤ, Dict, Result, ok, err, arith,
}
use wapsell_saas.Models.{admin, User, Tenant}
use wapsell_saas.Auth.{authenticate}
use wapsell_saas.Access.{Context}
use wapsell_saas.Access.Isolation.{access_user}
use wapsell_saas.Memory.{BuyerInteraction, bucket}
use wapsell_saas.Memory.History.{bucket-remember}
use wapsell_saas.Inbox.{is_paused, pause, resume}
use wapsell_saas.Inbox.Windows.{is_paused-pause}
use wapsell_saas.Crm.{Python}
use wapsell_saas.Webhook.Defs.{World, after_hours}
use wapsell_saas.Takeover.Defs.{
  Desk, Attempt, PauseState, server_error, until_of, window, vendor_meta, split_from_number,
  RouteError, positive, in_shop, conversation_route, pause_after, remember_turn, send_body,
  send_stripped, send_human_message, pause_hours_of, pause_bot, resume_bot,
}
use wapsell_saas.Takeover.Guard.{checked, conversation_route_cases}

-- The other buyers' messages and pauses, and the items of the CRM, are as they were.
abbrev pub IsFramed : Text → World → World → Type 0
IsFramed buyer_id w w' =
    ((j : Text) → j ≢ buyer_id → bucket j w'.memory ≡ bucket j w.memory)
    × ((t j : Text) (now : ℕ)
        → j ≢ buyer_id
        → is_paused t j now w'.pauses ≡ is_paused t j now w.pauses)
    × (w'.resources ≡ w.resources)

neq-false : (s t : Text) → s ≢ t → (t == s) ≡ false
neq-false s t ne = ground (arith, eq_iff t s)

module _ (buyer_id : Text) (w : World) where
  remember_turn-IsFramed :
      (fault : Option Text) (turn : BuyerInteraction)
      → IsFramed buyer_id w (remember_turn fault buyer_id turn w)
  remember_turn-IsFramed (some e) turn = (λ j ne. refl, λ t j now ne. refl, refl)
  remember_turn-IsFramed none turn = (
    λ j ne. bucket-remember buyer_id j turn w.memory ∙ rw (neq-false j buyer_id ne) refl,
    λ t j now ne. refl,
    refl,
  )

  pause-IsFramed :
      (tenant_id : Text) (until : ℕ)
      → IsFramed buyer_id w (record w { pauses = (pause tenant_id buyer_id until w.pauses).1 })
  pause-IsFramed tenant_id until = (
    λ j ne. refl,
    λ t j now ne.
        (is_paused-pause t j tenant_id buyer_id until now w.pauses).0
        ∙ ground (arith, neq-false j buyer_id ne),
    refl,
  )

  resume-IsFramed :
      (tenant_id : Text)
      → IsFramed buyer_id w (record w { pauses = resume tenant_id buyer_id w.pauses })
  resume-IsFramed tenant_id = (
    λ j ne. refl,
    λ t j now ne.
        (is_paused-pause t j tenant_id buyer_id 0 now w.pauses).1
        ∙ ground (arith, neq-false j buyer_id ne),
    refl,
  )

  pause_after-IsFramed :
      (py : Python) (fault : Option Text) (tenant_id : Text) (until : Option ℕ) (meta : Dict Text)
      → IsFramed buyer_id w (pause_after py fault tenant_id buyer_id until meta w).1
  unfolding pause_after
  pause_after-IsFramed py (some e) t until meta = (λ j ne. refl, λ t j now ne. refl, refl)
  pause_after-IsFramed py none t none meta = (λ j ne. refl, λ t j now ne. refl, refl)
  pause_after-IsFramed py none t (some until) meta = pause-IsFramed t until

IsFramed-trans : (b : Text) (u v w : World) → IsFramed b u v → IsFramed b v w → IsFramed b u w
IsFramed-trans b u v w h k =
    (λ j ne. k.0 j ne ∙ h.0 j ne, λ t j now ne. k.1 t j now ne ∙ h.1 t j now ne, k.2 ∙ h.2)

send_body-IsFramed :
    (py : Python) (a : Attempt) (buyer_id text : Text) (pause_hours : Option ℤ) (t : Tenant)
    (w : World)
    → IsFramed buyer_id w (send_body py a buyer_id text pause_hours t w).1
unfolding send_body
send_body-IsFramed py a b text pause_hours t w =
    let sent : World = record w {
      sent =
          w.sent ++ record { to_number = split_from_number b; text = text; tenant_id = t.id } ∷ [];
    } in
    let (meta, paused) =
      pause_after py a.pause_fault t.id b (until_of a.now (window pause_hours))
        (vendor_meta a.gateway) sent in
    IsFramed-trans b w paused (send_body py a b text pause_hours t w).1
      (pause_after-IsFramed b sent py a.pause_fault t.id (until_of a.now (window pause_hours))
        (vendor_meta a.gateway))
      (remember_turn-IsFramed b paused a.remember_fault _)

send_stripped-IsFramed :
    (py : Python) (a : Attempt) (buyer_id text : Text) (pause_hours : Option ℤ) (t : Tenant)
    (d : Desk)
    → IsFramed buyer_id d.world (send_stripped py a buyer_id text pause_hours t d).1.world
unfolding send_stripped
send_stripped-IsFramed py a b [] pause_hours t d = (λ j ne. refl, λ t j now ne. refl, refl)
send_stripped-IsFramed py a b (x ∷ text) pause_hours t d =
    send_body-IsFramed py a b (x ∷ text) pause_hours t d.world

pause_hours_of-IsFramed :
    (now : ℕ) (buyer_id : Text) (hours : Option ℕ) (t : Tenant) (d : Desk)
    → IsFramed buyer_id d.world (pause_hours_of now buyer_id hours t d).1.world
pause_hours_of-IsFramed now b none t d = (λ j ne. refl, λ t j now ne. refl, refl)
pause_hours_of-IsFramed now b (some hours) t d = until (after_hours now hours)
  where
    until :
        (o : Option ℕ)
        → IsFramed b d.world
            (elim o as (λ o. Result RouteError PauseState × Desk) [
              | none ↦ (err server_error, d)
              | some until ↦ (
                ok (record { bot_paused = true; bot_paused_until = some until }),
                record d {
                  world = record d.world { pauses = (pause t.id b until d.world.pauses).1 };
                },
              )
            ]).1.world
    until none = (λ j ne. refl, λ t j now ne. refl, refl)
    until (some u) = pause-IsFramed b d.world t.id u

-- The caller holds a valid session, of an admin or of the tenant, which is stored, and the
-- conversation is one of its shop's.
abbrev pub IsAllowed : Text → Text → Context → Desk → Type 0
IsAllowed tenant_id buyer_id c d =
    (u : User) × (t : Tenant) × ((authenticate c.token c.now d.auth).0 ≡ ok u)
    × ((u.role ≡ admin) ⊎ (u.tenant_id ≡ some tenant_id))
    × (lookup tenant_id d.tenants ≡ some t)
    × (in_shop buyer_id t ≡ true)

-- The stores are left alone, or an allowed caller changed those of the one conversation.
abbrev pub IsIsolated : Text → Text → Context → Desk → Desk → Type 0
IsIsolated tenant_id buyer_id c d d' =
    (d'.world ≡ d.world) ⊎ (IsAllowed tenant_id buyer_id c d × IsFramed buyer_id d.world d'.world)

conversation_route-IsIsolated :
    {A : Type 0} (tenant_id buyer_id : Text) (c : Context)
    (body : Tenant → Desk → Result RouteError A × Desk) (d : Desk)
    → c.auth_required ≡ true
    → ((t : Tenant) (e : Desk) → IsFramed buyer_id e.world (body t e).1.world)
    → IsIsolated tenant_id buyer_id c d (conversation_route tenant_id buyer_id c body d).1
conversation_route-IsIsolated tenant_id b c body d on framed =
    elim (conversation_route_cases tenant_id b c body d) [
      | inl (e, r, w) ↦ inl w
      | inr (user, t, a, l, s, q) ↦
          let (u, eu, valid, role) = access_user tenant_id c d.auth user on a in
          inr (
            (u, t, valid, role, l, s),
            subst (λ r. IsFramed b d.world r.1.world) (sym q) (framed t (checked tenant_id c d)),
          )
    ]

-- With authentication on, sending, pausing and resuming either leave all the stores of messages,
-- pauses and items alone, or the caller holds a valid session, of an admin or of the tenant, the
-- conversation is one of the tenant's shop, and the other buyers' messages and pauses, and the
-- items of the CRM, are as they were.
pub takeover-IsIsolated :
    (py : Python) (a : Attempt) (tenant_id buyer_id text : Text) (pause_hours : Option ℤ)
    (hours : ℤ) (c : Context) (d : Desk)
    → c.auth_required ≡ true
    → IsIsolated tenant_id buyer_id c d
        (send_human_message py a tenant_id buyer_id text pause_hours c d).1
      × IsIsolated tenant_id buyer_id c d (pause_bot a.now tenant_id buyer_id hours c d).1
      × IsIsolated tenant_id buyer_id c d (resume_bot tenant_id buyer_id c d).1
unfolding send_human_message pause_bot resume_bot
takeover-IsIsolated py a tenant_id b text pause_hours hours c d on = (
  conversation_route-IsIsolated tenant_id b c _ d on
      (λ t e. send_stripped-IsFramed py a b (strip_by py.is_space text) pause_hours t e),
  conversation_route-IsIsolated tenant_id b c _ d on
      (λ t e. pause_hours_of-IsFramed a.now b (positive hours) t e),
  conversation_route-IsIsolated tenant_id b c _ d on (λ t e. resume-IsFramed b e.world t.id),
)
