-- ===== src/Access/Tests.antt =====
-- A session of a tenant's user, with authentication on.
use wapsell_saas.Prelude.{
  ◌<◌, ◌≡◌, ◌⊎◌, ◌≢◌, refl, lookup, ◌==◌, ◌&&◌, filter, if◌then◌else◌, true, is_text, eq→is_text,
  arith, none, some, [], ◌∷◌, Text, codes, ok, err,
}
use wapsell_saas.Models.{User, Session, Tenant, admin, tenant, active}
use wapsell_saas.Auth.{AuthState}
use wapsell_saas.Access.Defs.{
  Context, optional_current_user, assert_tenant_access, filter_visible_tenants, unauthorized,
}
use wapsell_saas.Access.Isolation.{access_isolated, is_none, is_allowed, listing_agrees}

abbrev ana : User
ana = record {
  id = codes "u1";
  email = codes "ana@shop.test";
  password_hash = codes "hash";
  role = tenant;
  tenant_id = some (codes "t1");
  created_at = 1;
}

abbrev session : Session
session = record { token = codes "tok"; user_id = codes "u1"; expires_at = 10; created_at = 1 }

abbrev state : AuthState
state = record { users = (codes "u1", ana) ∷ []; sessions = (codes "tok", session) ∷ [] }

abbrev context : Context
context = record { auth_required = true; token = some (codes "tok"); now = 5 }

granted : (assert_tenant_access (codes "t1") context state).0 ≡ ok (some ana)
unfolding assert_tenant_access optional_current_user lookup ◌==◌
granted = refl

access_isolated_example :
    (u : User) × (t : Text) × (s : Session) × (some ana ≡ some u)
    × (context.token ≡ some t)
    × (lookup t state.sessions ≡ some s)
    × (5 < s.expires_at)
    × (lookup s.user_id state.users ≡ some u)
    × ((u.role ≡ admin) ⊎ (u.tenant_id ≡ some (codes "t1")))
access_isolated_example = access_isolated (codes "t1") context state (some ana) refl granted

seen : (optional_current_user context state).0 ≡ some ana
unfolding optional_current_user lookup ◌==◌
seen = refl

other : some (codes "t1") ≢ some (codes "t2")
unfolding ◌==◌
other = λ e.
    let h : is_text (some (codes "t1")) (codes "t2") ≡ true =
      eq→is_text (some (codes "t1")) (codes "t2") e in
    ground arith

abbrev shop : Text → Tenant
shop id = record {
  id = id;
  name = codes "Shop";
  slug = id;
  status = active;
  whatsapp_phone_number_id = none;
  model = codes "m";
  soul_config = none;
  handoff_config = none;
  created_at = 1;
}

listing_agrees_example :
    (filter_visible_tenants (shop (codes "t1") ∷ shop (codes "t2") ∷ []) context state).0 ≡ (
      if context.auth_required && is_none (optional_current_user context state).0
      then err unauthorized
      else ok (
          filter
            (λ t. is_allowed (assert_tenant_access t.id context state).0)
            (shop (codes "t1") ∷ shop (codes "t2") ∷ [])))
listing_agrees_example = listing_agrees (shop (codes "t1") ∷ shop (codes "t2") ∷ []) context state
