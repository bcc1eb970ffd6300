-- ===== src/Access/Isolation.antt =====
-- Who gets through the access checks, and that the listing of tenants agrees with them.
use wapsell_saas.Prelude.{
  if◌then◌else◌, ◌&&◌, ◌≡◌, ◌≢◌, ◌⊎◌, inl, inr, refl, Bool, true, false, Option, none, some, List,
  [], ◌∷◌, Text, is_text, is_text→eq, eq→is_text, lookup, filter, Result, ok, err, arith,
  Option-cases, Bool-cases, ◌<◌,
}
use wapsell_saas.Models.{admin, tenant, User, Session, Tenant}
use wapsell_saas.Auth.{AuthState, authenticate}
use wapsell_saas.Auth.Sessions.{authenticate_sound}
use wapsell_saas.Access.Defs.{
  Context, HttpError, unauthorized, forbidden, is_admin, optional_current_user,
  assert_tenant_access, filter_visible_tenants,
}

pub access_user :
    (tenant_id : Text) (c : Context) (s : AuthState) (user : Option User)
    → c.auth_required ≡ true
    → (assert_tenant_access tenant_id c s).0 ≡ ok user
    → (u : User) × (user ≡ some u)
      × ((authenticate c.token c.now s).0 ≡ ok u)
      × ((u.role ≡ admin) ⊎ (u.tenant_id ≡ some tenant_id))
unfolding assert_tenant_access optional_current_user
access_user tenant_id c s none on e = absurd (ground arith)
access_user tenant_id c s (some u) on e = (
  u,
  refl,
  ground arith,
  elim (Bool-cases (is_admin u)) [
    | inl a ↦ inl (ground arith)
    | inr n ↦ inr (ground (arith, is_text→eq u.tenant_id tenant_id))
  ],
)

-- With authentication on, whoever gets at a tenant holds a session that has not expired, for a
-- stored user who is an admin or belongs to that tenant.
pub access_isolated :
    (tenant_id : Text) (c : Context) (s : AuthState) (user : Option User)
    → c.auth_required ≡ true
    → (assert_tenant_access tenant_id c s).0 ≡ ok user
    → (u : User) × (t : Text) × (session : Session) × (user ≡ some u)
      × (c.token ≡ some t)
      × (lookup t s.sessions ≡ some session)
      × (c.now < session.expires_at)
      × (lookup session.user_id s.users ≡ some u)
      × ((u.role ≡ admin) ⊎ (u.tenant_id ≡ some tenant_id))
access_isolated tenant_id c s user on e =
    let (u, eu, valid, allowed) = access_user tenant_id c s user on e in
    let (t, session, et, es, live, stored, _) = authenticate_sound c.token c.now s u valid in
    (u, t, session, eu, et, es, live, stored, allowed)

-- With authentication on, the checks answer by the user of the session alone: 401 without one, for
-- an admin always yes, and for another user 403 but on the own tenant.
pub access_decides :
    (tenant_id : Text) (c : Context) (s : AuthState)
    → c.auth_required ≡ true
    → let user = (optional_current_user c s).0 in
      let answer = (assert_tenant_access tenant_id c s).0 in
      (user ≡ none → answer ≡ err unauthorized)
      × ((u : User) → user ≡ some u → u.role ≡ admin → answer ≡ ok (some u))
      × ((u : User)
          → user ≡ some u
          → u.role ≡ tenant
          → u.tenant_id ≡ some tenant_id
          → answer ≡ ok (some u))
      × ((u : User)
          → user ≡ some u
          → u.role ≡ tenant
          → u.tenant_id ≢ some tenant_id
          → answer ≡ err forbidden)
unfolding assert_tenant_access
access_decides tenant_id c s on = (
  λ e. ground arith,
  λ u e r. ground arith,
  λ u e r t. ground (arith, eq→is_text u.tenant_id tenant_id t),
  λ u e r t. ground (arith, is_text→eq u.tenant_id tenant_id),
)

abbrev pub is_none : Option User → Bool
is_none none = true
is_none (some _) = false

abbrev pub is_allowed : Result HttpError (Option User) → Bool
is_allowed (ok _) = true
is_allowed (err _) = false

filter-cong :
    (p q : Tenant → Bool) (ts : List Tenant)
    → ((t : Tenant) → p t ≡ q t)
    → filter p ts ≡ filter q ts
filter-cong p q [] h = refl
filter-cong p q (t ∷ ts) h = ground (arith, h t, filter-cong p q ts h)

filter-all : (p : Tenant → Bool) (ts : List Tenant) → ((t : Tenant) → p t ≡ true) → ts ≡ filter p ts
filter-all p [] h = refl
filter-all p (t ∷ ts) h = ground (arith, h t, filter-all p ts h)

-- The listing shows exactly the tenants that the caller has access to one by one, in their order;
-- only a caller with no valid session, while authentication is on, gets 401 in its place.
pub listing_agrees :
    (tenants : List Tenant) (c : Context) (s : AuthState)
    → (filter_visible_tenants tenants c s).0 ≡ (
        if c.auth_required && is_none (optional_current_user c s).0
        then err unauthorized
        else ok (filter (λ t. is_allowed (assert_tenant_access t.id c s).0) tenants))
unfolding filter_visible_tenants
listing_agrees tenants c s = elim (Bool-cases c.auth_required) [
  | inr off ↦ ground (
    arith,
    filter-all (λ t. is_allowed (assert_tenant_access t.id c s).0) tenants
        (λ t. unfold assert_tenant_access in ground arith),
  )
  | inl on ↦ elim (Option-cases (optional_current_user c s).0) [
    | inl e ↦ ground arith
    | inr (u, e) ↦ elim (Bool-cases (is_admin u)) [
      | inl a ↦ ground (
        arith,
        filter-all (λ t. is_allowed (assert_tenant_access t.id c s).0) tenants
            (λ t. unfold assert_tenant_access in ground arith),
      )
      | inr a ↦ ground (
        arith,
        filter-cong (λ t. is_text u.tenant_id t.id)
            (λ t. is_allowed (assert_tenant_access t.id c s).0) tenants
            (λ t. unfold assert_tenant_access in ground arith),
      )
    ]
  ]
]
