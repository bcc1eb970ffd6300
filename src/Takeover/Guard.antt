-- ===== src/Takeover/Guard.antt =====
-- Who may act on a conversation, and what an action leaves alone.
use wapsell_saas.Prelude.{
  ◌≡◌, ◌⊎◌, inl, inr, refl, ap, ◌∙◌, true, Option, none, some, Text, lookup, Result, ok, err,
  Bool-cases, Option-cases, if◌then◌else◌,
}
use wapsell_saas.Models.{User, Tenant}
use wapsell_saas.Tenants.{require}
use wapsell_saas.Access.{Context, HttpError, assert_tenant_access}
use wapsell_saas.Takeover.Defs.{
  Desk, RouteError, denied, not_found, in_shop, tenant_of, tenant_for_conv, after_access,
  guarded_by_access, with_tenant, conversation_route,
}

-- The desk after the access check.
abbrev pub checked : Text → Context → Desk → Desk
checked tenant_id c d = record d { auth = (assert_tenant_access tenant_id c d.auth).1 }

module _ {A : Type 0} (tenant_id buyer_id : Text) (c : Context)
    (body : Tenant → Desk → Result RouteError A × Desk) (d : Desk) where
  abbrev routed : Result RouteError A × Desk
  routed = conversation_route tenant_id buyer_id c body d

  -- The caller has access, the tenant is stored, and the conversation is one of its shop's.
  abbrev pub IsReached : Type 0
  IsReached =
      (user : Option User) × (t : Tenant) × ((assert_tenant_access tenant_id c d.auth).0 ≡ ok user)
      × (lookup tenant_id d.tenants ≡ some t)
      × (in_shop buyer_id t ≡ true)
      × (routed ≡ body t (checked tenant_id c d))

  abbrev pub IsRefused : Type 0
  IsRefused = (e : RouteError) × (routed.0 ≡ err e) × (routed.1.world ≡ d.world)

  conv_missing :
      lookup tenant_id d.tenants ≡ none
      → tenant_for_conv tenant_id buyer_id d.tenants ≡ err not_found
  unfolding tenant_for_conv tenant_of require
  conv_missing l = rw (l, tenant_for_conv, tenant_of, require) refl

  conv_found :
      (t : Tenant)
      → lookup tenant_id d.tenants ≡ some t
      → tenant_for_conv tenant_id buyer_id d.tenants
        ≡ (if in_shop buyer_id t then ok t else err not_found)
  unfolding tenant_for_conv tenant_of require
  conv_found t l = rw (l, tenant_for_conv, tenant_of, require) refl

  abbrev answer : Result RouteError Tenant → Result RouteError A × Desk
  answer o = with_tenant o body (checked tenant_id c d)

  found_cases :
      (user : Option User)
      → (assert_tenant_access tenant_id c d.auth).0 ≡ ok user
      → routed ≡ answer (tenant_for_conv tenant_id buyer_id d.tenants)
      → IsRefused ⊎ IsReached
  found_cases user a q = elim (Option-cases (lookup tenant_id d.tenants)) [
    | inl l ↦
        let z : routed ≡ (err not_found, checked tenant_id c d) = q ∙ ap answer (conv_missing l) in
        inl (not_found, ap (λ r. r.0) z, ap (λ r. r.1.world) z)
    | inr (t, l) ↦ elim (Bool-cases (in_shop buyer_id t)) [
      | inl s ↦
          let o : tenant_for_conv tenant_id buyer_id d.tenants ≡ ok t =
            conv_found t l ∙ rw s refl in
          inr (user, t, a, l, s, q ∙ ap answer o)
      | inr s ↦
          let o : tenant_for_conv tenant_id buyer_id d.tenants ≡ err not_found =
            conv_found t l ∙ rw s refl in
          let z : routed ≡ (err not_found, checked tenant_id c d) = q ∙ ap answer o in
          inl (not_found, ap (λ r. r.0) z, ap (λ r. r.1.world) z)
    ]
  ]

  abbrev entered : Result HttpError (Option User) → Result RouteError A × Desk
  entered r =
      after_access r (λ e. with_tenant (tenant_for_conv tenant_id buyer_id e.tenants) body e)
        (checked tenant_id c d)

  pub conversation_route_cases : IsRefused ⊎ IsReached
  unfolding conversation_route guarded_by_access
  conversation_route_cases = access (assert_tenant_access tenant_id c d.auth).0 refl
    where
      access :
          (r : Result HttpError (Option User))
          → (assert_tenant_access tenant_id c d.auth).0 ≡ r
          → IsRefused ⊎ IsReached
      access (err e) q =
          let z : routed ≡ (err (denied e), checked tenant_id c d) = ap entered q in
          inl (denied e, ap (λ r. r.0) z, ap (λ r. r.1.world) z)
      access (ok user) q = found_cases user q (ap entered q)
