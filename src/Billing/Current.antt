-- ===== src/Billing/Current.antt =====
-- What `active_for_tenant` and `list_for` return.
use wapsell_saas.Prelude.{
  ◌≤◌, ◌≡◌, ◌↔◌, sym, subst, Bool, true, false, ◌&&◌, none, some, Text, eq_iff, Dict, lookup,
  values, find, filter, find-filter, find-none, find-test, All, All-find, All-filter,
  All-filter_test, All-values, All-sort_desc, sort_desc-IsDescending, find-sort_desc, first_largest,
  IsKeyed, lookup-key, arith, ltb, Option-cases, inl, inr,
}
use wapsell_saas.Billing.Defs.{
  Subscription, authorized, is_authorized, is_tenants, list_for, active_for_tenant,
}

module _ (tenant_id : Text) (d : Dict Subscription) (h : IsKeyed Subscription.id d) where
  list_for-All :
      (P : Subscription → Type 0)
      → ((s : Subscription) → lookup s.id d ≡ some s → P s)
      → All P (list_for tenant_id d)
  unfolding list_for
  list_for-All P f =
      All-sort_desc Subscription.created_at P (filter (is_tenants tenant_id) (values d)) (
        All-filter P (is_tenants tenant_id) (values d) (
          All-values Subscription.id P d h λ k v l. f v (
            subst (λ j. lookup j d ≡ some v) (sym (lookup-key Subscription.id k d {v = v} h l)) l)))

  -- No row of the tenant's list passes a test just where no stored row of the tenant does.
  list_for-none :
      (p : Subscription → Bool) (k : Text) (s : Subscription)
      → find p (list_for tenant_id d) ≡ none
      → lookup k d ≡ some s
      → s.tenant_id ≡ tenant_id
      → p s ≡ false
  unfolding list_for
  list_for-none p k s e l t = ground (
    arith,
    find-none (λ x. is_tenants tenant_id x && p x) k d {v = s}
        (find-filter (is_tenants tenant_id) p (values d) (
          (find-sort_desc Subscription.created_at p (filter (is_tenants tenant_id) (values d))).0
            e))
        l,
    eq_iff s.tenant_id tenant_id,
  )

  -- The current subscription of a tenant is stored, is the tenant's and authorized, and no other
  -- authorized row of the tenant was created after it.
  pub active_for_tenant_newest :
      (s : Subscription)
      → active_for_tenant tenant_id d ≡ some s
      → (lookup s.id d ≡ some s)
        × (s.tenant_id ≡ tenant_id)
        × (s.status ≡ authorized)
        × ((k : Text) (w : Subscription)
            → lookup k d ≡ some w
            → w.tenant_id ≡ tenant_id
            → w.status ≡ authorized
            → w.created_at ≤ s.created_at)
  active_for_tenant_newest s e =
      let found : find is_authorized (list_for tenant_id d) ≡ some s =
        unfold active_for_tenant in e in
      let own : (is_tenants tenant_id s ≡ true) =
        unfold list_for in
        All-find (λ x. is_tenants tenant_id x ≡ true) is_authorized (list_for tenant_id d) s
          (All-sort_desc Subscription.created_at (λ x. is_tenants tenant_id x ≡ true)
            (filter (is_tenants tenant_id) (values d))
            (All-filter_test (is_tenants tenant_id) (values d)))
          found in
      let largest : find (λ y. is_authorized y && ltb s.created_at y.created_at)
            (list_for tenant_id d)
          ≡ none =
        unfold list_for in
        first_largest Subscription.created_at is_authorized (list_for tenant_id d) s
          (sort_desc-IsDescending Subscription.created_at
            (filter (is_tenants tenant_id) (values d)))
          found in
      (
        All-find (λ x. lookup x.id d ≡ some x) is_authorized (list_for tenant_id d) s
            (list_for-All (λ x. lookup x.id d ≡ some x) (λ x l. l)) found,
        (eq_iff s.tenant_id tenant_id).0 own,
        ground (arith, find-test is_authorized (list_for tenant_id d) {x = s} found),
        λ k w l t a. ground (
          arith,
          list_for-none (λ y. is_authorized y && ltb s.created_at y.created_at) k w largest l t,
        ),
      )

  -- A tenant has no current subscription just where none of its stored rows is authorized.
  pub active_for_tenant-none : (active_for_tenant tenant_id d ≡ none) ↔ (
      (k : Text) (w : Subscription)
      → lookup k d ≡ some w
      → w.tenant_id ≡ tenant_id
      → is_authorized w ≡ false)
  active_for_tenant-none = (
    λ e k w l t. list_for-none is_authorized k w (unfold active_for_tenant in e) l t,
    λ all. elim (Option-cases (active_for_tenant tenant_id d)) [
      | inl e ↦ e
      | inr (s, e) ↦
          let (l, t, a, newest) = active_for_tenant_newest s e in absurd (cc (all s.id s l t, a))
    ],
  )
