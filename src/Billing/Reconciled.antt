-- ===== src/Billing/Reconciled.antt =====
-- What a webhook of Mercado Pago does to the stored subscriptions.
use wapsell_saas.Prelude.{
  ℕ, ◌≡◌, ◌≢◌, ◌⊎◌, refl, Option, none, some, Text, Dict, lookup, insert, find-lookup, IsKeyed,
  Result, ok, arith, Option-cases, inl, inr,
}
use wapsell_saas.Billing.Defs.{
  Subscription, SubscriptionStatus, pending, authorized, paused, cancelled, to_status, BillingError,
  get_by_preapproval_id, update, PreapprovalState, MercadoPago, has_preapproval, patched,
  reconcile_from_webhook,
}
use wapsell_saas.Billing.Service.{update_lem}

module _ (mp : MercadoPago) (now : ℕ) (preapproval_id : Text) (d : Dict Subscription) where
  abbrev pub reconciled : Result BillingError (Option Subscription) × Dict Subscription
  reconciled = reconcile_from_webhook mp now preapproval_id d

  -- The row `s` was rewritten as `s'` from what Mercado Pago reports.
  abbrev pub IsPatched :
      Subscription → PreapprovalState → SubscriptionStatus → Subscription → Type 0
  IsPatched s state status s' =
      (s'.id ≡ s.id)
      × (s'.tenant_id ≡ s.tenant_id)
      × (s'.plan_code ≡ s.plan_code)
      × (s'.mp_preapproval_id ≡ s.mp_preapproval_id)
      × (s'.status ≡ status)
      × (s'.updated_at ≡ now)
      × (status ≡ authorized → s.started_at ≡ none → s'.started_at ≡ some now)
      × (status ≢ authorized → s'.started_at ≡ s.started_at)
      × ((t : ℕ) → s.started_at ≡ some t → s'.started_at ≡ some t)

  patched-IsPatched :
      (s : Subscription) (state : PreapprovalState) (status : SubscriptionStatus)
      → IsPatched s state status (patched mp now status state s)
  unfolding patched
  patched-IsPatched s state pending =
      (refl, refl, refl, refl, refl, refl, λ a n. ground arith, λ a. refl, λ t e. e)
  patched-IsPatched s state authorized = (
    refl,
    refl,
    refl,
    refl,
    refl,
    refl,
    λ a n. ground arith,
    λ a. absurd (a refl),
    λ t e. ground arith,
  )
  patched-IsPatched s state paused =
      (refl, refl, refl, refl, refl, refl, λ a n. ground arith, λ a. refl, λ t e. e)
  patched-IsPatched s state cancelled =
      (refl, refl, refl, refl, refl, refl, λ a n. ground arith, λ a. refl, λ t e. e)

  -- With the rows stored under their ids, a webhook raises nothing. For no stored preapproval, or with Mercado Pago out of reach, it finds
  -- no row and changes nothing; with a reported status that is none of the four it returns the row
  -- and changes nothing. Else the row, and no other, is rewritten under its id with the reported
  -- status: it starts now if it is authorized and had not started, and its start is otherwise kept.
  pub reconcile_cases :
      IsKeyed Subscription.id d
      → (((get_by_preapproval_id preapproval_id d ≡ none)
            ⊎ (mp.get_preapproval preapproval_id ≡ none))
          × (reconciled ≡ (ok none, d)))
        ⊎ ((s : Subscription) × (state : PreapprovalState) × (get_by_preapproval_id preapproval_id d
              ≡ some s)
            × (mp.get_preapproval preapproval_id ≡ some state)
            × (((to_status state.status ≡ none) × (reconciled ≡ (ok (some s), d)))
                ⊎ ((status : SubscriptionStatus) × (s' : Subscription) × (to_status state.status
                      ≡ some status)
                    × (reconciled ≡ (ok (some s'), insert s.id s' d))
                    × IsPatched s state status s')))
  unfolding reconcile_from_webhook
  reconcile_cases h = elim (Option-cases (get_by_preapproval_id preapproval_id d)) [
    | inl e ↦ inl (inl e, ground arith)
    | inr (s, e) ↦ elim (Option-cases (mp.get_preapproval preapproval_id)) [
      | inl m ↦ inl (inr m, ground arith)
      | inr (state, m) ↦ elim (Option-cases (to_status state.status)) [
        | inl t ↦ inr (s, state, e, m, inl (t, ground arith))
        | inr (status, t) ↦
            let stored : lookup s.id d ≡ some s =
              unfold get_by_preapproval_id in
              find-lookup Subscription.id (has_preapproval preapproval_id) d {v = s} h e in
            let s' : Subscription = patched mp now status state s in
            let p : IsPatched s state status s' = patched-IsPatched s state status in
            let k : s'.id ≡ s.id = p.0 in
            let u : update s' d ≡ (ok s', insert s'.id s' d) = update_lem s' s d (rw k stored) in
            inr (s, state, e, m, inr (status, s', t, ground (arith, u, k), p))
      ]
    ]
  ]
