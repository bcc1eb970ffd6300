-- ===== src/Billing/Cancelled.antt =====
-- What the cancelling of a subscription does.
use wapsell_saas.Prelude.{
  ℕ, ◌≡◌, ◌≢◌, ◌⊎◌, refl, sym, subst, ◌∙◌, Bool, true, false, Option, none, some, Text, eq_iff,
  Dict, lookup, insert, lookup-insert_self, insert-IsKeyed, lookup-key, ap, IsKeyed, ok, err, arith,
  Option-cases, Bool-cases, inl, inr,
}
use wapsell_saas.Billing.Defs.{
  Subscription, cancelled, unknown_subscription, active_for_tenant, update, MercadoPago, is_tenants,
  truthy_id, caught, cancel_remote, mark_cancelled, cancel,
}
use wapsell_saas.Billing.Current.{active_for_tenant_newest}
use wapsell_saas.Billing.Service.{update_lem}

-- A row written as cancelled is current for nobody.
cancelled_ends :
    (tenant_id i : Text) (s c : Subscription) (d : Dict Subscription)
    → s.id ≡ i
    → s.status ≡ cancelled
    → IsKeyed Subscription.id d
    → active_for_tenant tenant_id (insert i s d) ≡ some c
    → c.id ≢ i
cancelled_ends tenant_id i s c d k st h a q =
    let (l, t, au, newest) =
      active_for_tenant_newest tenant_id (insert i s d) (insert-IsKeyed Subscription.id i s d k h) c
        a in
    let same : lookup i (insert i s d) ≡ some c =
      subst (λ j. lookup j (insert i s d) ≡ some c) q l in
    ground (arith, lookup-insert_self i s d, same, au, st)

-- No failure of Mercado Pago stops the cancelling.
cancel_remote-ok :
    (mp : MercadoPago) (asked : Option Text)
    → (warned : Bool) × (cancel_remote mp asked ≡ ok warned)
unfolding cancel_remote caught
cancel_remote-ok mp none = (false, refl)
cancel_remote-ok mp (some i) = elim (Option-cases (mp.cancel_preapproval i)) [
  | inl e ↦ (true, ground arith)
  | inr (u, e) ↦ (false, ground arith)
]

mark_cancelled_any :
    (mp : MercadoPago) (now : ℕ) (s : Subscription) (asked : Option Text) (d : Dict Subscription)
    → mark_cancelled mp now s (cancel_remote mp asked) d
      ≡ update (record s { status = cancelled; updated_at = now }) d
unfolding mark_cancelled
mark_cancelled_any mp now s asked d =
    let (warned, e) = cancel_remote-ok mp asked in ap (λ o. mark_cancelled mp now s o d) e

-- With the rows stored under their ids, cancelling a row of the tenant asks Mercado Pago to cancel its preapproval, if it has one, and
-- whether Mercado Pago accepts or fails, marks the row cancelled and returns it, so that it is
-- current no more. A row that is not the tenant's, or not stored, raises, and nothing is asked or
-- written.
pub cancel_cases :
    (mp : MercadoPago) (now : ℕ) (tenant_id i : Text) (d : Dict Subscription)
    → IsKeyed Subscription.id d
    → let (r, asked, d') = cancel mp now tenant_id i d in
      ((s : Subscription) × (lookup i d ≡ some s)
        × (s.tenant_id ≡ tenant_id)
        × (asked ≡ truthy_id s.mp_preapproval_id)
        × (r ≡ ok (record s { status = cancelled; updated_at = now }))
        × (d' ≡ insert i (record s { status = cancelled; updated_at = now }) d)
        × ((c : Subscription) → active_for_tenant tenant_id d' ≡ some c → c.id ≢ i))
      ⊎ (((s : Subscription) → lookup i d ≡ some s → s.tenant_id ≢ tenant_id)
          × (r ≡ err unknown_subscription)
          × (asked ≡ none)
          × (d' ≡ d))
unfolding cancel
cancel_cases mp now tenant_id i d h = elim (Option-cases (lookup i d)) [
  | inl e ↦ inr (λ s l. cc, ground arith, ground arith, ground arith)
  | inr (s, e) ↦ elim (Bool-cases (is_tenants tenant_id s)) [
    | inr f ↦ inr (
      λ w l. ground (arith, eq_iff s.tenant_id tenant_id),
      ground arith,
      ground arith,
      ground arith,
    )
    | inl f ↦
        let s' : Subscription = record s { status = cancelled; updated_at = now } in
        let k : s.id ≡ i = lookup-key Subscription.id i d {v = s} h e in
        let u : update s' d ≡ (ok s', insert s.id s' d) =
          update_lem s' s d (subst (λ j. lookup j d ≡ some s) (sym k) e) in
        let m : mark_cancelled mp now s (cancel_remote mp (truthy_id s.mp_preapproval_id)) d
            ≡ (ok s', insert i s' d) =
          mark_cancelled_any mp now s (truthy_id s.mp_preapproval_id) d
          ∙ (u ∙ ap (λ j. (ok s', insert j s' d)) k) in
        let w : (cancel mp now tenant_id i d).2 ≡ insert i s' d = ground (arith, m) in
        inl (
          s,
          e,
          (eq_iff s.tenant_id tenant_id).0 f,
          ground arith,
          ground (arith, m),
          w,
          λ c a q.
              let a' : active_for_tenant tenant_id (insert i s' d) ≡ some c = rw (← w) a in
              cancelled_ends tenant_id i s' c d k refl h a' q,
        )
  ]
]
