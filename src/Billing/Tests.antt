-- ===== src/Billing/Tests.antt =====
-- A tenant with one authorized row, and a Mercado Pago that answers every call alike, and
-- never cancels.
use wapsell_saas.Prelude.{
  ◌≡◌, ◌≢◌, ◌≤◌, ◌⊎◌, refl, none, some, [], ◌∷◌, Text, codes, ◌==◌, Dict, lookup, insert, IsKeyed,
  ok, err,
}
use wapsell_saas.Billing.Defs.{
  SubscriptionStatus, pending, authorized, cancelled, to_status, Subscription, unknown_subscription,
  get_by_preapproval_id, active_for_tenant, truthy_id, missing, PreapprovalState, MercadoPago,
  cancel, reconcile_from_webhook,
}
use wapsell_saas.Billing.Current.{active_for_tenant_newest}
use wapsell_saas.Billing.Reconciled.{IsPatched, reconcile_cases}
use wapsell_saas.Billing.Cancelled.{cancel_cases}

abbrev row : SubscriptionStatus → Subscription
row status = record {
  id = codes "s1";
  tenant_id = codes "t1";
  plan_code = codes "PRO";
  status = status;
  mp_preapproval_id = some (codes "mp1");
  mp_init_point = none;
  payer_email = none;
  started_at = none;
  current_period_end = none;
  created_at = 3;
  updated_at = 3;
}

abbrev rows : SubscriptionStatus → Dict Subscription
rows status = (codes "s1", row status) ∷ []

rows-IsKeyed : (status : SubscriptionStatus) → IsKeyed Subscription.id (rows status)
unfolding lookup
rows-IsKeyed status = (refl, refl, tt)

abbrev state : PreapprovalState
state = record {
  status = codes "authorized";
  next_payment_date = missing;
  date_of_expiration = missing;
}

abbrev api : MercadoPago
api = record {
  create_preapproval =
      λ r. some (record { preapproval_id = codes "mp2"; init_point = codes "url" });
  cancel_preapproval = λ i. none;
  get_preapproval = λ i. some state;
  parse_time = λ t. none;
}

abbrev back : Text
back = codes "https://wapsell.test"

reconcile_cases_example :
    let out = reconcile_from_webhook api 9 (codes "mp1") (rows pending) in
    (((get_by_preapproval_id (codes "mp1") (rows pending) ≡ none)
        ⊎ (api.get_preapproval (codes "mp1") ≡ none))
      × (out ≡ (ok none, rows pending)))
    ⊎ ((s : Subscription) × (state : PreapprovalState) × (get_by_preapproval_id
            (codes "mp1")
            (rows pending)
          ≡ some s)
        × (api.get_preapproval (codes "mp1") ≡ some state)
        × (((to_status state.status ≡ none) × (out ≡ (ok (some s), rows pending)))
            ⊎ ((status : SubscriptionStatus) × (s' : Subscription) × (to_status state.status
                  ≡ some status)
                × (out ≡ (ok (some s'), insert s.id s' (rows pending)))
                × IsPatched api 9 (codes "mp1") (rows pending) s state status s')))
reconcile_cases_example = reconcile_cases api 9 (codes "mp1") (rows pending) (rows-IsKeyed pending)

cancel_cases_example :
    ((s : Subscription) × (lookup (codes "s1") (rows authorized) ≡ some s)
      × (s.tenant_id ≡ codes "t1")
      × ((cancel api 9 (codes "t1") (codes "s1") (rows authorized)).1
          ≡ truthy_id s.mp_preapproval_id)
      × ((cancel api 9 (codes "t1") (codes "s1") (rows authorized)).0
          ≡ ok (record s { status = cancelled; updated_at = 9 }))
      × ((cancel api 9 (codes "t1") (codes "s1") (rows authorized)).2
          ≡ insert (codes "s1") (record s { status = cancelled; updated_at = 9 }) (rows authorized))
      × ((c : Subscription)
          → active_for_tenant
              (codes "t1")
              (cancel api 9 (codes "t1") (codes "s1") (rows authorized)).2
            ≡ some c
          → c.id ≢ codes "s1"))
    ⊎ (((s : Subscription)
          → lookup (codes "s1") (rows authorized) ≡ some s
          → s.tenant_id ≢ codes "t1")
        × ((cancel api 9 (codes "t1") (codes "s1") (rows authorized)).0 ≡ err unknown_subscription)
        × ((cancel api 9 (codes "t1") (codes "s1") (rows authorized)).1 ≡ none)
        × ((cancel api 9 (codes "t1") (codes "s1") (rows authorized)).2 ≡ rows authorized))
cancel_cases_example =
    cancel_cases api 9 (codes "t1") (codes "s1") (rows authorized) (rows-IsKeyed authorized)

current : active_for_tenant (codes "t1") (rows authorized) ≡ some (row authorized)
unfolding active_for_tenant ◌==◌
current = refl

active_for_tenant_newest_example :
    (lookup (codes "s1") (rows authorized) ≡ some (row authorized))
    × (codes "t1" ≡ codes "t1")
    × (authorized ≡ authorized)
    × ((k : Text) (w : Subscription)
        → lookup k (rows authorized) ≡ some w
        → w.tenant_id ≡ codes "t1"
        → w.status ≡ authorized
        → w.created_at ≤ 3)
active_for_tenant_newest_example =
    active_for_tenant_newest (codes "t1") (rows authorized) (rows-IsKeyed authorized)
      (row authorized) current
