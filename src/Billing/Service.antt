-- ===== src/Billing/Service.antt =====
-- What a subscription to a plan does to the stored subscriptions.
use wapsell_saas.Prelude.{
  ℕ, ◌/◌, ◌%◌, ◌≡◌, some, ◌++◌, Text, codes, Dict, lookup, insert, Result, ok,
}
use wapsell_saas.Billing.Defs.{
  Plan, Subscription, BillingError, update, PreapprovalRequest, MercadoPago, SubscribeResult,
  subscribe,
}

pub update_lem :
    (s w : Subscription) (d : Dict Subscription)
    → lookup s.id d ≡ some w
    → update s d ≡ (ok s, insert s.id s d)
unfolding update
update_lem s w d e = rw (e, update)

module _ (mp : MercadoPago) (back_url id : Text) (now later : ℕ)
    (tenant_id plan_code payer_email : Text) (d : Dict Subscription) where
  abbrev pub outcome : Result BillingError SubscribeResult × Dict Subscription
  outcome = subscribe mp back_url id now later tenant_id plan_code payer_email d

  -- What Mercado Pago is asked for: the plan's name and its price in pesos, the payer, and the id of
  -- the row as the reference.
  abbrev pub order : Plan → PreapprovalRequest
  order plan = record {
    plan_name = codes "Wapsell " ++ plan.name;
    amount_ars = record {
      whole = plan.price_ars_cents / 100;
      hundredths = plan.price_ars_cents % 100;
    };
    payer_email = payer_email;
    external_reference = id;
    back_url = back_url;
  }
