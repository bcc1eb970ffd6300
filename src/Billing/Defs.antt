-- ===== src/Billing/Defs.antt =====
-- The functions of sdk/wapsell/billing: plans.py, models.py, repository.py (the in-memory adapter)
-- and service.py. `MercadoPago` is the API that the adapter reaches over HTTP.
use wapsell_saas.Prelude.{
  ℕ, ◌/◌, ◌%◌, Bool, true, false, Option, none, some, List, [], ◌∷◌, ◌++◌, Text, codes, ◌==◌,
  is_text, Dict, lookup, insert, values, find, filter, sort_desc, Result, ok, err, if◌then◌else◌,
}

pub record Plan : Type 0 where
  pub code : Text
  pub name : Text
  pub price_ars_cents : ℕ
  pub message_limit_monthly : ℕ
  pub tenant_limit : ℕ
  pub phone_number_limit : ℕ

unfoldable pub plans : List Plan
plans =
    record {
      code = codes "STARTER";
      name = codes "Starter";
      price_ars_cents = 2_900_000;
      message_limit_monthly = 1_000;
      tenant_limit = 1;
      phone_number_limit = 1;
    }
    ∷ record {
      code = codes "PRO";
      name = codes "Pro";
      price_ars_cents = 9_900_000;
      message_limit_monthly = 10_000;
      tenant_limit = 3;
      phone_number_limit = 3;
    }
    ∷ record {
      code = codes "ENTERPRISE";
      name = codes "Enterprise";
      price_ars_cents = 49_900_000;
      message_limit_monthly = 10_000_000;
      tenant_limit = 1000;
      phone_number_limit = 1000;
    }
    ∷ []

unfoldable pub get_plan : Text → Option Plan
unfolding plans
get_plan code = find (λ p. p.code == code) plans

pub data SubscriptionStatus : Type 0 where
  pending authorized paused cancelled : SubscriptionStatus

-- `SubscriptionStatus(raw)`; `none` is its `ValueError`.
unfoldable pub to_status : Text → Option SubscriptionStatus
to_status raw =
    if raw == codes "pending"
    then some pending
    else if raw == codes "authorized"
    then some authorized
    else if raw == codes "paused"
    then some paused
    else if raw == codes "cancelled"
    then some cancelled
    else none

pub record Subscription : Type 0 where
  pub id : Text
  pub tenant_id : Text
  pub plan_code : Text
  pub status : SubscriptionStatus
  pub mp_preapproval_id : Option Text
  pub mp_init_point : Option Text
  pub payer_email : Option Text
  pub started_at : Option ℕ
  pub current_period_end : Option ℕ
  pub created_at : ℕ
  pub updated_at : ℕ

abbrev pub is_authorized : Subscription → Bool
is_authorized s = elim s.status [ authorized ↦ true | _ ↦ false ]

abbrev pub has_preapproval : Text → Subscription → Bool
has_preapproval preapproval_id s = is_text s.mp_preapproval_id preapproval_id

-- What a tenant pays by: `next(s for s in ... if s.status == AUTHORIZED)` over the tenant's rows.
abbrev pub is_tenants : Text → Subscription → Bool
is_tenants tenant_id s = s.tenant_id == tenant_id

pub data BillingError : Type 0 where
  unknown_plan conflict mp_error unknown_subscription : BillingError

unfoldable pub get_by_preapproval_id : Text → Dict Subscription → Option Subscription
get_by_preapproval_id preapproval_id d = find (has_preapproval preapproval_id) (values d)

unfoldable pub list_for : Text → Dict Subscription → List Subscription
unfolding sort_desc
list_for tenant_id d = sort_desc Subscription.created_at (filter (is_tenants tenant_id) (values d))

unfoldable pub active_for_tenant : Text → Dict Subscription → Option Subscription
unfolding list_for
active_for_tenant tenant_id d = find is_authorized (list_for tenant_id d)

unfoldable pub update :
    Subscription → Dict Subscription → Result BillingError Subscription × Dict Subscription
update s d = elim (lookup s.id d) [
  | none ↦ (err unknown_subscription, d)
  | some _ ↦ (ok s, insert s.id s d)
]

-- An amount in pesos, as its whole pesos and its hundredths.
pub record Amount : Type 0 where
  pub whole : ℕ
  pub hundredths : ℕ

-- `price_ars_cents / 100.0`; the float is exact for the plans, whose prices are whole pesos.
unfoldable pub price_ars : Plan → Amount
price_ars p = record { whole = p.price_ars_cents / 100; hundredths = p.price_ars_cents % 100 }

pub record PreapprovalRequest : Type 0 where
  pub plan_name : Text
  pub amount_ars : Amount
  pub payer_email : Text
  pub external_reference : Text
  pub back_url : Text

pub record PreapprovalResult : Type 0 where
  pub preapproval_id : Text
  pub init_point : Text

-- A member of the JSON object that Mercado Pago returns.
pub data Json : Type 0 where
  missing : Json
  text : Text → Json
  other : (truthy : Bool) → Json

pub record PreapprovalState : Type 0 where
  pub status : Text
  pub next_payment_date : Json
  pub date_of_expiration : Json

-- `none` is a `MercadoPagoError`. The status is that of `str(data.get("status", "")).lower()`, and
-- `parse_time` is `datetime.fromisoformat` after the suffix `Z` is spelled out.
pub record MercadoPago : Type 0 where
  pub create_preapproval : PreapprovalRequest → Option PreapprovalResult
  pub cancel_preapproval : Text → Option (Unit {0})
  pub get_preapproval : Text → Option PreapprovalState
  pub parse_time : Text → Option ℕ

abbrev pub is_truthy : Json → Bool
is_truthy missing = false
is_truthy (text []) = false
is_truthy (text (c ∷ s)) = true
is_truthy (other b) = b

unfoldable pub period_end : (Text → Option ℕ) → PreapprovalState → Option ℕ → Option ℕ
period_end parse_time state old =
    elim (if is_truthy state.next_payment_date
      then state.next_payment_date
      else state.date_of_expiration) [
        | text t ↦ elim (parse_time t) [ none ↦ old | some at ↦ some at ]
        | _ ↦ old
      ]

pub record SubscribeResult : Type 0 where
  pub subscription : Subscription
  pub init_point : Text

-- `if subscription.mp_preapproval_id`
abbrev pub truthy_id : Option Text → Option Text
truthy_id none = none
truthy_id (some []) = none
truthy_id (some (c ∷ s)) = some (c ∷ s)

abbrev pub request : Text → Plan → Subscription → PreapprovalRequest
request back_url plan s = record {
  plan_name = codes "Wapsell " ++ plan.name;
  amount_ars = price_ars plan;
  payer_email = (elim s.payer_email [ none ↦ [] | some e ↦ e ]);
  external_reference = s.id;
  back_url = back_url;
}

module _ (mp : MercadoPago) where
  -- The call of the API, which raises its `MercadoPagoError`.
  abbrev pub call_cancel : Text → Result BillingError (Unit {0})
  call_cancel preapproval_id = elim (mp.cancel_preapproval preapproval_id) [
    | none ↦ err mp_error
    | some u ↦ ok u
  ]

  -- `except MercadoPagoError`: whether the warning was logged. Another exception would go on.
  unfoldable pub caught : Result BillingError (Unit {0}) → Result BillingError Bool
  caught (ok u) = ok false
  caught (err mp_error) = ok true
  caught (err unknown_plan) = err unknown_plan
  caught (err conflict) = err conflict
  caught (err unknown_subscription) = err unknown_subscription

  unfoldable pub cancel_remote : Option Text → Result BillingError Bool
  unfolding caught
  cancel_remote none = ok false
  cancel_remote (some preapproval_id) = caught (call_cancel preapproval_id)

  unfoldable pub mark_cancelled :
      ℕ
      → Subscription
      → Result BillingError Bool
      → Dict Subscription
      → Result BillingError Subscription × Dict Subscription
  unfolding update
  mark_cancelled now s (err e) d = (err e, d)
  mark_cancelled now s (ok warned) d = update (record s { status = cancelled; updated_at = now }) d

  -- The second part is the preapproval that Mercado Pago was asked to cancel, if any.
  unfoldable pub cancel :
      ℕ
      → Text
      → Text
      → Dict Subscription
      → Result BillingError Subscription × Option Text × Dict Subscription
  unfolding mark_cancelled cancel_remote
  cancel now tenant_id subscription_id d = elim (lookup subscription_id d) [
    | none ↦ (err unknown_subscription, none, d)
    | some s ↦
        let asked : Option Text = truthy_id s.mp_preapproval_id in
        let (r, d') = mark_cancelled now s (cancel_remote asked) d in
        if is_tenants tenant_id s then (r, asked, d') else (err unknown_subscription, none, d)
  ]

  -- The pending row is stored before Mercado Pago is asked, and stays if the request fails.
  unfoldable pub create_preapproval :
      Text
      → Plan
      → Subscription
      → ℕ
      → Dict Subscription
      → Result BillingError SubscribeResult × Dict Subscription
  unfolding update
  create_preapproval back_url plan s later d =
      let d' : Dict Subscription = insert s.id s d in
      elim (mp.create_preapproval (request back_url plan s)) [
        | none ↦ (err mp_error, d')
        | some r ↦
            let s' : Subscription = record s {
              mp_preapproval_id = some r.preapproval_id;
              mp_init_point = some r.init_point;
              updated_at = later;
            } in
            let (u, d'') = update s' d' in
            (
              elim u [
                | err e ↦ err e
                | ok _ ↦ ok (record { subscription = s'; init_point = r.init_point })
              ],
              d'',
            )
      ]

  unfoldable pub subscribe :
      Text
      → Text
      → ℕ
      → ℕ
      → Text
      → Text
      → Text
      → Dict Subscription
      → Result BillingError SubscribeResult × Dict Subscription
  subscribe back_url id now later tenant_id plan_code payer_email d = elim (get_plan plan_code) [
    | none ↦ (err unknown_plan, d)
    | some plan ↦ elim (active_for_tenant tenant_id d) [
      | some _ ↦ (err conflict, d)
      | none ↦
          create_preapproval back_url plan
            (record {
              id = id;
              tenant_id = tenant_id;
              plan_code = plan.code;
              status = pending;
              mp_preapproval_id = none;
              mp_init_point = none;
              payer_email = some payer_email;
              started_at = none;
              current_period_end = none;
              created_at = now;
              updated_at = now;
            })
            later d
    ]
  ]

  unfoldable pub patched : ℕ → SubscriptionStatus → PreapprovalState → Subscription → Subscription
  unfolding period_end
  patched now status state s = record s {
    status = status;
    started_at = (elim status [
      | authorized ↦ elim s.started_at [ none ↦ some now | some t ↦ some t ]
      | _ ↦ s.started_at
    ]);
    current_period_end = period_end mp.parse_time state s.current_period_end;
    updated_at = now;
  }

  -- `none` where the webhook names no subscription or Mercado Pago cannot be reached.
  unfoldable pub reconcile_from_webhook :
      ℕ → Text → Dict Subscription → Result BillingError (Option Subscription) × Dict Subscription
  unfolding get_by_preapproval_id to_status patched update
  reconcile_from_webhook now preapproval_id d = elim (get_by_preapproval_id preapproval_id d) [
    | none ↦ (ok none, d)
    | some s ↦ elim (mp.get_preapproval preapproval_id) [
      | none ↦ (ok none, d)
      | some state ↦ elim (to_status state.status) [
        | none ↦ (ok (some s), d)
        | some status ↦
            let (u, d') = update (patched now status state s) d in
            (elim u [ err e ↦ err e | ok s' ↦ ok (some s') ], d')
      ]
    ]
  ]
