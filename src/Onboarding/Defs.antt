-- ===== src/Onboarding/Defs.antt =====
-- The functions of sdk/wapsell/onboarding/flow.py.
use wapsell_saas.Prelude.{
  Unicode, ℕ, zero, suc, ◌+◌, Bool, true, false, ◌&&◌, ◌||◌, Option, none, some, [], ◌∷◌, ◌++◌,
  Text, codes, strip_by, filter, length, values, Result, ok, err, str, nat_eq, leb, map,
  if◌then◌else◌,
}
use wapsell_saas.Models.{Tenant}
use wapsell_saas.Tenants.{
  TenantError, TenantRepo, Runtime, by_slug, by_phone_number_id, create, update, bring_up,
}
use wapsell_saas.Events.{Event, Bus, publish}

pub record MetaSignupPayload : Type 0 where
  pub phone_number_id : Text
  pub business_name : Text
  pub waba_id : Option Text
  pub business_id : Option Text

pub record OnboardingResult : Type 0 where
  pub tenant : Tenant
  pub is_new : Bool

pub data OnboardingError (E : Type 0) : Type 0 where
  create_failed : TenantError → OnboardingError E
  tenant_error : TenantError → OnboardingError E
  handler_raised : E → OnboardingError E
  no_slug : OnboardingError E

abbrev pub is_hyphen : ℕ → Bool
is_hyphen c = nat_eq c b'-'

-- `[a-z0-9-]`
abbrev pub is_slug_char : ℕ → Bool
is_slug_char c = (leb b'a' c && leb c b'z') || (leb b'0' c && leb c b'9') || is_hyphen c

abbrev pub space_to_hyphen : ℕ → ℕ
space_to_hyphen c = if nat_eq c b' ' then b'-' else c

abbrev pub starts_with_hyphen : Text → Bool
starts_with_hyphen [] = false
starts_with_hyphen (c ∷ s) = is_hyphen c

-- `_HYPHEN_RUN.sub("-", base)`
unfoldable pub collapse : Text → Text
collapse [] = []
collapse (c ∷ s) =
    let rest = collapse s in if is_hyphen c && starts_with_hyphen s then rest else c ∷ rest

abbrev pub or_tenant : Text → Text
or_tenant [] = codes "tenant"
or_tenant (c ∷ s) = c ∷ s

unfoldable pub slugify : Unicode → Text → Text
unfolding collapse strip_by
slugify u name =
    let base = map space_to_hyphen (u.lower (strip_by u.is_space name)) in
    or_tenant (strip_by is_hyphen (collapse (filter is_slug_char base)))

-- The loop of `_unique_slug` on fuel; `none` means that the fuel ran out.
unfoldable pub try_slugs : ℕ → Text → Text → ℕ → TenantRepo → Option Text
try_slugs zero base candidate suffix d = none
try_slugs (suc fuel) base candidate suffix d =
    let next = try_slugs fuel base (base ++ (codes "-" ++ str suffix)) (suffix + 1) d in
    elim (by_slug candidate d) [ none ↦ some candidate | some _ ↦ next ]

unfoldable pub unique_slug : Text → TenantRepo → Option Text
unfolding try_slugs
unique_slug base d = try_slugs (suc (length (values d))) base base 2 d

-- What the flow reads and writes: the tenants with their runtime, and the bus.
pub record System : Type 0 where
  pub runtime : Runtime
  pub bus : Bus

unfoldable pub onboarded_event : Tenant → MetaSignupPayload → ℕ → Event
onboarded_event t p now = record {
  type = codes "tenant.onboarded";
  payload =
      (codes "tenant_id", some t.id)
      ∷ (codes "slug", some t.slug)
      ∷ (codes "phone_number_id", some p.phone_number_id)
      ∷ (codes "business_name", some p.business_name)
      ∷ (codes "waba_id", p.waba_id)
      ∷ (codes "business_id", p.business_id)
      ∷ [];
  at = now;
}

module _ {E : Type 0} (call : ℕ → Event → Bus → Result E (Unit {0}) × Bus) (u : Unicode) (id : Text)
    (now : ℕ) where
  -- Steps 6 and 7: bring the tenant up, then publish.
  unfoldable pub launch :
      Tenant → MetaSignupPayload → System → Result (OnboardingError E) OnboardingResult × System
  launch t p s =
      let (up, runtime') = bring_up t.id s.runtime in
      elim up [
        | err e ↦ (err (tenant_error e), record s { runtime = runtime' })
        | ok t' ↦
            let (sent, bus') = publish call (onboarded_event t' p now) s.bus in
            let s' : System = record { runtime = runtime'; bus = bus' } in
            elim sent [
              | err x ↦ (err (handler_raised x), s')
              | ok _ ↦ (ok (record { tenant = t'; is_new = true }), s')
            ]
      ]

  -- Steps 3 to 5: create the tenant under the slug, then set its phone number.
  unfoldable pub provision :
      Text → MetaSignupPayload → System → Result (OnboardingError E) OnboardingResult × System
  unfolding launch
  provision slug p s =
      let (created, repo') = create id now p.business_name slug none s.runtime.repo in
      elim created [
        | err e ↦ (err (create_failed e), s)
        | ok t ↦
            let (updated, repo'') =
              update (record t { whatsapp_phone_number_id = some p.phone_number_id }) repo' in
            let s' : System = record s { runtime = record s.runtime { repo = repo'' } } in
            elim updated [ err e ↦ (err (tenant_error e), s') | ok t' ↦ launch t' p s' ]
      ]

  -- `OnboardingFlow.run`. The SOUL rendered in step 5 is thrown away, so it leaves no trace here.
  unfoldable pub run :
      MetaSignupPayload → System → Result (OnboardingError E) OnboardingResult × System
  unfolding provision unique_slug
  run p s = elim (by_phone_number_id p.phone_number_id s.runtime.repo) [
    | some t ↦ (ok (record { tenant = t; is_new = false }), s)
    | none ↦ elim (unique_slug (slugify u p.business_name) s.runtime.repo) [
      | none ↦ (err no_slug, s)
      | some slug ↦ provision slug p s
    ]
  ]
