-- ===== src/Tenants/Defs.antt =====
-- The functions of sdk/wapsell/tenant: repository.py (the in-memory adapter), manager.py, router.py,
-- spawner.py and supervisor.py.
use wapsell_saas.Prelude.{
  ℕ, Bool, true, false, Option, none, some, [], ◌∷◌, Text, codes, ◌==◌, is_text, Dict, lookup,
  insert, erase, values, find, Result, ok, err,
}
use wapsell_saas.Models.{TenantStatus, provisioning, active, suspended, Tenant}

pub data TenantError : Type 0 where
  unknown_tenant slug_exists : TenantError

abbrev pub TenantRepo : Type 0
TenantRepo = Dict Tenant

abbrev pub has_slug : Text → Tenant → Bool
has_slug slug t = t.slug == slug

abbrev pub has_phone : Text → Tenant → Bool
has_phone phone t = is_text t.whatsapp_phone_number_id phone

unfoldable pub add : Tenant → TenantRepo → TenantRepo
add t d = insert t.id t d

unfoldable pub by_slug : Text → TenantRepo → Option Tenant
by_slug slug d = find (has_slug slug) (values d)

unfoldable pub by_phone_number_id : Text → TenantRepo → Option Tenant
by_phone_number_id phone d = find (has_phone phone) (values d)

unfoldable pub update : Tenant → TenantRepo → Result TenantError Tenant × TenantRepo
update t d = elim (lookup t.id d) [
  | none ↦ (err unknown_tenant, d)
  | some _ ↦ (ok t, insert t.id t d)
]

-- `model or default_model`
abbrev pub model_or_default : Option Text → Text
model_or_default none = codes "openai/gpt-4o-mini"
model_or_default (some []) = codes "openai/gpt-4o-mini"
model_or_default (some (c ∷ s)) = c ∷ s

-- `TenantManager.create`; `id` and `now` are the model's default identifier and clock reading.
unfoldable pub create :
    Text → ℕ → Text → Text → Option Text → TenantRepo → Result TenantError Tenant × TenantRepo
unfolding by_slug add
create id now name slug model d = elim (by_slug slug d) [
  | some _ ↦ (err slug_exists, d)
  | none ↦
      let t : Tenant = record {
        id = id;
        name = name;
        slug = slug;
        status = provisioning;
        whatsapp_phone_number_id = none;
        model = model_or_default model;
        soul_config = none;
        handoff_config = none;
        created_at = now;
      } in
      (ok t, add t d)
]

-- `TenantManager.get` and `TenantSupervisor._require`
unfoldable pub require : Text → TenantRepo → Result TenantError Tenant
require id d = elim (lookup id d) [ none ↦ err unknown_tenant | some t ↦ ok t ]

-- `TenantRouter.resolve`
unfoldable pub resolve : Text → TenantRepo → Result TenantError Tenant
unfolding by_phone_number_id
resolve phone d = elim (by_phone_number_id phone d) [ none ↦ err unknown_tenant | some t ↦ ok t ]

-- The repository with the spawner's set of running tenants.
pub record Runtime : Type 0 where
  pub repo : TenantRepo
  pub running : Dict (Unit {0})

unfoldable pub is_running : Text → Runtime → Bool
is_running id r = elim (lookup id r.running) [ none ↦ false | some _ ↦ true ]

unfoldable pub spawn : Text → Runtime → Runtime
spawn id r = record r { running = insert id tt r.running }

unfoldable pub stop : Text → Runtime → Runtime
stop id r = record r { running = erase id r.running }

unfoldable pub set_status : TenantStatus → Tenant → Runtime → Result TenantError Tenant × Runtime
unfolding update
set_status status t r =
    let (result, repo') = update (record t { status = status }) r.repo in
    (result, record r { repo = repo' })

unfoldable pub bring_up : Text → Runtime → Result TenantError Tenant × Runtime
unfolding require spawn set_status
bring_up id r = elim (require id r.repo) [
  | err e ↦ (err e, r)
  | ok t ↦ set_status active t (spawn t.id r)
]

unfoldable pub bring_down : Text → Runtime → Result TenantError Tenant × Runtime
unfolding require stop set_status
bring_down id r = elim (require id r.repo) [
  | err e ↦ (err e, r)
  | ok t ↦ set_status suspended t (stop id r)
]

pub record TenantHealth : Type 0 where
  pub tenant_id : Text
  pub status : TenantStatus
  pub running : Bool

unfoldable pub health : Text → Runtime → Result TenantError TenantHealth
unfolding require is_running
health id r = elim (require id r.repo) [
  | err e ↦ err e
  | ok t ↦ ok (record { tenant_id = id; status = t.status; running = is_running id r })
]
