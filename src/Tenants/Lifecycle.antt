-- ===== src/Tenants/Lifecycle.antt =====
-- What the manager and the supervisor leave behind.
use wapsell_saas.Prelude.{ℕ, ◌≡◌, none, some, Text, codes, lookup, insert, ok, arith}
use wapsell_saas.Models.{TenantStatus, provisioning, active, Tenant}
use wapsell_saas.Tenants.Defs.{TenantRepo, Runtime, by_slug, create, update, bring_up}

abbrev pub created : Text → ℕ → Text → Text → Tenant
created id now name slug = record {
  id = id;
  name = name;
  slug = slug;
  status = provisioning;
  whatsapp_phone_number_id = none;
  model = codes "openai/gpt-4o-mini";
  soul_config = none;
  handoff_config = none;
  created_at = now;
}

abbrev pub with_status : TenantStatus → Tenant → Tenant
with_status status t = record t { status = status }

pub create_lem :
    (id : Text) (now : ℕ) (name slug : Text) (d : TenantRepo)
    → by_slug slug d ≡ none
    → create id now name slug none d
      ≡ (ok (created id now name slug), insert id (created id now name slug) d)
unfolding create
create_lem id now name slug d e = rw (e, create)

pub update_lem :
    (t w : Tenant) (d : TenantRepo) → lookup t.id d ≡ some w → update t d ≡ (ok t, insert t.id t d)
unfolding update
update_lem t w d e = rw (e, update)

pub bring_up_lem :
    (id : Text) (r : Runtime) (t : Tenant)
    → lookup id r.repo ≡ some t
    → t.id ≡ id
    → bring_up id r ≡ (
      ok (with_status active t),
      record { repo = insert id (with_status active t) r.repo; running = insert id tt r.running },
    )
unfolding bring_up
bring_up_lem id r t e k = ground arith
