-- ===== src/Templates/Defs.antt =====
-- `InMemoryTemplateRepository` of sdk/wapsell/templates/repository.py, whose `get` is `lookup`, and the
-- template routes of services/api/main.py. The routes give the stored row, which the responses
-- show with its instants in ISO format.
use wapsell_saas.Prelude.{
  ℕ, Bool, true, false, ◌&&◌, Option, none, some, List, Text, ◌==◌, Dict, lookup, insert, erase,
  find, filter, values, sort_desc, Result, ok, err, if◌then◌else◌,
}
use wapsell_saas.Models.{
  MessageTemplate, TemplateStatus, TemplateCategory, draft, submitted, approved,
}
use wapsell_saas.Access.{Context}
use wapsell_saas.Takeover.{
  Desk, RouteError, not_found, conflict, server_error, guarded_by_access, with_tenant, tenant_of,
}

abbrev pub TemplateRepo : Type 0
TemplateRepo = Dict MessageTemplate

-- The ValueError of `add` and the KeyError of `update`.
pub data TemplateError : Type 0 where
  duplicate unknown_template : TemplateError

abbrev pub is_named : Text → Text → Text → MessageTemplate → Bool
is_named tenant_id name language t =
    t.tenant_id == tenant_id && (t.name == name && t.language == language)

unfoldable pub add :
    MessageTemplate → TemplateRepo → Result TemplateError MessageTemplate × TemplateRepo
add t d = elim (find (is_named t.tenant_id t.name t.language) (values d)) [
  | some existing ↦ (err duplicate, d)
  | none ↦ (ok t, insert t.id t d)
]

unfoldable pub list_for : Text → TemplateRepo → List MessageTemplate
unfolding sort_desc
list_for tenant_id d =
    sort_desc MessageTemplate.created_at (filter (λ t. t.tenant_id == tenant_id) (values d))

unfoldable pub update :
    MessageTemplate → TemplateRepo → Result TemplateError MessageTemplate × TemplateRepo
update t d = elim (lookup t.id d) [
  | none ↦ (err unknown_template, d)
  | some old ↦ (ok t, insert t.id t d)
]

-- Whether there was a row, and the rows without it.
unfoldable pub delete : Text → TemplateRepo → Bool × TemplateRepo
unfolding erase
delete id d = (elim (lookup id d) [ none ↦ false | some t ↦ true ], erase id d)

pub record TemplateCreate : Type 0 where
  pub name : Text
  pub body : Text
  pub language : Text
  pub category : TemplateCategory

pub record TemplateUpdate : Type 0 where
  pub name : Option Text
  pub body : Option Text
  pub language : Option Text
  pub category : Option TemplateCategory
  pub status : Option TemplateStatus
  pub vendor_template_id : Option Text
  pub rejection_reason : Option Text

-- `req.x if req.x is not None else template.x`
abbrev pub or_old {ℓ} : {A : Type ℓ} → Option A → A → A
or_old none old = old
or_old (some x) old = x

abbrev pub or_kept : Option Text → Option Text → Option Text
or_kept none old = old
or_kept (some x) old = some x

-- The instant of a status, which is set the first time.
abbrev pub stamp_submitted : ℕ → Option TemplateStatus → Option ℕ → Option ℕ
stamp_submitted now (some submitted) none = some now
stamp_submitted now status old = old

abbrev pub stamp_approved : ℕ → Option TemplateStatus → Option ℕ → Option ℕ
stamp_approved now (some approved) none = some now
stamp_approved now status old = old

unfoldable pub patched : ℕ → TemplateUpdate → MessageTemplate → MessageTemplate
patched now req t = record t {
  name = or_old req.name t.name;
  body = or_old req.body t.body;
  language = or_old req.language t.language;
  category = or_old req.category t.category;
  status = or_old req.status t.status;
  submitted_at = stamp_submitted now req.status t.submitted_at;
  approved_at = stamp_approved now req.status t.approved_at;
  vendor_template_id = or_kept req.vendor_template_id t.vendor_template_id;
  rejection_reason = or_kept req.rejection_reason t.rejection_reason;
}

-- A template of the tenant.
unfoldable pub owned : Text → Text → TemplateRepo → Option MessageTemplate
owned tenant_id id d = elim (lookup id d) [
  | none ↦ none
  | some t ↦ if t.tenant_id == tenant_id then some t else none
]

unfoldable pub list_templates :
    Text → Context → Desk → Result RouteError (List MessageTemplate) × Desk
unfolding guarded_by_access tenant_of list_for
list_templates tenant_id c d =
    guarded_by_access tenant_id c
      (λ e.
        with_tenant (tenant_of tenant_id e.tenants)
          (λ t f. (ok (list_for tenant_id f.templates), f)) e)
      d

abbrev pub new_template : Text → ℕ → Text → TemplateCreate → MessageTemplate
new_template id now tenant_id req = record {
  id = id;
  tenant_id = tenant_id;
  name = req.name;
  language = req.language;
  category = req.category;
  body = req.body;
  status = draft;
  vendor_template_id = none;
  rejection_reason = none;
  created_at = now;
  submitted_at = none;
  approved_at = none;
}

-- The answer to a write of the repository, `e` being the status code of its error.
abbrev pub saved :
    RouteError
    → Desk
    → Result TemplateError MessageTemplate × TemplateRepo
    → Result RouteError MessageTemplate × Desk
saved e d (err x, repo) = (err e, d)
saved e d (ok t, repo) = (ok t, record d { templates = repo })

unfoldable pub create_template :
    Text → ℕ → Text → TemplateCreate → Context → Desk → Result RouteError MessageTemplate × Desk
unfolding guarded_by_access tenant_of add
create_template id now tenant_id req c d =
    guarded_by_access tenant_id c
      (λ e.
        with_tenant (tenant_of tenant_id e.tenants)
          (λ t f. saved conflict f (add (new_template id now tenant_id req) f.templates)) e)
      d

abbrev pub update_owned :
    ℕ → TemplateUpdate → Option MessageTemplate → Desk → Result RouteError MessageTemplate × Desk
update_owned now req none d = (err not_found, d)
update_owned now req (some t) d = saved server_error d (update (patched now req t) d.templates)

unfoldable pub update_template :
    ℕ → Text → Text → TemplateUpdate → Context → Desk → Result RouteError MessageTemplate × Desk
unfolding guarded_by_access owned update patched
update_template now tenant_id id req c d =
    guarded_by_access tenant_id c (λ e. update_owned now req (owned tenant_id id e.templates) e) d

abbrev pub delete_owned : Text → Option MessageTemplate → Desk → Result RouteError (Unit {0}) × Desk
delete_owned id none d = (err not_found, d)
delete_owned id (some t) d = (ok tt, record d { templates = (delete id d.templates).1 })

unfoldable pub delete_template : Text → Text → Context → Desk → Result RouteError (Unit {0}) × Desk
unfolding guarded_by_access owned delete
delete_template tenant_id id c d =
    guarded_by_access tenant_id c (λ e. delete_owned id (owned tenant_id id e.templates) e) d
