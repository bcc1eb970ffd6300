-- ===== src/Templates/Unique.antt =====
-- A tenant's templates are unique by name and language.
use wapsell_saas.Prelude.{
  ℕ, ◌≡◌, refl, sym, subst, ap, ◌∙◌, true, Option, none, some, Text, eq_iff, lookup, insert, erase,
  lookup-erase, IsKeyed, insert-IsKeyed, erase-IsKeyed, lookup-key, AtMostOne, AtMostOne-insert,
  find, find-none, values, Result, ok, err, arith, Option-cases, inl, inr,
}
use wapsell_saas.Models.{User, Tenant, MessageTemplate}
use wapsell_saas.Access.{Context, HttpError, assert_tenant_access}
use wapsell_saas.Takeover.{
  Desk, RouteError, conflict, server_error, after_access, guarded_by_access, with_tenant, tenant_of,
}
use wapsell_saas.Templates.Defs.{
  TemplateRepo, TemplateError, is_named, add, update, delete, TemplateCreate, TemplateUpdate,
  patched, owned, new_template, saved, create_template, update_owned, update_template, delete_owned,
  delete_template,
}

pub record IsTemplateStore (d : TemplateRepo) : Type 0 where
  pub keyed : IsKeyed MessageTemplate.id d
  pub names : (t n l : Text) → AtMostOne (is_named t n l) d

-- A row that no other row shares tenant, name and language with.
abbrev IsNew : MessageTemplate → TemplateRepo → Type 0
IsNew t d =
    (j : Text) (w : MessageTemplate)
    → lookup j d ≡ some w
    → is_named t.tenant_id t.name t.language w ≡ true
    → j ≡ t.id

named-fields :
    (t n l : Text) (x : MessageTemplate)
    → is_named t n l x ≡ true
    → (x.tenant_id ≡ t) × (x.name ≡ n) × (x.language ≡ l)
named-fields t n l x h = (
  ground (arith, eq_iff x.tenant_id t),
  ground (arith, eq_iff x.name n),
  ground (arith, eq_iff x.language l),
)

insert-IsTemplateStore :
    (t : MessageTemplate) (d : TemplateRepo)
    → IsTemplateStore d
    → IsNew t d
    → IsTemplateStore (insert t.id t d)
insert-IsTemplateStore t d h new = record {
  keyed = insert-IsKeyed MessageTemplate.id t.id t d refl h.keyed;
  names = λ a n l.
      AtMostOne-insert (is_named a n l) t.id t d (h.names a n l)
        λ j w k pw pt. let (x, y, z) = named-fields a n l t pt in new j w k (rw (x, y, z) pw);
}

erase-IsTemplateStore :
    (id : Text) (d : TemplateRepo) → IsTemplateStore d → IsTemplateStore (erase id d)
erase-IsTemplateStore id d h = record {
  keyed = erase-IsKeyed MessageTemplate.id id d h.keyed;
  names = λ a n l j k v w lj lk pv pw. h.names a n l j k v w (kept j v lj) (kept k w lk) pv pw;
}
  where
    kept : (j : Text) (v : MessageTemplate) → lookup j (erase id d) ≡ some v → lookup j d ≡ some v
    kept j v l = ground (arith, lookup-erase id j d)

add-IsTemplateStore :
    (t : MessageTemplate) (d : TemplateRepo) → IsTemplateStore d → IsTemplateStore (add t d).1
unfolding add
add-IsTemplateStore t d h =
    elim (Option-cases (find (is_named t.tenant_id t.name t.language) (values d))) [
      | inr (x, e) ↦ rw (e, add) h
      | inl e ↦
          rw (e, add)
            (insert-IsTemplateStore t d h (λ j w l p.
              absurd (cc (find-none (is_named t.tenant_id t.name t.language) j d {v = w} e l))))
    ]

update-IsTemplateStore :
    (t old : MessageTemplate) (d : TemplateRepo)
    → IsTemplateStore d
    → lookup t.id d ≡ some old
    → is_named t.tenant_id t.name t.language old ≡ true
    → IsTemplateStore (update t d).1
unfolding update
update-IsTemplateStore t old d h l same =
    rw (l, update)
      (insert-IsTemplateStore t d h
        (λ j w k p. h.names t.tenant_id t.name t.language j t.id w old k l p same))

module _ {A : Type 0} (tenant_id : Text) (c : Context) (d : Desk) where
  -- What the body keeps, the route keeps.
  guarded_by_access-IsTemplateStore :
      (body : Desk → Result RouteError A × Desk)
      → IsTemplateStore d.templates
      → ((e : Desk) → e.templates ≡ d.templates → IsTemplateStore (body e).1.templates)
      → IsTemplateStore (guarded_by_access tenant_id c body d).1.templates
  unfolding guarded_by_access
  guarded_by_access-IsTemplateStore body h k = after (assert_tenant_access tenant_id c d.auth).0
    where
      after :
          (r : Result HttpError (Option User))
          → IsTemplateStore
              (after_access r body
                (record d { auth = (assert_tenant_access tenant_id c d.auth).1 })).1.templates
      after (err e) = h
      after (ok user) = k (record d { auth = (assert_tenant_access tenant_id c d.auth).1 }) refl

  with_tenant-IsTemplateStore :
      (o : Result RouteError Tenant) (body : Tenant → Desk → Result RouteError A × Desk) (e : Desk)
      → IsTemplateStore e.templates
      → ((t : Tenant) → IsTemplateStore (body t e).1.templates)
      → IsTemplateStore (with_tenant o body e).1.templates
  with_tenant-IsTemplateStore (err x) body e h k = h
  with_tenant-IsTemplateStore (ok t) body e h k = k t

saved-IsTemplateStore :
    (x : RouteError) (e : Desk) (r : Result TemplateError MessageTemplate × TemplateRepo)
    → IsTemplateStore e.templates
    → IsTemplateStore r.1
    → IsTemplateStore (saved x e r).1.templates
saved-IsTemplateStore x e (err y, repo) h k = h
saved-IsTemplateStore x e (ok t, repo) h k = k

owned-lookup :
    (tenant_id id : Text) (d : TemplateRepo) (t : MessageTemplate)
    → owned tenant_id id d ≡ some t
    → lookup id d ≡ some t
unfolding owned
owned-lookup tenant_id id d t e = elim (Option-cases (lookup id d)) [
  | inl l ↦ absurd (let z : none ≡ some t = rw (l, owned) at e in cc)
  | inr (x, l) ↦ ground (arith, l)
]

patched_name :
    (now : ℕ) (req : TemplateUpdate) (t : MessageTemplate)
    → req.name ≡ none
    → req.language ≡ none
    → is_named (patched now req t).tenant_id (patched now req t).name (patched now req t).language t
      ≡ true
unfolding patched
patched_name now req t n l =
    rw (n, l)
      (ground
        (arith, eq_iff t.tenant_id t.tenant_id, eq_iff t.name t.name, eq_iff t.language t.language))

-- Creating and deleting a template, and changing one but not its name or language, whatever the
-- answer, keep the templates under their ids and unique by tenant, name and language.
pub routes-IsTemplateStore :
    (id template_id : Text) (now : ℕ) (tenant_id : Text) (created : TemplateCreate)
    (req : TemplateUpdate) (c : Context) (d : Desk)
    → IsTemplateStore d.templates
    → req.name ≡ none
    → req.language ≡ none
    → IsTemplateStore (create_template id now tenant_id created c d).1.templates
      × IsTemplateStore (delete_template tenant_id template_id c d).1.templates
      × IsTemplateStore (update_template now tenant_id template_id req c d).1.templates
unfolding create_template delete_template update_template delete
routes-IsTemplateStore id template_id now tenant_id created req c d h n l = (
  guarded_by_access-IsTemplateStore tenant_id c d _ h (λ e q.
      let k : IsTemplateStore e.templates = subst IsTemplateStore (sym q) h in
      with_tenant-IsTemplateStore tenant_id c d (tenant_of tenant_id e.tenants)
        (λ t f. saved conflict f (add (new_template id now tenant_id created) f.templates)) e k
        (λ t.
          saved-IsTemplateStore conflict e (add (new_template id now tenant_id created) e.templates)
            k (add-IsTemplateStore (new_template id now tenant_id created) e.templates k))),
  guarded_by_access-IsTemplateStore tenant_id c d _ h (λ e q.
      deleted e (owned tenant_id template_id e.templates) (subst IsTemplateStore (sym q) h)),
  guarded_by_access-IsTemplateStore tenant_id c d _ h (λ e q.
      changed e (owned tenant_id template_id e.templates) (subst IsTemplateStore (sym q) h) refl),
)
  where
    deleted :
        (e : Desk) (o : Option MessageTemplate)
        → IsTemplateStore e.templates
        → IsTemplateStore (delete_owned template_id o e).1.templates
    deleted e none k = k
    deleted e (some t) k = erase-IsTemplateStore template_id e.templates k

    changed :
        (e : Desk) (o : Option MessageTemplate)
        → IsTemplateStore e.templates
        → owned tenant_id template_id e.templates ≡ o
        → IsTemplateStore (update_owned now req o e).1.templates
    changed e none k q = k
    changed e (some t) k q =
        let found : lookup template_id e.templates ≡ some t =
          owned-lookup tenant_id template_id e.templates t q in
        let same : t.id ≡ template_id =
          lookup-key MessageTemplate.id template_id e.templates k.keyed found in
        let stored : lookup (patched now req t).id e.templates ≡ some t =
          unfold patched in ap (λ j. lookup j e.templates) same ∙ found in
        saved-IsTemplateStore server_error e (update (patched now req t) e.templates) k (
          update-IsTemplateStore (patched now req t) t e.templates k stored
            (patched_name now req t n l))
