-- ===== src/Onboarding/Flow.antt =====
-- What a run of the onboarding flow does to the tenants, the runtime and the bus.
use wapsell_saas.Prelude.{
  Unicode, ℕ, ◌≡◌, refl, ◌≢◌, sym, ◌∙◌, true, false, none, some, Text, codes, eq_iff, lookup,
  insert, values, find, lookup-insert, lookup-insert_self, insert-insert, find_unique, find-none,
  is_text_self, eq→is_text, Result, ok, err, arith, Option-cases, inl, inr,
}
use wapsell_saas.Models.{active, Tenant}
use wapsell_saas.Tenants.{
  TenantRepo, by_slug, by_phone_number_id, is_running, resolve, has_slug, has_phone,
}
use wapsell_saas.Tenants.Store.{IsStore, IsNew, insert-IsStore}
use wapsell_saas.Tenants.Lifecycle.{created, create_lem, update_lem, bring_up_lem}
use wapsell_saas.Events.{Event, Bus, publish}
use wapsell_saas.Onboarding.Defs.{
  MetaSignupPayload, OnboardingResult, OnboardingError, handler_raised, slugify, System,
  onboarded_event, provision, run,
}
use wapsell_saas.Onboarding.Unique.{unique_slug_total}

-- The row that a run leaves for a new tenant.
abbrev pub onboarded : Text → ℕ → Text → MetaSignupPayload → Tenant
onboarded id now slug p = record {
  id = id;
  name = p.business_name;
  slug = slug;
  status = active;
  whatsapp_phone_number_id = some p.phone_number_id;
  model = codes "openai/gpt-4o-mini";
  soul_config = none;
  handoff_config = none;
  created_at = now;
}

module _ {E : Type 0} (call : ℕ → Event → Bus → Result E (Unit {0}) × Bus) (u : Unicode) (id : Text)
    (now : ℕ) (p : MetaSignupPayload) (s : System) where
  abbrev finish :
      Text → Result E (Unit {0}) × Bus → Result (OnboardingError E) OnboardingResult × System
  finish slug (sent, bus') = (
    elim sent [
      | ok _ ↦ ok (record { tenant = onboarded id now slug p; is_new = true })
      | err x ↦ err (handler_raised x)
    ],
    record {
      runtime = record {
        repo = insert id (onboarded id now slug p) s.runtime.repo;
        running = insert id tt s.runtime.running;
      };
      bus = bus';
    },
  )

  provision_lem :
      (slug : Text)
      → by_slug slug s.runtime.repo ≡ none
      → provision call u id now slug p s
        ≡ finish slug (publish call (onboarded_event (onboarded id now slug p) p now) s.bus)
  unfolding provision
  provision_lem slug e =
      let d : TenantRepo = s.runtime.repo in
      let t : Tenant = created id now p.business_name slug in
      let t' : Tenant = record t { whatsapp_phone_number_id = some p.phone_number_id } in
      let d' : TenantRepo = insert id t d in
      let d'' : TenantRepo = insert id t' d' in
      let up : Tenant = onboarded id now slug p in
      ground (
        arith,
        create_lem id now p.business_name slug d e,
        update_lem t' t d' (lookup-insert_self id t d),
        bring_up_lem id (record s.runtime { repo = d'' }) t' (lookup-insert_self id t' d') refl,
        insert-insert id up t' d',
        insert-insert id up t d,
      )

  -- A number that a tenant has: the run returns the tenant and changes nothing.
  run_known :
      (t : Tenant)
      → resolve p.phone_number_id s.runtime.repo ≡ ok t
      → run call u id now p s ≡ (ok (record { tenant = t; is_new = false }), s)
  run_known t e =
      let found : by_phone_number_id p.phone_number_id s.runtime.repo ≡ some t =
        unfold resolve in ground arith in
      unfold run in rw (found, run)

  run_new :
      by_phone_number_id p.phone_number_id s.runtime.repo ≡ none
      → (slug : Text) × (by_slug slug s.runtime.repo ≡ none)
        × (run call u id now p s
            ≡ finish slug (publish call (onboarded_event (onboarded id now slug p) p now) s.bus))
  unfolding run
  run_new e =
      let (slug, found, fresh) = unique_slug_total (slugify u p.business_name) s.runtime.repo in
      (slug, fresh, rw (e, run, found) (provision_lem slug fresh))

  -- The row of a new tenant clashes with no row, if its id is fresh.
  onboarded-IsNew :
      (slug : Text)
      → by_slug slug s.runtime.repo ≡ none
      → by_phone_number_id p.phone_number_id s.runtime.repo ≡ none
      → IsNew (onboarded id now slug p) s.runtime.repo
  unfolding by_slug by_phone_number_id
  onboarded-IsNew slug fs fp = record {
    slug = λ j w l e.
        cc (find-none (has_slug slug) j s.runtime.repo {v = w} fs l, (eq_iff w.slug slug).1 e);
    phone = λ j w n l e e'. cc (
      find-none (has_phone p.phone_number_id) j s.runtime.repo {v = w} fp l,
      eq→is_text w.whatsapp_phone_number_id p.phone_number_id (e' ∙ sym e),
    );
  }

  -- Every run, whether it finds the number, provisions a tenant or is cut short by a handler that
  -- raises, keeps the rows under their ids and the slugs and phone numbers unique.
  pub run-IsStore : IsStore s.runtime.repo → IsStore (run call u id now p s).1.runtime.repo
  run-IsStore h = elim (Option-cases (by_phone_number_id p.phone_number_id s.runtime.repo)) [
    | inl e ↦
        let (slug, fresh, r) = run_new e in
        rw r
          (insert-IsStore (onboarded id now slug p) s.runtime.repo h (onboarded-IsNew slug fresh e))
    | inr (t, e) ↦ unfold run in rw (e, run) h
  ]

  -- A signup whose number no tenant has: whether or not a handler of the event
  -- raises, the new tenant is active under the payload's name with a slug that was free, its number
  -- resolves to it, its runtime is up, and the other tenants are as they were.
  pub run-onboards :
      IsStore s.runtime.repo
      → by_phone_number_id p.phone_number_id s.runtime.repo ≡ none
      → let s' = (run call u id now p s).1 in
        (slug : Text) × (by_slug slug s.runtime.repo ≡ none)
        × (resolve p.phone_number_id s'.runtime.repo ≡ ok (onboarded id now slug p))
        × (is_running id s'.runtime ≡ true)
        × ((j : Text) → j ≢ id → lookup j s'.runtime.repo ≡ lookup j s.runtime.repo)
  unfolding resolve by_phone_number_id is_running
  run-onboards h e =
      let (slug, fresh, r) = run_new e in
      let d : TenantRepo = s.runtime.repo in
      let t : Tenant = onboarded id now slug p in
      let h' : IsStore (insert id t d) = insert-IsStore t d h (onboarded-IsNew slug fresh e) in
      let seen : find (has_phone p.phone_number_id) (values (insert id t d)) ≡ some t =
        find_unique Tenant.id (has_phone p.phone_number_id) id (insert id t d) {v = t} h'.keyed
          (h'.phones p.phone_number_id) (lookup-insert_self id t d)
          (is_text_self p.phone_number_id) in
      (
        slug,
        fresh,
        rw r (ground (arith, seen)),
        rw r (ground (arith, lookup-insert_self id tt s.runtime.running)),
        λ j ne. rw r (ground (arith, lookup-insert id j t d, eq_iff id j)),
      )

-- Meta's retry of a signup, with any payload of the same number, finds the tenant of the first run
-- and changes nothing, also where a handler raised in the first run.
pub run-run :
    {E : Type 0} (call : ℕ → Event → Bus → Result E (Unit {0}) × Bus) (u : Unicode) (id id' : Text)
    (now now' : ℕ) (p p' : MetaSignupPayload) (s : System)
    → IsStore s.runtime.repo
    → p'.phone_number_id ≡ p.phone_number_id
    → let s' = (run call u id now p s).1 in
      (t : Tenant) × (resolve p.phone_number_id s'.runtime.repo ≡ ok t)
      × (run call u id' now' p' s' ≡ (ok (record { tenant = t; is_new = false }), s'))
run-run call u id id' now now' p p' s h same =
    elim (Option-cases (by_phone_number_id p.phone_number_id s.runtime.repo)) [
      | inl e ↦
          let (slug, fresh, seen, up, others) = run-onboards call u id now p s h e in
          (
            onboarded id now slug p,
            seen,
            run_known call u id' now' p' (run call u id now p s).1 (onboarded id now slug p)
                (rw same seen),
          )
      | inr (t, e) ↦
          let stays : (run call u id now p s).1 ≡ s = unfold run in rw (e, run) in
          let seen : resolve p.phone_number_id (run call u id now p s).1.runtime.repo ≡ ok t =
            rw stays (unfold resolve in rw (e, resolve)) in
          (t, seen, run_known call u id' now' p' (run call u id now p s).1 t (rw same seen))
    ]
