-- ===== src/Onboarding/Tests.antt =====
-- A signup on an empty system, with a handler that raises.
use wapsell_saas.Prelude.{
  ℕ, ◌≡◌, ◌≢◌, refl, true, false, none, some, [], ◌∷◌, Text, Unicode, codes, nil-AtMostOne, lookup,
  Result, ok, err,
}
use wapsell_saas.Models.{Tenant}
use wapsell_saas.Tenants.{by_slug, by_phone_number_id, resolve, is_running}
use wapsell_saas.Tenants.Store.{IsStore}
use wapsell_saas.Events.{Event, Bus}
use wapsell_saas.Onboarding.Defs.{MetaSignupPayload, System, slugify, unique_slug, run}
use wapsell_saas.Onboarding.Slug.{IsSlug, slugify-IsSlug}
use wapsell_saas.Onboarding.Unique.{unique_slug_total}
use wapsell_saas.Onboarding.Flow.{onboarded, run-IsStore, run-onboards, run-run}

abbrev ascii : Unicode
ascii = record { lower = λ s. s; is_space = λ c. false }

slugify-IsSlug_example : IsSlug (slugify ascii (codes "--tienda  de ropa--"))
slugify-IsSlug_example = slugify-IsSlug ascii (codes "--tienda  de ropa--")

abbrev payload : Text → MetaSignupPayload
payload name = record {
  phone_number_id = codes "555";
  business_name = name;
  waba_id = none;
  business_id = none;
}

abbrev raising : ℕ → Event → Bus → Result ℕ (Unit {0}) × Bus
raising h e b = (err h, b)

abbrev empty : System
empty = record {
  runtime = record { repo = []; running = [] };
  bus = record { events = []; handlers = 1 ∷ [] };
}

empty-IsStore : IsStore []
empty-IsStore = record { keyed = tt; slugs = λ s. nil-AtMostOne _; phones = λ s. nil-AtMostOne _ }

unique_slug_total_example :
    (s : Text) × (unique_slug (codes "tienda") [] ≡ some s) × (by_slug s [] ≡ none)
unique_slug_total_example = unique_slug_total (codes "tienda") []

run-IsStore_example :
    IsStore (run raising ascii (codes "t1") 5 (payload (codes "tienda")) empty).1.runtime.repo
run-IsStore_example =
    run-IsStore raising ascii (codes "t1") 5 (payload (codes "tienda")) empty empty-IsStore

free : by_phone_number_id (codes "555") [] ≡ none
unfolding by_phone_number_id
free = refl

run-onboards_example :
    (slug : Text) × (by_slug slug [] ≡ none)
    × (resolve
          (codes "555")
          (run raising ascii (codes "t1") 5 (payload (codes "tienda")) empty).1.runtime.repo
        ≡ ok (onboarded (codes "t1") 5 slug (payload (codes "tienda"))))
    × (is_running
          (codes "t1")
          (run raising ascii (codes "t1") 5 (payload (codes "tienda")) empty).1.runtime
        ≡ true)
    × ((j : Text)
        → j ≢ codes "t1"
        → lookup j
            (run raising ascii (codes "t1") 5 (payload (codes "tienda")) empty).1.runtime.repo
          ≡ lookup j [])
run-onboards_example =
    run-onboards raising ascii (codes "t1") 5 (payload (codes "tienda")) empty empty-IsStore free

run-run_example :
    (t : Tenant) × (resolve
        (codes "555")
        (run raising ascii (codes "t1") 5 (payload (codes "tienda")) empty).1.runtime.repo
      ≡ ok t)
    × (run raising ascii
          (codes "t2")
          8
          (payload (codes "otra"))
          (run raising ascii (codes "t1") 5 (payload (codes "tienda")) empty).1
        ≡ (
          ok (record { tenant = t; is_new = false }),
          (run raising ascii (codes "t1") 5 (payload (codes "tienda")) empty).1,
        ))
run-run_example =
    run-run raising ascii (codes "t1") (codes "t2") 5 8 (payload (codes "tienda"))
      (payload (codes "otra")) empty empty-IsStore refl
