-- ===== src/Onboarding/Unique.antt =====
-- The loop of `_unique_slug` ends, on a slug that no tenant has.
use wapsell_saas.Prelude.{
  ℕ, zero, suc, ◌+◌, ◌≤◌, ◌<◌, ◌≡◌, ◌≢◌, refl, sym, ap, ◌∙◌, not, Option, none, some, List, [], ◌∷◌,
  ◌++◌, Text, codes, ◌==◌, eq_iff, values, find, filter, length, length-append, arith, str,
  str-injective, Option-cases, inl, inr,
}
use wapsell_saas.Models.{Tenant}
use wapsell_saas.Tenants.{TenantRepo, has_slug, by_slug}
use wapsell_saas.Onboarding.Defs.{try_slugs, unique_slug}

abbrev numbered : Text → ℕ → Text
numbered base n = base ++ (codes "-" ++ str n)

append_cancel : (s t u : Text) → s ++ t ≡ s ++ u → t ≡ u
append_cancel [] t u e = e
append_cancel (c ∷ s) t u e = append_cancel s t u (cc e)

numbered-injective : (base : Text) (m n : ℕ) → numbered base m ≡ numbered base n → m ≡ n
numbered-injective base m n e = str-injective m n (
    append_cancel (codes "-") (str m) (str n)
      (append_cancel base (codes "-" ++ str m) (codes "-" ++ str n) e))

base-ne-numbered : (base : Text) (n : ℕ) → base ≢ numbered base n
base-ne-numbered base n e =
    omega (arith, length-append base (codes "-" ++ str n), ap (λ (t : Text). length t) e)

-- The same loop over the list of tenants.
scan : ℕ → Text → Text → ℕ → List Tenant → Option Text
scan zero base c n ts = none
scan (suc fuel) base c n ts =
    let next = scan fuel base (numbered base n) (n + 1) ts in
    elim (find (has_slug c) ts) [ none ↦ some c | some _ ↦ next ]

try_slugs-eq-scan :
    (fuel : ℕ) (base c : Text) (n : ℕ) (d : TenantRepo)
    → try_slugs fuel base c n d ≡ scan fuel base c n (values d)
unfolding try_slugs scan by_slug
try_slugs-eq-scan zero base c n d = refl
try_slugs-eq-scan (suc fuel) base c n d =
    ground (arith, try_slugs-eq-scan fuel base (numbered base n) (n + 1) d)

without : Text → List Tenant → List Tenant
without c = filter (λ t. not (t.slug == c))

length-without-le : (c : Text) (ts : List Tenant) → length (without c ts) ≤ length ts
unfolding without
length-without-le c [] = omega arith
length-without-le c (t ∷ ts) = ground (arith, length-without-le c ts)

length-without :
    (c : Text) (ts : List Tenant) {t : Tenant}
    → find (has_slug c) ts ≡ some t
    → length (without c ts) < length ts
unfolding without
length-without c [] e = cc
length-without c (x ∷ ts) {t} e =
    ground (arith, length-without c ts {t = t}, length-without-le c ts)

find-without :
    (b c : Text) (ts : List Tenant)
    → b ≢ c
    → find (has_slug b) (without c ts) ≡ find (has_slug b) ts
unfolding without
find-without b c [] ne = refl
find-without b c (t ∷ ts) ne =
    ground (arith, eq_iff t.slug b, eq_iff t.slug c, find-without b c ts ne)

-- The candidates from `c` on, at the numbers from `n`, are not `x`.
abbrev Avoids : Text → Text → ℕ → Text → Type 0
Avoids base c n x = (c ≢ x) × ((j : ℕ) → n ≤ j → numbered base j ≢ x)

scan-without :
    (fuel : ℕ) (base c : Text) (n : ℕ) (ts : List Tenant) (x : Text)
    → Avoids base c n x
    → scan fuel base c n (without x ts) ≡ scan fuel base c n ts
unfolding scan
scan-without zero base c n ts x a = refl
scan-without (suc fuel) base c n ts x a = ground (
  arith,
  find-without c x ts a.0,
  scan-without fuel base (numbered base n) (n + 1) ts x
      (a.1 n (omega arith), λ j h. a.1 j (omega arith)),
)

scan-fresh :
    (fuel : ℕ) (base c : Text) (n : ℕ) (ts : List Tenant) {s : Text}
    → scan fuel base c n ts ≡ some s
    → find (has_slug s) ts ≡ none
unfolding scan
scan-fresh zero base c n ts e = cc
scan-fresh (suc fuel) base c n ts {s} e =
    ground (arith, scan-fresh fuel base (numbered base n) (n + 1) ts {s = s})

scan-total :
    (fuel : ℕ) (base c : Text) (n : ℕ) (ts : List Tenant)
    → length ts < fuel
    → ((j : ℕ) → n ≤ j → c ≢ numbered base j)
    → (s : Text) × (scan fuel base c n ts ≡ some s)
unfolding scan
scan-total zero base c n ts h a = absurd (omega arith)
scan-total (suc fuel) base c n ts h a = elim (Option-cases (find (has_slug c) ts)) [
  | inl e ↦ (c, rw (e, scan))
  | inr (t, e) ↦
      let (s, r) =
        scan-total fuel base (numbered base n) (n + 1) (without c ts)
          (omega (arith, length-without c ts e))
          (λ j hj q. ground (arith, numbered-injective base n j q)) in
      (
        s,
        rw (e, scan)
            (sym (
                scan-without fuel base (numbered base n) (n + 1) ts c
                  (λ q. a n (omega arith) (sym q), λ j hj q. a j (omega arith) (sym q)))
              ∙ r),
      )
]

-- Whatever tenants there are, the fuel of `unique_slug` suffices, and the slug that it returns is
-- the slug of no tenant.
pub unique_slug_total :
    (base : Text) (d : TenantRepo)
    → (s : Text) × (unique_slug base d ≡ some s) × (by_slug s d ≡ none)
unfolding unique_slug by_slug
unique_slug_total base d =
    let ts : List Tenant = values d in
    let (s, e) =
      scan-total (suc (length ts)) base base 2 ts (omega arith) (λ j h. base-ne-numbered base j) in
    (
      s,
      try_slugs-eq-scan (suc (length ts)) base base 2 d ∙ e,
      scan-fresh (suc (length ts)) base base 2 ts e,
    )
