-- ===== src/Prelude/Rows.antt =====
-- A dictionary of rows, each stored under its own identifier.
use mathlib.Core.Path.{◌≡◌, refl}
use mathlib.Core.Logic.{inl, inr}
use mathlib.Core.Bool.{Bool, true, false}
use mathlib.Core.Option.{none, some}
use mathlib.Core.List.{[], ◌∷◌}
use native.Mathlib.Omega.{arith}
use wapsell_saas.Prelude.Tests.{Option-cases}
use wapsell_saas.Prelude.Texts.{Text, eq_iff}
use wapsell_saas.Prelude.Lists.{find, find-test, All}
use wapsell_saas.Prelude.Dicts.{
  Dict, lookup, insert, erase, values, lookup-insert, lookup-insert_self, lookup-erase,
}

module _ {ℓ} {V : Type ℓ} (key : V → Text) where
  -- Every row stands under its key, and no key stands twice.
  abbrev pub IsKeyed : Dict V → Type ℓ
  IsKeyed [] = Unit
  IsKeyed ((k, v) ∷ d) = (key v ≡ k) × (lookup k d ≡ none) × IsKeyed d

  pub insert-IsKeyed :
      (k : Text) (v : V) (d : Dict V) → key v ≡ k → IsKeyed d → IsKeyed (insert k v d)
  unfolding lookup insert
  insert-IsKeyed k v [] e h = (e, refl, tt)
  insert-IsKeyed k v ((j, w) ∷ d) e h =
      ground (arith, eq_iff j k, eq_iff k j, insert-IsKeyed k v d e h.2, lookup-insert k j v d)

  pub erase-IsKeyed : (k : Text) (d : Dict V) → IsKeyed d → IsKeyed (erase k d)
  unfolding lookup erase
  erase-IsKeyed k [] h = tt
  erase-IsKeyed k ((j, w) ∷ d) h =
      ground (arith, eq_iff j k, eq_iff k j, erase-IsKeyed k d h.2, lookup-erase k j d)

  pub lookup-key : (k : Text) (d : Dict V) {v : V} → IsKeyed d → lookup k d ≡ some v → key v ≡ k
  unfolding lookup
  lookup-key k [] h e = cc
  lookup-key k ((j, w) ∷ d) {v} h e = ground (arith, eq_iff j k, lookup-key k d {v = v} h.2)

  -- What a scan of the values finds is the row stored under its own key.
  pub find-lookup :
      (p : V → Bool) (d : Dict V) {v : V}
      → IsKeyed d
      → find p (values d) ≡ some v
      → lookup (key v) d ≡ some v
  unfolding lookup
  find-lookup p [] h e = cc
  find-lookup p ((j, w) ∷ d) {v} h e = ground (arith, eq_iff j (key v), find-lookup p d {v = v} h.2)

module _ {ℓ} {V : Type ℓ} where
  -- A scan that finds nothing has seen every stored row.
  pub find-none :
      (p : V → Bool) (k : Text) (d : Dict V) {v : V}
      → find p (values d) ≡ none
      → lookup k d ≡ some v
      → p v ≡ false
  unfolding lookup
  find-none p k [] e l = cc
  find-none p k ((j, w) ∷ d) {v} e l = ground (arith, find-none p k d {v = v})

  pub find-some :
      (p : V → Bool) (k : Text) (d : Dict V) {v : V}
      → lookup k d ≡ some v
      → p v ≡ true
      → (w : V) × (find p (values d) ≡ some w)
  find-some p k d {v = v} l t = elim (Option-cases (find p (values d))) [
    | inl e ↦ absurd (cc (find-none p k d {v = v} e l))
    | inr f ↦ f
  ]

-- What holds of every stored row holds of every value.
pub All-values {ℓ} :
    {V : Type ℓ} (key : V → Text) (P : V → Type 0) (d : Dict V)
    → IsKeyed key d
    → ((k : Text) (v : V) → lookup k d ≡ some v → P v)
    → All P (values d)
unfolding lookup
All-values key P [] h f = tt
All-values key P ((k, v) ∷ d) h f = (
  f k v (ground (arith, eq_iff k k)),
  All-values key P d h.2 (λ j w l. f j w (ground (arith, eq_iff k j, l))),
)

-- At most one stored row satisfies the test.
abbrev pub AtMostOne {ℓ} : {V : Type ℓ} → (V → Bool) → Dict V → Type ℓ
AtMostOne p d =
    (j k : Text) (v w : _)
    → lookup j d ≡ some v
    → lookup k d ≡ some w
    → p v ≡ true
    → p w ≡ true
    → j ≡ k

-- The one row that satisfies the test is what the scan finds.
pub find_unique {ℓ} :
    {V : Type ℓ} (key : V → Text) (p : V → Bool) (k : Text) (d : Dict V) {v : V}
    → IsKeyed key d
    → AtMostOne p d
    → lookup k d ≡ some v
    → p v ≡ true
    → find p (values d) ≡ some v
find_unique key p k d {v} h one l t =
    let (w, f) = find-some p k d {v = v} l t in
    let lw : lookup (key w) d ≡ some w = find-lookup key p d h f in
    let same : key w ≡ k = one (key w) k w v lw l (find-test p (values d) f) t in
    let lk : lookup k d ≡ some w = rw same at lw in cc

-- A write keeps a test unique if no other row passes it.
pub AtMostOne-insert {ℓ} :
    {V : Type ℓ} (p : V → Bool) (i : Text) (t : V) (d : Dict V)
    → AtMostOne p d
    → ((j : Text) (w : V) → lookup j d ≡ some w → p w ≡ true → p t ≡ true → j ≡ i)
    → AtMostOne p (insert i t d)
AtMostOne-insert p i t d one h j k v w lj lk pv pw = ground (
  arith,
  lookup-insert i j t d,
  lookup-insert i k t d,
  eq_iff i j,
  eq_iff i k,
  one j k v w,
  h j v,
  h k w,
)

-- A row that passes a test which no stored row passes is what the scan finds once it is stored.
pub find-insert_new {ℓ} :
    {V : Type ℓ} (key : V → Text) (p : V → Bool) (v : V) (d : Dict V)
    → IsKeyed key d
    → find p (values d) ≡ none
    → p v ≡ true
    → find p (values (insert (key v) v d)) ≡ some v
find-insert_new key p v d h e t =
    find_unique key p (key v) (insert (key v) v d) {v = v} (insert-IsKeyed key (key v) v d refl h)
      (AtMostOne-insert p (key v) v d
        (λ j k x y lj lk px py. absurd (cc (find-none p j d {v = x} e lj)))
        (λ j w l pw pv. absurd (cc (find-none p j d {v = w} e l))))
      (lookup-insert_self (key v) v d) t

pub nil-AtMostOne : {V : Type 0} (p : V → Bool) → AtMostOne p []
unfolding lookup
nil-AtMostOne p = λ j k v w lj lk pv pw. cc
