-- ===== src/Prelude/Sorting.antt =====
-- Python's stable `sorted(xs, key=..., reverse=True)` on a natural key.
use Prim.Native.Nat.{ℕ, ◌≤◌}
use mathlib.Core.Path.{◌≡◌, refl, ap, subst}
use mathlib.Core.Logic.{◌↔◌, inl, inr}
use mathlib.Core.Bool.{Bool, true, false, ◌&&◌}
use mathlib.Core.Option.{none, some}
use mathlib.Core.List.{List, [], ◌∷◌}
use native.Mathlib.Omega.{arith}
use wapsell_saas.Prelude.Tests.{leb, ltb, if◌then◌else◌, Bool-cases, leb→le}
use wapsell_saas.Prelude.Lists.{find, All}

module _ {ℓ} {A : Type ℓ} (key : A → ℕ) where
  unfoldable pub place : A → List A → List A
  place x [] = x ∷ []
  place x (y ∷ ys) = if leb (key y) (key x) then x ∷ y ∷ ys else y ∷ place x ys

  unfoldable pub sort_desc : List A → List A
  unfolding place
  sort_desc [] = []
  sort_desc (x ∷ xs) = place x (sort_desc xs)

  -- Every element is at least as large as all that follow it.
  abbrev pub IsDescending : List A → Type ℓ
  IsDescending [] = Unit
  IsDescending (x ∷ xs) = All (λ y. key y ≤ key x) xs × IsDescending xs

  All-weaken : (m n : ℕ) (xs : List A) → m ≤ n → All (λ y. key y ≤ m) xs → All (λ y. key y ≤ n) xs
  All-weaken m n [] h a = tt
  All-weaken m n (x ∷ xs) h a = (omega arith, All-weaken m n xs h a.1)

  module _ (P : A → Type 0) where
    pub All-place : (x : A) (xs : List A) → P x → All P xs → All P (place x xs)
    unfolding place
    All-place x [] p h = (p, tt)
    All-place x (y ∷ ys) p h =
        elim (leb (key y) (key x)) as (λ b. All P (if b then x ∷ y ∷ ys else y ∷ place x ys)) [
          | true ↦ (p, h)
          | false ↦ (h.0, All-place x ys p h.1)
        ]

    pub All-sort_desc : (xs : List A) → All P xs → All P (sort_desc xs)
    unfolding sort_desc
    All-sort_desc [] h = tt
    All-sort_desc (x ∷ xs) h = All-place x (sort_desc xs) h.0 (All-sort_desc xs h.1)

  IsDescending-place : (x : A) (xs : List A) → IsDescending xs → IsDescending (place x xs)
  unfolding place
  IsDescending-place x [] h = (tt, tt)
  IsDescending-place x (y ∷ ys) h = elim (Bool-cases (leb (key y) (key x))) [
    | inl e ↦ rw e (
      (leb→le (key y) (key x) e, All-weaken (key y) (key x) ys (leb→le (key y) (key x) e) h.0),
      h,
    )
    | inr e ↦
        rw e (All-place (λ z. key z ≤ key y) x ys (ground arith) h.0, IsDescending-place x ys h.1)
  ]

  pub sort_desc-IsDescending : (xs : List A) → IsDescending (sort_desc xs)
  unfolding sort_desc
  sort_desc-IsDescending [] = tt
  sort_desc-IsDescending (x ∷ xs) = IsDescending-place x (sort_desc xs) (sort_desc-IsDescending xs)

  -- A scan that finds nothing before the sort finds nothing after it, and the other way round.
  find-place :
      (p : A → Bool) (x : A) (xs : List A) → (find p (place x xs) ≡ none) ↔ (find p (x ∷ xs) ≡ none)
  unfolding place
  find-place p x [] = (λ h. h, λ h. h)
  find-place p x (y ∷ ys) = ground (arith, find-place p x ys)

  pub find-sort_desc :
      (p : A → Bool) (xs : List A) → (find p (sort_desc xs) ≡ none) ↔ (find p xs ≡ none)
  unfolding sort_desc
  find-sort_desc p [] = (λ h. h, λ h. h)
  find-sort_desc p (x ∷ xs) = ground (arith, find-sort_desc p xs, find-place p x (sort_desc xs))

  All-small :
      (p : A → Bool) (m : ℕ) (xs : List A)
      → All (λ y. key y ≤ m) xs
      → find (λ y. p y && ltb m (key y)) xs ≡ none
  All-small p m [] h = refl
  All-small p m (x ∷ xs) h = ground (arith, All-small p m xs h.1)

  -- In a descending list the first element that passes a test has the largest key of those.
  pub first_largest :
      (p : A → Bool) (xs : List A) (x : A)
      → IsDescending xs
      → find p xs ≡ some x
      → find (λ y. p y && ltb (key x) (key y)) xs ≡ none
  first_largest p [] x h e = cc
  first_largest p (y ∷ ys) x h e = elim (Bool-cases (p y)) [
    | inl t ↦
        let same : y ≡ x = ground arith in
        ground (
          arith,
          ap key same,
          All-small p (key x) ys (subst (λ w. All (λ z. key z ≤ key w) ys) same h.0),
        )
    | inr f ↦ ground (arith, first_largest p ys x h.1)
  ]
