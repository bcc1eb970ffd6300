-- ===== src/Onboarding/Slug.antt =====
-- The shape of the slugs that `slugify` makes.
use mathlib.Core.List.{reverse, reverse-append, reverse-cons, reverse-reverse}
use wapsell_saas.Prelude.{
  Unicode, ℕ, ◌≡◌, refl, Bool, true, false, ◌&&◌, [], ◌∷◌, ◌++◌, Text, drop_while, strip_by, filter,
  All, All-append, arith, map,
}
use wapsell_saas.Onboarding.Defs.{
  space_to_hyphen, is_hyphen, is_slug_char, starts_with_hyphen, collapse, or_tenant, slugify,
}

abbrev IsSlugChar : ℕ → Type 0
IsSlugChar c = is_slug_char c ≡ true

-- No two hyphens stand side by side.
abbrev NoRun : Text → Type 0
NoRun [] = Unit
NoRun (c ∷ s) = ((is_hyphen c && starts_with_hyphen s) ≡ false) × NoRun s

abbrev StartsOff : (ℕ → Bool) → Text → Type 0
StartsOff p [] = Unit
StartsOff p (c ∷ s) = p c ≡ false

-- A text in the alphabet `[a-z0-9-]`, not empty, with no hyphen at its ends and no run of hyphens.
pub record IsSlug (s : Text) : Type 0 where
  pub alphabet : All IsSlugChar s
  pub no_run : NoRun s
  pub first : starts_with_hyphen s ≡ false
  pub last : starts_with_hyphen (reverse s) ≡ false
  pub filled : s ≡ [] → ⊥

All-filter : (p : ℕ → Bool) (s : Text) → All (λ c. p c ≡ true) (filter p s)
All-filter p [] = tt
All-filter p (c ∷ s) = ground (arith, All-filter p s)

module _ (P : ℕ → Type 0) where
  All-collapse : (s : Text) → All P s → All P (collapse s)
  unfolding collapse
  All-collapse [] h = tt
  All-collapse (c ∷ s) h = ground (arith, All-collapse s h.1)

  All-drop_while : (p : ℕ → Bool) (s : Text) → All P s → All P (drop_while p s)
  unfolding drop_while
  All-drop_while p [] h = tt
  All-drop_while p (c ∷ s) h = ground (arith, All-drop_while p s h.1)

  All-reverse : (s : Text) → All P s → All P (reverse s)
  All-reverse [] h = tt
  All-reverse (c ∷ s) h =
      rw reverse-cons (All-append P (reverse s) (c ∷ []) (All-reverse s h.1) (h.0, tt))

  All-strip_by : (p : ℕ → Bool) (s : Text) → All P s → All P (strip_by p s)
  unfolding strip_by
  All-strip_by p s h = All-reverse (drop_while p (reverse (drop_while p s))) (
      All-drop_while p (reverse (drop_while p s))
        (All-reverse (drop_while p s) (All-drop_while p s h)))

starts-collapse : (s : Text) → starts_with_hyphen (collapse s) ≡ starts_with_hyphen s
unfolding collapse
starts-collapse [] = refl
starts-collapse (c ∷ s) = ground (arith, starts-collapse s)

NoRun-collapse : (s : Text) → NoRun (collapse s)
unfolding collapse
NoRun-collapse [] = tt
NoRun-collapse (c ∷ s) = ground (arith, starts-collapse s, NoRun-collapse s)

NoRun-drop_while : (p : ℕ → Bool) (s : Text) → NoRun s → NoRun (drop_while p s)
unfolding drop_while
NoRun-drop_while p [] h = tt
NoRun-drop_while p (c ∷ s) h = ground (arith, NoRun-drop_while p s h.1)

-- The last character of `s`, if there is one, satisfies the test.
abbrev last_is : (ℕ → Bool) → Text → Bool
last_is p [] = false
last_is p (c ∷ []) = p c
last_is p (c ∷ d ∷ s) = last_is p (d ∷ s)

NoRun-snoc :
    (s : Text) (c : ℕ)
    → NoRun s
    → (last_is is_hyphen s && is_hyphen c) ≡ false
    → NoRun (s ++ c ∷ [])
NoRun-snoc [] c h e = ground arith
NoRun-snoc (a ∷ []) c h e = ground arith
NoRun-snoc (a ∷ b ∷ s) c h e = (h.0, NoRun-snoc (b ∷ s) c h.1 e)

last_is-snoc : (p : ℕ → Bool) (s : Text) (c : ℕ) → last_is p (s ++ c ∷ []) ≡ p c
last_is-snoc p [] c = refl
last_is-snoc p (a ∷ []) c = refl
last_is-snoc p (a ∷ b ∷ s) c = last_is-snoc p (b ∷ s) c

NoRun-reverse : (s : Text) → NoRun s → NoRun (reverse s)
NoRun-reverse [] h = tt
NoRun-reverse (c ∷ []) h = h
NoRun-reverse (c ∷ d ∷ s) h = rw reverse-cons (
    NoRun-snoc (reverse (d ∷ s)) c (NoRun-reverse (d ∷ s) h.1)
      (rw (reverse-cons d s, last_is-snoc is_hyphen (reverse s) d) (ground arith)))

StartsOff-drop_while : (p : ℕ → Bool) (s : Text) → StartsOff p (drop_while p s)
unfolding drop_while
StartsOff-drop_while p [] = tt
StartsOff-drop_while p (c ∷ s) = ground (arith, StartsOff-drop_while p s)

drop_while-snoc :
    (p : ℕ → Bool) (s : Text) (c : ℕ)
    → p c ≡ false
    → drop_while p (s ++ c ∷ []) ≡ drop_while p s ++ c ∷ []
unfolding drop_while
drop_while-snoc p [] c e = ground arith
drop_while-snoc p (a ∷ s) c e = ground (arith, drop_while-snoc p s c e)

-- The second pass of `strip` leaves the first character in its place.
StartsOff-second :
    (p : ℕ → Bool) (s : Text) → StartsOff p s → StartsOff p (reverse (drop_while p (reverse s)))
unfolding drop_while
StartsOff-second p [] h = tt
StartsOff-second p (c ∷ s) h =
    rw
      (
        reverse-cons c s,
        drop_while-snoc p (reverse s) c h,
        reverse-snoc (drop_while p (reverse s)) c,
      )
      h
  where
    reverse-snoc : (t : Text) (d : ℕ) → reverse (t ++ d ∷ []) ≡ d ∷ reverse t
    reverse-snoc t d = reverse-append t (d ∷ [])

starts_off : (s : Text) → StartsOff is_hyphen s → starts_with_hyphen s ≡ false
starts_off [] h = refl
starts_off (c ∷ s) h = h

strip-first : (s : Text) → starts_with_hyphen (strip_by is_hyphen s) ≡ false
unfolding strip_by
strip-first s =
    starts_off _
      (StartsOff-second is_hyphen (drop_while is_hyphen s) (StartsOff-drop_while is_hyphen s))

strip-last : (s : Text) → starts_with_hyphen (reverse (strip_by is_hyphen s)) ≡ false
unfolding strip_by
strip-last s =
    rw (reverse-reverse (drop_while is_hyphen (reverse (drop_while is_hyphen s))))
      (starts_off _ (StartsOff-drop_while is_hyphen (reverse (drop_while is_hyphen s))))

NoRun-strip_by : (s : Text) → NoRun s → NoRun (strip_by is_hyphen s)
unfolding strip_by
NoRun-strip_by s h = NoRun-reverse (drop_while is_hyphen (reverse (drop_while is_hyphen s))) (
    NoRun-drop_while is_hyphen (reverse (drop_while is_hyphen s))
      (NoRun-reverse (drop_while is_hyphen s) (NoRun-drop_while is_hyphen s h)))

or_tenant-IsSlug :
    (s : Text)
    → All IsSlugChar s
    → NoRun s
    → starts_with_hyphen s ≡ false
    → starts_with_hyphen (reverse s) ≡ false
    → IsSlug (or_tenant s)
or_tenant-IsSlug [] a n f l = record {
  alphabet = (refl, (refl, (refl, (refl, (refl, (refl, tt))))));
  no_run = (refl, (refl, (refl, (refl, (refl, (refl, tt))))));
  first = refl;
  last = refl;
  filled = λ e. cc;
}
or_tenant-IsSlug (c ∷ s) a n f l = record {
  alphabet = a;
  no_run = n;
  first = f;
  last = l;
  filled = λ e. cc;
}

-- Whatever the business name, its slug is not empty, is written in `[a-z0-9-]`, neither begins nor
-- ends with a hyphen, and has no two hyphens side by side.
pub slugify-IsSlug : (u : Unicode) (name : Text) → IsSlug (slugify u name)
unfolding slugify
slugify-IsSlug u name =
    let base : Text = map space_to_hyphen (u.lower (strip_by u.is_space name)) in
    let kept : Text = filter is_slug_char base in
    or_tenant-IsSlug (strip_by is_hyphen (collapse kept))
      (All-strip_by IsSlugChar is_hyphen (collapse kept)
        (All-collapse IsSlugChar kept (All-filter is_slug_char base)))
      (NoRun-strip_by (collapse kept) (NoRun-collapse kept)) (strip-first (collapse kept))
      (strip-last (collapse kept))
