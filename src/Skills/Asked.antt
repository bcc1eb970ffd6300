-- ===== src/Skills/Asked.antt =====
-- What the parameters of the resource search skill ask for.
use wapsell_saas.Prelude.{
  ℕ, ◌≤◌, ◌≡◌, ◌⊎◌, inl, inr, refl, sym, subst, ap, ◌∙◌, Bool, true, false, Option, none, some, [],
  ◌∷◌, Text, codes, strip_by, Dict, lookup, ℤ, pos, negsuc, arith, Bool-cases, if◌then◌else◌,
}
use wapsell_saas.Prelude.Values.{Value, text, object, Members, to_dict, is_truthy}
use wapsell_saas.Resources.{ResourceRepo, Compare}
use wapsell_saas.Skills.ResourceSearch.{
  Convert, truthy, clamp, filters_of, str_value, kind_of, query_of, limit_of,
}

-- A key that is missing, or whose value is false to Python.
abbrev pub IsUnset : Text → Dict Value → Type 0
IsUnset k d = (v : Value) → lookup k d ≡ some v → is_truthy v ≡ false

pub truthy-some : (o : Option Value) (v : Value) → truthy o ≡ some v → o ≡ some v
truthy-some none v e = cc
truthy-some (some x) v e = kept (is_truthy x) e
  where
    kept : (b : Bool) → (if b then some x else none) ≡ some v → some x ≡ some v
    kept true h = h
    kept false h = cc

truthy-is_truthy : (o : Option Value) (v : Value) → truthy o ≡ some v → is_truthy v ≡ true
truthy-is_truthy none v e = cc
truthy-is_truthy (some x) v e = kept (is_truthy x) refl e
  where
    kept : (b : Bool) → is_truthy x ≡ b → (if b then some x else none) ≡ some v → is_truthy v ≡ true
    kept true g h = let q : x ≡ v = cc in subst (λ y. is_truthy y ≡ true) q g
    kept false g h = cc

truthy-none : (k : Text) (d : Dict Value) → truthy (lookup k d) ≡ none → IsUnset k d
truthy-none k d e v l = elim (Bool-cases (is_truthy v)) [
  | inr f ↦ f
  | inl t ↦ ground (arith, e, l, t)
]

module _ (p : Compare) (c : Convert) (now : ℕ) (log_fault : Option Text) (d : ResourceRepo)
    (context params : Dict Value) where
  -- The tenant, as a text, of the context.
  abbrev pub IsTenant : Text → Type 0
  IsTenant t =
      (v : Value) × (lookup (codes "tenant_id") context ≡ some v)
      × (t ≡ str_value p c now log_fault d v)

  -- The filters of the parameters, or no filter.
  abbrev pub IsFilters : Dict Value → Type 0
  IsFilters f =
      (IsUnset (codes "filters") params × (f ≡ []))
      ⊎ ((m : Members) × (lookup (codes "filters") params ≡ some (object m)) × (f ≡ to_dict m))

  -- The stripped text of the parameters, where there is one and it is not blank.
  abbrev pub IsQuery : Option Text → Type 0
  IsQuery query =
      (IsUnset (codes "query") params × (query ≡ none))
      ⊎ ((s : Text) × (lookup (codes "query") params ≡ some (text s))
          × (((strip_by p.unicode.is_space s ≡ []) × (query ≡ none))
              ⊎ (query ≡ some (strip_by p.unicode.is_space s))))

  -- The kind of the parameters, where there is one.
  abbrev pub IsWantedKind : Option Text → Type 0
  IsWantedKind kind =
      (IsUnset (codes "kind") params × (kind ≡ none))
      ⊎ ((v : Value) × (lookup (codes "kind") params ≡ some v)
          × (kind ≡ some (str_value p c now log_fault d v)))

  -- At most 25, 5 where the parameters have no limit, and at most theirs where it is positive.
  abbrev pub IsLimit : ℕ → Type 0
  IsLimit limit =
      (limit ≤ 25)
      × (IsUnset (codes "limit") params → limit ≡ 5)
      × ((v : Value) (n : ℕ)
          → lookup (codes "limit") params ≡ some v
          → is_truthy v ≡ true
          → c.to_int v ≡ some (pos n)
          → 1 ≤ n
          → limit ≤ n)

  pub filters_of-IsFilters :
      (o : Option Value) (f : Dict Value)
      → truthy (lookup (codes "filters") params) ≡ o
      → filters_of o ≡ some f
      → IsFilters f
  filters_of-IsFilters none f e h = inl (truthy-none (codes "filters") params e, cc)
  filters_of-IsFilters (some (object m)) f e h =
      inr (m, truthy-some (lookup (codes "filters") params) (object m) e, cc)
  filters_of-IsFilters (some v) f e h = cc

  stripped_cases :
      (s r : Text) (query : Option Text)
      → strip_by p.unicode.is_space s ≡ r
      → (elim r as (λ x. Option (Option Text)) [ [] ↦ some none | x ∷ k ↦ some (some (x ∷ k)) ])
        ≡ some query
      → ((strip_by p.unicode.is_space s ≡ []) × (query ≡ none))
        ⊎ (query ≡ some (strip_by p.unicode.is_space s))
  stripped_cases s [] query e h = inl (e, cc)
  stripped_cases s (x ∷ k) query e h = inr cc

  pub query_of-IsQuery :
      (o : Option Value) (query : Option Text)
      → truthy (lookup (codes "query") params) ≡ o
      → query_of p c now log_fault d o ≡ some query
      → IsQuery query
  unfolding query_of
  query_of-IsQuery none query e h = inl (truthy-none (codes "query") params e, cc)
  query_of-IsQuery (some (text s)) query e h = inr (
    s,
    truthy-some (lookup (codes "query") params) (text s) e,
    stripped_cases s (strip_by p.unicode.is_space s) query refl h,
  )
  query_of-IsQuery (some v) query e h = cc

  pub kind_of-IsWantedKind :
      (o : Option Value)
      → truthy (lookup (codes "kind") params) ≡ o
      → IsWantedKind (kind_of p c now log_fault d o)
  kind_of-IsWantedKind none e = inl (truthy-none (codes "kind") params e, refl)
  kind_of-IsWantedKind (some v) e = inr (v, truthy-some (lookup (codes "kind") params) v e, refl)

  clamp-max : (z : ℤ) → clamp z ≤ 25
  clamp-max (pos n) = ground arith
  clamp-max (negsuc n) = omega arith

  clamp-pos : (n : ℕ) → 1 ≤ n → clamp (pos n) ≤ n
  clamp-pos n h = ground arith

  pub limit_of-IsLimit :
      (o : Option Value) (limit : ℕ)
      → truthy (lookup (codes "limit") params) ≡ o
      → limit_of p c now log_fault d o ≡ some limit
      → IsLimit limit
  limit_of-IsLimit none limit e h =
      let q : 5 ≡ limit = cc in
      (
        omega arith,
        λ u. cc,
        λ v n l t z k.
            let f : is_truthy v ≡ false = truthy-none (codes "limit") params e v l in absurd cc,
      )
  limit_of-IsLimit (some v) limit e h = read (c.to_int v) refl h
    where
      there : lookup (codes "limit") params ≡ some v
      there = truthy-some (lookup (codes "limit") params) v e

      read :
          (o : Option ℤ)
          → c.to_int v ≡ o
          → (elim o as (λ x. Option ℕ) [ none ↦ none | some z ↦ some (clamp z) ]) ≡ some limit
          → IsLimit limit
      read none g h = cc
      read (some z) g h =
          let q : clamp z ≡ limit = cc in
          (
            subst (λ x. x ≤ 25) q (clamp-max z),
            λ u.
                let f : is_truthy v ≡ false = u v there in
                let t : is_truthy v ≡ true = truthy-is_truthy (lookup (codes "limit") params) v e in
                absurd cc,
            λ w n l t i k.
                let same : w ≡ v = cc in
                let iz : z ≡ pos n = cc in
                subst (λ x. x ≤ n) (ap clamp (sym iz) ∙ q) (clamp-pos n k),
          )
