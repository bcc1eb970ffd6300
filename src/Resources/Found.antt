-- ===== src/Resources/Found.antt =====
-- What a search finds.
use wapsell_saas.Prelude.{
  ℕ, zero, suc, ◌≤◌, ◌≡◌, refl, subst, Bool, true, false, ◌&&◌, Option, none, some, List, [], ◌∷◌,
  Text, codes, ◌==◌, eq_iff, Dict, values, length, take, filter, All, All-filter_test,
  All-sort_desc, arith, ◌>>=◌, if◌then◌else◌,
}
use wapsell_saas.Prelude.Values.{Value}
use wapsell_saas.Resources.Defs.{Resource, ResourceRepo, is_kind, list_for}
use wapsell_saas.Resources.Search.{Compare, matches, needle_of, all_matching, search_items}

All-take : {A : Type 0} (P : A → Type 0) (n : ℕ) (xs : List A) → All P xs → All P (take n xs)
All-take P zero xs h = tt
All-take P (suc n) [] h = tt
All-take P (suc n) (x ∷ xs) h = (h.0, All-take P n xs h.1)

All-map :
    {A : Type 0} (P Q : A → Type 0) → ((x : A) → P x → Q x) → (xs : List A) → All P xs → All Q xs
All-map P Q f [] h = tt
All-map P Q f (x ∷ xs) h = (f x h.0, All-map P Q f xs h.1)

length-take-le : {A : Type 0} (n : ℕ) (xs : List A) → length (take n xs) ≤ n
length-take-le zero xs = omega arith
length-take-le (suc n) [] = omega arith
length-take-le (suc n) (x ∷ xs) = omega (arith, length-take-le n xs)

-- An active item of the tenant, and of the kind where one is asked for.
abbrev pub IsListed : Text → Option Text → Resource → Type 0
IsListed tenant_id kind r =
    (r.tenant_id ≡ tenant_id) × (r.status ≡ codes "active") × (is_kind kind r ≡ true)

list_for-IsListed :
    (tenant_id : Text) (kind : Option Text) (limit : ℕ) (d : ResourceRepo)
    → All (IsListed tenant_id kind) (list_for tenant_id kind limit d)
unfolding list_for
list_for-IsListed t kind limit d =
    let test : Resource → Bool =
      λ r. r.tenant_id == t && (r.status == codes "active" && is_kind kind r) in
    All-take (IsListed t kind) limit _ (
      All-sort_desc Resource.created_at (IsListed t kind) _ (
        All-map (λ r. test r ≡ true) (IsListed t kind)
          (λ r h. (
            (eq_iff r.tenant_id t).0 (ground arith),
            (eq_iff r.status (codes "active")).0 (ground arith),
            ground arith,
          ))
          (filter test (values d)) (All-filter_test test (values d))))

module _ (p : Compare) where
  abbrev pub Hit : Text → Option Text → Dict Value → Text → Resource → Type 0
  Hit tenant_id kind filters needle r =
      IsListed tenant_id kind r × (matches p filters needle r ≡ some true)

  step-Hit :
      (t : Text) (kind : Option Text) (filters : Dict Value) (needle : Text) (r : Resource)
      (found : List Resource) (here : Option Bool) (rest : Option (List Resource))
      → IsListed t kind r
      → matches p filters needle r ≡ here
      → ((fs : List Resource) → rest ≡ some fs → All (Hit t kind filters needle) fs)
      → (do b ← here; fs ← rest; some (if b then r ∷ fs else fs)) ≡ some found
      → All (Hit t kind filters needle) found
  step-Hit t kind filters needle r found none rest l m h e = cc
  step-Hit t kind filters needle r found (some b) none l m h e = cc
  step-Hit t kind filters needle r found (some true) (some fs) l m h e =
      let q : r ∷ fs ≡ found = cc in subst (All (Hit t kind filters needle)) q ((l, m), h fs refl)
  step-Hit t kind filters needle r found (some false) (some fs) l m h e =
      let q : fs ≡ found = cc in subst (All (Hit t kind filters needle)) q (h fs refl)

  all_matching-Hit :
      (t : Text) (kind : Option Text) (filters : Dict Value) (needle : Text)
      (rs found : List Resource)
      → All (IsListed t kind) rs
      → all_matching p filters needle rs ≡ some found
      → All (Hit t kind filters needle) found
  unfolding all_matching
  all_matching-Hit t kind filters needle [] found h e =
      let q : [] ≡ found = cc in subst (All (Hit t kind filters needle)) q tt
  all_matching-Hit t kind filters needle (r ∷ rs) found h e =
      step-Hit t kind filters needle r found (matches p filters needle r)
        (all_matching p filters needle rs) h.0 refl
        (λ fs q. all_matching-Hit t kind filters needle rs fs h.1 q) e

  take-Hit :
      (t : Text) (kind : Option Text) (filters : Dict Value) (needle : Text) (limit : ℕ)
      (found : List Resource) (o : Option (List Resource))
      → ((fs : List Resource) → o ≡ some fs → All (Hit t kind filters needle) fs)
      → (do fs ← o; some (take limit fs)) ≡ some found
      → (length found ≤ limit) × All (Hit t kind filters needle) found
  take-Hit t kind filters needle limit found none h e = cc
  take-Hit t kind filters needle limit found (some fs) h e =
      let q : take limit fs ≡ found = cc in
      subst (λ xs. (length xs ≤ limit) × All (Hit t kind filters needle) xs) q
        (length-take-le limit fs, All-take (Hit t kind filters needle) limit fs (h fs refl))

  -- A search that returns gives at most `limit` items, each an active one of the tenant, of the kind
  -- where one is asked for, and each passing all the filters and the text.
  pub search_items-Hit :
      (t : Text) (filters : Dict Value) (query_text kind : Option Text) (limit : ℕ)
      (d : ResourceRepo) (found : List Resource)
      → search_items p t filters query_text kind limit d ≡ some found
      → (length found ≤ limit) × All (Hit t kind filters (needle_of p query_text)) found
  unfolding search_items
  search_items-Hit t filters query_text kind limit d found e =
      take-Hit t kind filters (needle_of p query_text) limit found
        (all_matching p filters (needle_of p query_text) (list_for t kind 10000 d))
        (λ fs q.
          all_matching-Hit t kind filters (needle_of p query_text) (list_for t kind 10000 d) fs
            (list_for-IsListed t kind 10000 d) q)
        e
