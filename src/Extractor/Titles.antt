-- ===== src/Extractor/Titles.antt =====
-- The keys of the open tasks, and the rows that they come from.
use wapsell_saas.Prelude.{
  ℕ, zero, suc, ◌≤◌, ◌≡◌, ◌≢◌, inl, inr, refl, sym, ap, subst, ◌∙◌, Bool, true, false, ◌&&◌, none,
  some, List, [], ◌∷◌, Text, codes, ◌==◌, lookup, values, IsKeyed, find, filter, find-filter,
  find-sort_desc, find-none, find-lookup, find-test, sort_desc, place, length, take, map, arith,
  Bool-cases, Option-cases,
}
use wapsell_saas.Resources.{Resource, ResourceRepo, list_for}
use wapsell_saas.Extractor.Contact.{Run}
use wapsell_saas.Extractor.Todo.{
  task_kind, mem_text, task_dedup_key, title_of, is_open_task, open_task_titles,
}

take-all : {A : Type 0} (n : ℕ) (xs : List A) → length xs ≤ n → take n xs ≡ xs
take-all zero [] h = refl
take-all zero (x ∷ xs) h = absurd (omega arith)
take-all (suc n) [] h = refl
take-all (suc n) (x ∷ xs) h = ap (λ l. x ∷ l) (take-all n xs (omega arith))

length-place :
    {A : Type 0} (key : A → ℕ) (x : A) (xs : List A) → length (place key x xs) ≡ suc (length xs)
unfolding place
length-place key x [] = refl
length-place key x (y ∷ ys) = ground (arith, length-place key x ys)

length-sort_desc : {A : Type 0} (key : A → ℕ) (xs : List A) → length (sort_desc key xs) ≡ length xs
unfolding sort_desc
length-sort_desc key [] = refl
length-sort_desc key (x ∷ xs) =
    length-place key x (sort_desc key xs) ∙ ap suc (length-sort_desc key xs)

-- A key that no element has under the test.
mem-map :
    {A : Type 0} (f : A → Text) (p : A → Bool) (k : Text) (xs : List A)
    → mem_text k (map f (filter p xs)) ≡ false
    → find (λ x. p x && f x == k) xs ≡ none
mem-map f p k [] h = refl
mem-map f p k (x ∷ xs) h = ground (arith, mem-map f p k xs)

mem-find :
    {A : Type 0} (f : A → Text) (p : A → Bool) (k : Text) (xs : List A)
    → mem_text k (map f (filter p xs)) ≡ true
    → find (λ x. p x && f x == k) xs ≢ none
mem-find f p k [] h e = ground arith
mem-find f p k (x ∷ xs) h e = ground (arith, mem-find f p k xs)

find-take :
    {A : Type 0} (p : A → Bool) (n : ℕ) (xs : List A) → find p xs ≡ none → find p (take n xs) ≡ none
find-take p zero xs h = refl
find-take p (suc n) [] h = refl
find-take p (suc n) (x ∷ xs) h = ground (arith, find-take p n xs)

find_in_filter :
    {A : Type 0} (t q : A → Bool) (xs : List A)
    → find (λ x. t x && q x) xs ≡ none
    → find q (filter t xs) ≡ none
find_in_filter t q [] h = refl
find_in_filter t q (x ∷ xs) h = ground (arith, find_in_filter t q xs)

-- The rows that `list_for` is asked for.
abbrev pub is_row : Text → Resource → Bool
is_row tenant_id e = e.tenant_id == tenant_id && (e.status == codes "active" && e.kind == task_kind)

module _ (r : Run) (tenant_id contact_id : Text) where
  abbrev pub has_key : Text → Resource → Bool
  has_key key e = is_open_task r contact_id e && task_dedup_key r (title_of r e) == key

  -- A stored open task of the contact has the key.
  abbrev pub HasRow : Text → ResourceRepo → Type 0
  HasRow key d =
      (i : Text) × (e : Resource) × (lookup i d ≡ some e)
      × ((is_row tenant_id e && has_key key e) ≡ true)

  abbrev pub IsTaken : Text → ResourceRepo → Type 0
  IsTaken key d = mem_text key (open_task_titles r tenant_id contact_id d) ≡ true

  pub HasRow→IsTaken :
      (key : Text) (d : ResourceRepo)
      → length (filter (is_row tenant_id) (values d)) ≤ 1000
      → HasRow key d
      → IsTaken key d
  unfolding open_task_titles list_for
  HasRow→IsTaken key d small (i, e, l, t) =
      elim (Bool-cases (mem_text key (open_task_titles r tenant_id contact_id d))) [
        | inl y ↦ y
        | inr n ↦
            let rows : List Resource = filter (is_row tenant_id) (values d) in
            let sorted : List Resource = sort_desc Resource.created_at rows in
            let all : take 1000 sorted ≡ sorted =
              take-all 1000 sorted
                (subst (λ m. m ≤ 1000) (sym (length-sort_desc Resource.created_at rows)) small) in
            let a : find (has_key key) sorted ≡ none =
              subst (λ xs. find (has_key key) xs ≡ none) all
                (mem-map (λ x. task_dedup_key r (title_of r x)) (is_open_task r contact_id) key
                  (take 1000 sorted) n) in
            let b : find (has_key key) rows ≡ none =
              (find-sort_desc Resource.created_at (has_key key) rows).0 a in
            let c : find (λ x. is_row tenant_id x && has_key key x) (values d) ≡ none =
              find-filter (is_row tenant_id) (has_key key) (values d) b in
            let f = find-none (λ x. is_row tenant_id x && has_key key x) i d {v = e} c l in
            absurd (ground arith)
      ]

  pub IsTaken→HasRow :
      (key : Text) (d : ResourceRepo) → IsKeyed Resource.id d → IsTaken key d → HasRow key d
  unfolding open_task_titles list_for
  IsTaken→HasRow key d h t =
      elim (Option-cases (find (λ x. is_row tenant_id x && has_key key x) (values d))) [
        | inr (e, f) ↦ (
          e.id,
          e,
          find-lookup Resource.id (λ x. is_row tenant_id x && has_key key x) d h f,
          find-test (λ x. is_row tenant_id x && has_key key x) (values d) f,
        )
        | inl n ↦
            let rows : List Resource = filter (is_row tenant_id) (values d) in
            let b : find (has_key key) rows ≡ none =
              find_in_filter (is_row tenant_id) (has_key key) (values d) n in
            let a : find (has_key key) (sort_desc Resource.created_at rows) ≡ none =
              (find-sort_desc Resource.created_at (has_key key) rows).1 b in
            absurd (
              mem-find (λ x. task_dedup_key r (title_of r x)) (is_open_task r contact_id) key
                (take 1000 (sort_desc Resource.created_at rows)) t
                (find-take (has_key key) 1000 (sort_desc Resource.created_at rows) a))
      ]
