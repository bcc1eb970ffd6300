-- ===== src/Memory/History.antt =====
-- The ring buffer against the whole history of the conversations.
use wapsell_saas.Prelude.{
  ℕ, zero, suc, ◌+◌, ◌-◌, ◌≤◌, ◌≡◌, refl, sym, ap, ◌∙◌, none, some, List, [], ◌∷◌, ◌++◌, Text, ◌==◌,
  eq_iff, lookup, insert, lookup-insert, append-nil, append_assoc, length, length-append,
  length-drop, drop, arith, Bool-cases, inl, inr, ltb, if◌then◌else◌,
}
use wapsell_saas.Memory.Defs.{BuyerInteraction, BuyerMemory, bucket, last_n, remember, recall}

-- Every message of the history, oldest first, with its buyer.
abbrev pub History : Type 0
History = List (Text × BuyerInteraction)

pub remember_all : History → BuyerMemory → BuyerMemory
remember_all [] m = m
remember_all ((b, i) ∷ h) m = remember_all h (remember b i m)

pub of_buyer : Text → History → List BuyerInteraction
of_buyer b [] = []
of_buyer b ((c, i) ∷ h) = if c == b then i ∷ of_buyer b h else of_buyer b h

drop-append :
    {A : Type 0} (n : ℕ) (xs ys : List A) → n ≤ length xs → drop n (xs ++ ys) ≡ drop n xs ++ ys
drop-append zero xs ys h = refl
drop-append (suc n) [] ys h = elim h [ ]
drop-append (suc n) (x ∷ xs) ys h = drop-append n xs ys (omega arith)

drop-nil : {A : Type 0} (n : ℕ) → drop {A = A} n [] ≡ []
drop-nil zero = refl
drop-nil (suc n) = refl

drop-drop : {A : Type 0} (m n k : ℕ) (xs : List A) → n + m ≡ k → drop m (drop n xs) ≡ drop k xs
drop-drop m zero k xs e = let e' : m ≡ k = omega arith in rw e'
drop-drop m (suc n) k [] e = drop-nil m ∙ sym (drop-nil k)
drop-drop m (suc n) zero (x ∷ xs) e = absurd (omega arith)
drop-drop m (suc n) (suc k) (x ∷ xs) e = drop-drop m n k xs (omega arith)

-- Cutting before an append changes nothing that a later cut would keep.
last_n-append :
    {A : Type 0} (n : ℕ) (xs ys : List A) → last_n n (last_n n xs ++ ys) ≡ last_n n (xs ++ ys)
unfolding last_n
last_n-append n xs ys =
    let a : ℕ = length xs - n in
    rw (← drop-append a xs ys (omega arith)) (
      drop-drop (length (drop a (xs ++ ys)) - n) a (length (xs ++ ys) - n) (xs ++ ys)
        (omega (arith, length-drop a (xs ++ ys), length-append xs ys)))

last_n-if :
    {A : Type 0} (n : ℕ) (xs : List A)
    → (if ltb n (length xs) then drop (length xs - n) xs else xs) ≡ last_n n xs
unfolding last_n
last_n-if n xs = elim (Bool-cases (ltb n (length xs))) [
  | inl e ↦ rw e
  | inr e ↦ let z : length xs - n ≡ 0 = ground arith in rw (e, z)
]

bucket-insert :
    (b c : Text) (xs : List BuyerInteraction) (m : BuyerMemory)
    → bucket c (record m { store = insert b xs m.store }) ≡ (if b == c then xs else bucket c m)
unfolding bucket
bucket-insert b c xs m = ground (arith, lookup-insert b c xs m.store)

pub bucket-remember :
    (b c : Text) (i : BuyerInteraction) (m : BuyerMemory)
    → bucket c (remember b i m)
      ≡ (if b == c then last_n m.max_items (bucket b m ++ i ∷ []) else bucket c m)
unfolding remember
bucket-remember b c i m =
    rw (← last_n-if m.max_items (bucket b m ++ i ∷ [])) (bucket-insert b c _ m)

max_items-remember :
    (b : Text) (i : BuyerInteraction) (m : BuyerMemory) → (remember b i m).max_items ≡ m.max_items
unfolding remember
max_items-remember b i m = refl

last_n-append_nil : {A : Type 0} (n : ℕ) (xs : List A) → last_n n (xs ++ []) ≡ last_n n xs
last_n-append_nil n xs = rw append-nil

-- The bucket of a buyer after a history, from a memory whose bucket is within the bound.
bucket-remember_all :
    (b : Text) (h : History) (m : BuyerMemory) (xs : List BuyerInteraction)
    → bucket b m ≡ last_n m.max_items xs
    → bucket b (remember_all h m) ≡ last_n m.max_items (xs ++ of_buyer b h)
unfolding remember_all of_buyer remember
bucket-remember_all b [] m xs e = rw append-nil e
bucket-remember_all b ((c, i) ∷ h) m xs e = elim (Bool-cases (c == b)) [
  | inl t ↦
      let same : c ≡ b = (eq_iff c b).0 t in
      let step : bucket b (remember c i m) ≡ last_n m.max_items (xs ++ i ∷ []) =
        bucket-remember c b i m ∙ rw (t, same, e) (last_n-append m.max_items xs (i ∷ [])) in
      rw t (
        rw (← append_assoc xs (i ∷ []) (of_buyer b h))
          (bucket-remember_all b h (remember c i m) (xs ++ i ∷ []) step))
  | inr f ↦
      let step : bucket b (remember c i m) ≡ last_n m.max_items xs =
        bucket-remember c b i m ∙ rw f e in
      rw f (bucket-remember_all b h (remember c i m) xs step)
]

drop-all : {A : Type 0} (n : ℕ) (xs : List A) → length xs ≤ n → drop n xs ≡ []
drop-all n [] h = drop-nil n
drop-all zero (x ∷ xs) h = absurd (omega arith)
drop-all (suc n) (x ∷ xs) h = drop-all n xs (omega arith)

pub length-last_n : {A : Type 0} (n : ℕ) (xs : List A) → length (last_n n xs) ≤ n
unfolding last_n
length-last_n n xs = omega (arith, length-drop (length xs - n) xs)

recall_limit :
    (b : Text) (n : ℕ) (m : BuyerMemory) (xs : List BuyerInteraction)
    → bucket b m ≡ xs
    → recall b (some n) m ≡ last_n n xs
unfolding recall
recall_limit b zero m xs e = unfold last_n in sym (drop-all (length xs - 0) xs (omega arith))
recall_limit b (suc n) m xs e = ap (last_n (suc n)) e

abbrev pub fresh : ℕ → ℕ → BuyerMemory
fresh max depth = record { max_items = max; dialectic_depth = depth; store = [] }

-- However the messages of the buyers interleave, the memory recalls of each buyer the last
-- `max_items` of that buyer's messages, in their order, and with a limit the last of those.
pub recall-history :
    (max depth : ℕ) (h : History) (b : Text)
    → let m = remember_all h (fresh max depth) in
      (recall b none m ≡ last_n max (of_buyer b h))
      × ((n : ℕ) → recall b (some n) m ≡ last_n n (last_n max (of_buyer b h)))
      × (length (recall b none m) ≤ max)
unfolding recall
recall-history max depth h b =
    let e : bucket b (remember_all h (fresh max depth)) ≡ last_n max (of_buyer b h) =
      bucket-remember_all b h (fresh max depth) []
        (unfold bucket last_n lookup in sym (drop-nil (0 - max))) in
    (
      e,
      λ n. recall_limit b n (remember_all h (fresh max depth)) (last_n max (of_buyer b h)) e,
      rw e (length-last_n max (of_buyer b h)),
    )
