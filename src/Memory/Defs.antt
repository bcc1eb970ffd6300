-- ===== src/Memory/Defs.antt =====
-- The functions of `InMemoryBuyerMemory` in sdk/wapsell/memory/buyer.py. A limit of zero stands for
-- the negative ones too.
use wapsell_saas.Prelude.{
  ℕ, zero, suc, ◌-◌, ◌*◌, Bool, true, Option, none, some, List, [], ◌∷◌, ◌++◌, Text, codes,
  starts_with, strip_by, Dict, lookup, insert, length, take, drop, sort_desc, map, nat_eq, ltb, leb,
  if◌then◌else◌,
}

pub data Role : Type 0 where
  buyer agent : Role

pub record BuyerInteraction : Type 0 where
  pub text : Text
  pub role : Role
  pub at : ℕ
  pub metadata : Dict Text

pub record BuyerMemory : Type 0 where
  pub max_items : ℕ
  pub dialectic_depth : ℕ
  pub store : Dict (List BuyerInteraction)

-- `self._store.get(buyer_id, [])`
unfoldable pub bucket : Text → BuyerMemory → List BuyerInteraction
bucket buyer_id m = elim (lookup buyer_id m.store) [ none ↦ [] | some xs ↦ xs ]

-- The last `n` elements of a list.
unfoldable pub last_n {ℓ} : {A : Type ℓ} → ℕ → List A → List A
last_n n xs = drop (length xs - n) xs

unfoldable pub remember : Text → BuyerInteraction → BuyerMemory → BuyerMemory
remember buyer_id i m =
    let appended = bucket buyer_id m ++ i ∷ [] in
    let kept =
      if ltb m.max_items (length appended)
      then drop (length appended - m.max_items) appended
      else appended in
    record m { store = insert buyer_id kept m.store }

unfoldable pub recall : Text → Option ℕ → BuyerMemory → List BuyerInteraction
recall buyer_id none m = bucket buyer_id m
recall buyer_id (some zero) m = []
recall buyer_id (some (suc n)) m = last_n (suc n) (bucket buyer_id m)

abbrev pub role_name : Role → Text
role_name buyer = codes "buyer"
role_name agent = codes "agent"

abbrev pub join_turns : List BuyerInteraction → Text
join_turns [] = []
join_turns (t ∷ []) = codes "[" ++ (role_name t.role ++ (codes "] " ++ t.text))
join_turns (t ∷ u ∷ ts) =
    (codes "[" ++ (role_name t.role ++ (codes "] " ++ t.text)))
    ++ (codes " | " ++ join_turns (u ∷ ts))

unfoldable pub summary : Text → BuyerMemory → Text
unfolding recall
summary buyer_id m = elim (recall buyer_id (some (m.dialectic_depth * 2)) m) [
  | [] ↦ codes "no prior interactions"
  | t ∷ ts ↦ join_turns (t ∷ ts)
]

abbrev pub preview_max : ℕ
preview_max = 120

abbrev pub newline_to_space : ℕ → ℕ
newline_to_space c = if nat_eq c 10 then 32 else c

-- `s.rstrip()`
unfoldable pub rstrip : (ℕ → Bool) → Text → Text
rstrip p [] = []
rstrip p (c ∷ s) = elim (rstrip p s) [ [] ↦ if p c then [] else c ∷ [] | d ∷ t ↦ c ∷ d ∷ t ]

-- The cut that `_preview` and the CRM recorder make: `max - 1` characters and an ellipsis.
unfoldable pub ellipsis : (ℕ → Bool) → ℕ → Text → Text
unfolding rstrip
ellipsis is_space max s =
    if leb (length s) max then s else rstrip is_space (take (max - 1) s) ++ 8230 ∷ []

unfoldable pub preview : (ℕ → Bool) → Text → Text
unfolding strip_by ellipsis
preview is_space text =
    ellipsis is_space preview_max (strip_by is_space (map newline_to_space text))

pub record BuyerThreadSummary : Type 0 where
  pub buyer_id : Text
  pub message_count : ℕ
  pub last_at : ℕ
  pub last_text : Text

abbrev pub last_of : BuyerInteraction → List BuyerInteraction → BuyerInteraction
last_of x [] = x
last_of x (y ∷ ys) = last_of y ys

abbrev pub has_prefix : Option Text → Text → Bool
has_prefix none buyer_id = true
has_prefix (some p) buyer_id = starts_with buyer_id p

unfoldable pub summarize :
    (ℕ → Bool) → Option Text → Dict (List BuyerInteraction) → List BuyerThreadSummary
unfolding preview
summarize is_space prefix [] = []
summarize is_space prefix ((buyer_id, []) ∷ d) = summarize is_space prefix d
summarize is_space prefix ((buyer_id, x ∷ xs) ∷ d) =
    let rest = summarize is_space prefix d in
    if has_prefix prefix buyer_id
    then record {
      buyer_id = buyer_id;
      message_count = length (x ∷ xs);
      last_at = (last_of x xs).at;
      last_text = preview is_space (last_of x xs).text;
    }
      ∷ rest
    else rest

unfoldable pub list_threads : (ℕ → Bool) → Option Text → ℕ → BuyerMemory → List BuyerThreadSummary
unfolding summarize sort_desc
list_threads is_space prefix limit m =
    take limit (sort_desc BuyerThreadSummary.last_at (summarize is_space prefix m.store))
