-- ===== src/Prelude/Values.antt =====
-- The values of a `dict[str, Any]` that came from JSON. A float is kept as an opaque number, with
-- whether it is other than zero.
use Prim.Native.Nat.{ℕ, zero, suc}
use mathlib.Core.Path.{◌≡◌, refl, ap}
use mathlib.Core.Bool.{Bool, true, false}
use mathlib.Core.Option.{Option, none, some}
use mathlib.Core.List.{List, [], ◌∷◌}
use wapsell_saas.Prelude.Texts.{Text}
use wapsell_saas.Prelude.Int.{ℤ, pos, negsuc}

mutual
  pub data Value : Type 0 where
    null : Value
    boolean : Bool → Value
    int : ℤ → Value
    float : (truthy : Bool) → ℕ → Value
    text : Text → Value
    array : Items → Value
    object : Members → Value

  pub data Items : Type 0 where
    no_items : Items
    item : Value → Items → Items

  pub data Members : Type 0 where
    no_members : Members
    member : Text → Value → Members → Members

abbrev is_nonzero : ℤ → Bool
is_nonzero (pos n) = elim n [ zero ↦ false | suc m ↦ true ]
is_nonzero (negsuc n) = true

abbrev pub is_filled : Text → Bool
is_filled [] = false
is_filled (c ∷ s) = true

-- `bool(v)`
abbrev pub is_truthy : Value → Bool
is_truthy null = false
is_truthy (boolean b) = b
is_truthy (int z) = is_nonzero z
is_truthy (float b n) = b
is_truthy (text t) = is_filled t
is_truthy (array xs) = elim xs [ no_items ↦ false | item x ys ↦ true ]
is_truthy (object m) = elim m [ no_members ↦ false | member k v n ↦ true ]

-- `bool(d.get(k))`
abbrev pub truthy_value : Option Value → Bool
truthy_value none = false
truthy_value (some v) = is_truthy v

-- What `float(v)` does: a number, a TypeError or a ValueError, or the OverflowError of an integer
-- that is too large.
pub data Floated (N : Type 0) : Type 0 where
  number : N → Floated N
  rejected : Floated N
  overflow : Floated N

-- `isinstance(d.get(k), str)`
abbrev pub text_value : Option Value → Option Text
text_value (some (text t)) = some t
text_value v = none

unfoldable pub to_list : Items → List Value
to_list no_items = []
to_list (item x xs) = x ∷ to_list xs

unfoldable pub from_list : List Value → Items
from_list [] = no_items
from_list (x ∷ xs) = item x (from_list xs)

unfoldable pub to_dict : Members → List (Text × Value)
to_dict no_members = []
to_dict (member k v m) = (k, v) ∷ to_dict m

unfoldable pub from_dict : List (Text × Value) → Members
from_dict [] = no_members
from_dict ((k, v) ∷ d) = member k v (from_dict d)

pub to_list-from_list : (xs : List Value) → to_list (from_list xs) ≡ xs
unfolding to_list from_list
to_list-from_list [] = refl
to_list-from_list (x ∷ xs) = ap (λ l. x ∷ l) (to_list-from_list xs)

pub to_dict-from_dict : (d : List (Text × Value)) → to_dict (from_dict d) ≡ d
unfolding to_dict from_dict
to_dict-from_dict [] = refl
to_dict-from_dict ((k, v) ∷ d) = ap (λ l. (k, v) ∷ l) (to_dict-from_dict d)
