-- ===== src/Prelude/Texts.antt =====
-- Python's `str` as the list of its code points, with `==`, `in`, `strip` and `startswith`.
use Prim.Native.Nat.{ℕ}
use Prim.Native.Char.{code}
use Prim.Native.String.{String}
use mathlib.Core.Path.{◌≡◌, refl, ap}
use mathlib.Core.Logic.{◌↔◌}
use mathlib.Core.Bool.{Bool, true, false, ◌&&◌, ◌||◌}
use mathlib.Core.Option.{Option, none, some}
use mathlib.Core.List.{List, [], ◌∷◌, reverse}
use native.Mathlib.Omega.{arith}
use wapsell_saas.Prelude.Tests.{nat_eq, nat_eq_iff, if◌then◌else◌}

abbrev pub Text : Type 0
Text = List ℕ

-- The code points of a literal.
abbrev pub codes : String → Text
codes String.[] = []
codes (String.◌∷◌ c s) = code c ∷ codes s

infix 50 ◌==◌
unfoldable pub ◌==◌ : Text → Text → Bool
[] == [] = true
[] == (b ∷ t) = false
(a ∷ s) == [] = false
(a ∷ s) == (b ∷ t) = nat_eq a b && s == t

pub eq_iff : (s t : Text) → ((s == t) ≡ true) ↔ (s ≡ t)
unfolding ◌==◌
eq_iff [] [] = ground arith
eq_iff [] (b ∷ t) = ground arith
eq_iff (a ∷ s) [] = ground arith
eq_iff (a ∷ s) (b ∷ t) = ground (arith, eq_iff s t, nat_eq_iff a b)

pub eq_refl : (s : Text) → (s == s) ≡ true
eq_refl s = (eq_iff s s).1 refl

-- `x == k` where `x` may be `None`
abbrev pub is_text : Option Text → Text → Bool
is_text none k = false
is_text (some x) k = x == k

pub is_text→eq : (x : Option Text) (k : Text) → is_text x k ≡ true → x ≡ some k
is_text→eq none k h = cc
is_text→eq (some x) k h = ap some ((eq_iff x k).0 h)

pub eq→is_text : (x : Option Text) (k : Text) → x ≡ some k → is_text x k ≡ true
eq→is_text none k h = cc
eq→is_text (some x) k h = (eq_iff x k).1 (cc h)

pub is_text_self : (k : Text) → is_text (some k) k ≡ true
is_text_self k = eq_refl k

abbrev pub is_empty : Text → Bool
is_empty [] = true
is_empty (_ ∷ _) = false

-- `s.startswith(prefix)`
unfoldable pub starts_with : Text → Text → Bool
starts_with s [] = true
starts_with [] (b ∷ t) = false
starts_with (a ∷ s) (b ∷ t) = nat_eq a b && starts_with s t

-- `needle in s`
unfoldable pub contains : Text → Text → Bool
unfolding starts_with
contains [] t = starts_with [] t
contains (a ∷ s) t = starts_with (a ∷ s) t || contains s t

-- Drops the leading characters that satisfy `p`.
unfoldable pub drop_while : (ℕ → Bool) → Text → Text
drop_while p [] = []
drop_while p (c ∷ s) = if p c then drop_while p s else c ∷ s

-- `s.strip(...)`: drops the characters of `p` at both ends.
unfoldable pub strip_by : (ℕ → Bool) → Text → Text
unfolding drop_while
strip_by p s = reverse (drop_while p (reverse (drop_while p s)))

-- What `str` takes from the Unicode database: `lower()`, and the characters that `strip()` drops.
pub record Unicode : Type 0 where
  pub lower : Text → Text
  pub is_space : ℕ → Bool
