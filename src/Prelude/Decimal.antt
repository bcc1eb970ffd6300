-- ===== src/Prelude/Decimal.antt =====
-- Python's `str(n)` on a natural number, and that it loses nothing.
use Prim.Native.Nat.{ℕ, zero, suc, ◌+◌, ◌-◌, ◌*◌, ◌/◌, ◌%◌, ◌<◌}
use mathlib.Core.Path.{◌≡◌, refl, sym, ap, ◌∙◌}
use mathlib.Core.List.{[], ◌∷◌, ◌++◌}
use native.Mathlib.Omega.{arith}
use wapsell_saas.Prelude.Tests.{ltb, if◌then◌else◌}
use wapsell_saas.Prelude.Texts.{Text}

-- At most `fuel` digits of `n`, the leading digit first.
digits_of : ℕ → ℕ → Text
digits_of zero n = []
digits_of (suc fuel) n =
    let higher = digits_of fuel (n / 10) in
    if ltb n 10 then (48 + n) ∷ [] else higher ++ (48 + n % 10) ∷ []

unfoldable pub str : ℕ → Text
unfolding digits_of
str n = digits_of (suc n) n

read : ℕ → Text → ℕ
read acc [] = acc
read acc (c ∷ s) = read (acc * 10 + (c - 48)) s

read-append : (acc : ℕ) (s t : Text) → read acc (s ++ t) ≡ read (read acc s) t
unfolding read
read-append acc [] t = refl
read-append acc (c ∷ s) t = read-append (acc * 10 + (c - 48)) s t

read-digits_of : (fuel n : ℕ) → n < fuel → read 0 (digits_of fuel n) ≡ n
unfolding digits_of read
read-digits_of zero n h = absurd (omega arith)
read-digits_of (suc fuel) n h = ground (
  arith,
  read-append 0 (digits_of fuel (n / 10)) ((48 + n % 10) ∷ []),
  read-digits_of fuel (n / 10),
)

pub str-injective : (m n : ℕ) → str m ≡ str n → m ≡ n
unfolding str
str-injective m n e =
    sym (read-digits_of (suc m) m (omega arith))
    ∙ ap (read 0) e
    ∙ read-digits_of (suc n) n (omega arith)
