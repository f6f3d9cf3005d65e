-- ===== src/Prelude/Bits.antt =====
-- Facts about bytes, by evaluation at each value.
use Prim.Native.Nat.{ℕ, zero, suc, ◌+◌, ◌/◌, ◌%◌, ◌<◌}
use mathlib.Core.Path.{◌≡◌}
use mathlib.Core.Bool.{Bool, true, false}
use mathlib.Core.List.{List, [], ◌∷◌}
use native.Mathlib.Omega.{arith}
use testings.Prelude.Tests.{◌==◌, if◌then◌else◌}

-- Do `f` and `g` agree on the numbers below a bound?
unfoldable pub agree : (f g : ℕ → ℕ) → ℕ → Bool
agree f g zero = true
agree f g (suc bound) = if f bound == g bound then agree f g bound else false

agree-eq : (f g : ℕ → ℕ) (bound n : ℕ) → n < bound → agree f g bound ≡ true → f n ≡ g n
unfolding agree
agree-eq f g zero n below e = absurd (omega arith)
agree-eq f g (suc bound) n below e = ground (arith, agree-eq f g bound n)

-- Two functions that agree by evaluation on every byte.
pub byte_table : (f g : ℕ → ℕ) → agree f g 256 ≡ true → (x : ℕ) → x < 256 → f x ≡ g x
byte_table f g table x small = agree-eq f g 256 x small table

-- The bits of a byte, the lowest first.
abbrev pub bits_of : ℕ → List ℕ
bits_of b =
    (b / 1 % 2)
    ∷ (b / 2 % 2)
    ∷ (b / 4 % 2)
    ∷ (b / 8 % 2)
    ∷ (b / 16 % 2)
    ∷ (b / 32 % 2)
    ∷ (b / 64 % 2)
    ∷ (b / 128 % 2)
    ∷ []

abbrev pub sum : List ℕ → ℕ
sum [] = 0
sum (x ∷ xs) = x + sum xs

-- `__builtin_popcount` of a byte
abbrev pub popcount : ℕ → ℕ
popcount b = sum (bits_of b)
