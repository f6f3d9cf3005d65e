-- ===== src/Prelude/Int.antt =====
-- The C `int`, for the values that the drivers give it: small counters, -1 and error codes.
use Prim.Native.Nat.{ℕ, zero, suc}
use mathlib.Core.Bool.{Bool, true, false}
use mathlib.Core.Path.{◌≡◌, refl}

-- `negsuc n` is -(n + 1).
pub data ℤ : Type 0 where
  pos : ℕ → ℤ
  negsuc : ℕ → ℤ

-- `if (ret)`
abbrev pub is_nonzero : ℤ → Bool
is_nonzero (pos zero) = false
is_nonzero (pos (suc n)) = true
is_nonzero (negsuc n) = true

-- `if (ret < 0)`
abbrev pub is_negative : ℤ → Bool
is_negative (pos n) = false
is_negative (negsuc n) = true

pub negative_is_nonzero : (z : ℤ) → is_negative z ≡ true → is_nonzero z ≡ true
negative_is_nonzero (pos n) e = cc
negative_is_nonzero (negsuc n) e = refl
