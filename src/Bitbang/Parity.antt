-- ===== src/Bitbang/Parity.antt =====
-- parity_even8 of uart.c.
use Prim.Native.Nat.{bit_xor}
use testings.Prelude.{ℕ, ◌/◌, ◌%◌, ◌<◌, ◌≡◌, refl}
use testings.Prelude.Bits.{agree, byte_table, popcount}

pub parity_even8 : ℕ → ℕ
parity_even8 x =
    let x4 = bit_xor x (x / 16) in
    let x2 = bit_xor x4 (x4 / 4) in let x1 = bit_xor x2 (x2 / 2) in x1 % 2

-- The folding by three xors gives 1 exactly when the byte has an odd number of ones.
pub parity_even8-popcount : (x : ℕ) → x < 256 → parity_even8 x ≡ popcount x % 2
unfolding parity_even8 agree
parity_even8-popcount = byte_table parity_even8 (λ x. popcount x % 2) refl
