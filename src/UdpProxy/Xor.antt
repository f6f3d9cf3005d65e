-- ===== src/UdpProxy/Xor.antt =====
-- xor_buffer, and the key that main stores. Characters are numbers below 256.
pub mod Twice
pub mod Keys
use testings.Prelude.{
  ℕ, zero, suc, ◌+◌, ◌-◌, ◌*◌, ◌/◌, ◌%◌, Bool, true, false, Option, none, some, List, [], ◌∷◌, ◌++◌,
  length, take, replicate, get_or, ltb, ◌==◌, if◌then◌else◌,
}

-- The exclusive or of the lowest `n` bits.
unfoldable pub xor_bits : ℕ → ℕ → ℕ → ℕ
xor_bits zero a b = 0
xor_bits (suc n) a b = (a + b) % 2 + 2 * xor_bits n (a / 2) (b / 2)

-- `^` of two characters
abbrev pub xor_char : ℕ → ℕ → ℕ
xor_char = xor_bits 8

-- How a call ends: with a result, in a division by zero, or in a read outside the array.
pub data Outcome {ℓ} (A : Type ℓ) : Type ℓ where
  done : A → Outcome A
  divides_by_zero outside : Outcome A

infixl 5 ◌>>=◌
abbrev pub ◌>>=◌ {ℓ κ} : {A : Type ℓ} {B : Type κ} → Outcome A → (A → Outcome B) → Outcome B
done a >>= f = f a
divides_by_zero >>= f = divides_by_zero
outside >>= f = outside

-- `key[i % key_len]`
abbrev pub key_at : List ℕ → ℕ → ℕ → Outcome ℕ
key_at key key_len i =
    let j = i % key_len in
    if key_len == 0
    then divides_by_zero
    else if ltb j (length key)
    then done (get_or key j 0)
    else outside

-- The loop of xor_buffer from `i` on.
unfoldable pub xor_from : ℕ → List ℕ → List ℕ → ℕ → Outcome (List ℕ)
xor_from i [] key key_len = done []
xor_from i (b ∷ buf) key key_len = do
  k ← key_at key key_len i
  rest ← xor_from (i + 1) buf key key_len
  done (xor_char b k ∷ rest)

unfoldable pub xor_buffer : List ℕ → List ℕ → ℕ → Outcome (List ℕ)
unfolding xor_from
xor_buffer buf key key_len = xor_from 0 buf key key_len

-- `key` of `struct proxy`, after memset and strncpy of an argument.
abbrev pub key_size : ℕ
key_size = 256

unfoldable pub stored_key : List ℕ → List ℕ
stored_key arg = let s = take (key_size - 1) arg in s ++ replicate (key_size - length s) 0
