-- ===== src/UdpProxy/Xor/Keys.antt =====
-- The keys that main can store.
use testings.Prelude.{
  ℕ, ◌+◌, ◌-◌, ◌≤◌, ◌<◌, ◌≡◌, refl, List, [], ◌∷◌, length, length-append, length-replicate, take,
  length-take, replicate, ltb, arith, Bool-cases, inl, inr, ◌⊎◌, dec_lt,
}
use native.Mathlib.Nat.{mod-eq_of_lt}
use testings.UdpProxy.Xor.{
  done, divides_by_zero, outside, key_at, xor_from, xor_buffer, key_size, stored_key,
}
use testings.UdpProxy.Xor.Twice.{coded, key_there, xor_from_lem}

length-stored_key : (arg : List ℕ) → length (stored_key arg) ≡ key_size
unfolding stored_key
length-stored_key arg =
    let s = take (key_size - 1) arg in
    omega (
      arith,
      length-append s (replicate (key_size - length s) 0),
      length-replicate {A = ℕ} (key_size - length s) 0,
      length-take (key_size - 1) arg,
    )

-- A key that is longer than its array.
module _ (key : List ℕ) (n : ℕ) where
  key_beyond : (i : ℕ) → length key ≤ i → i < n → key_at key n i ≡ outside
  key_beyond i h l = ground (arith, mod-eq_of_lt l)

  short_packet :
      (i : ℕ) (buf : List ℕ)
      → length key < n
      → i + length buf ≤ length key
      → xor_from i buf key n ≡ done (coded key n i buf)
  unfolding xor_from coded
  short_packet i [] h l = refl
  short_packet i (b ∷ buf) h l =
      rw
        (
          key_there key n i (omega arith) (omega arith),
          xor_from,
          short_packet (i + 1) buf h (omega arith),
        )
        refl

  long_packet :
      (i : ℕ) (buf : List ℕ)
      → length key < n
      → i ≤ length key
      → length key < i + length buf
      → xor_from i buf key n ≡ outside
  unfolding xor_from
  long_packet i [] h e l = absurd (omega arith)
  long_packet i (b ∷ buf) h e l = elim (Bool-cases (ltb i (length key))) [
    | inl more ↦
        rw
          (
            key_there key n i (omega arith) (ground (arith, more)),
            xor_from,
            long_packet (i + 1) buf h (ground (arith, more)) (omega arith),
          )
          refl
    | inr last ↦ rw (key_beyond i (ground (arith, last)) (ground (arith, last)), xor_from) refl
  ]

no_key :
    (key : List ℕ) (n b : ℕ) (buf : List ℕ) → n ≡ 0 → xor_from 0 (b ∷ buf) key n ≡ divides_by_zero
unfolding xor_from
no_key key n b buf e = rw e refl

-- With the key that main stores for an argument, a packet that is not empty makes the program divide
-- by zero if the argument is empty; it works if the argument has up to 256 characters, or if the
-- packet has up to 256 bytes; and else it makes the program read outside the key.
pub stored_key_lem :
    (arg : List ℕ) (b : ℕ) (buf : List ℕ)
    → (length arg ≡ 0) × (xor_buffer (b ∷ buf) (stored_key arg) (length arg) ≡ divides_by_zero)
      ⊎ (0 < length arg)
        × ((length arg ≤ key_size) ⊎ (length (b ∷ buf) ≤ key_size))
        × (xor_buffer (b ∷ buf) (stored_key arg) (length arg)
            ≡ done (coded (stored_key arg) (length arg) 0 (b ∷ buf)))
      ⊎ (key_size < length arg)
        × (key_size < length (b ∷ buf))
        × (xor_buffer (b ∷ buf) (stored_key arg) (length arg) ≡ outside)
unfolding xor_buffer
stored_key_lem arg b buf =
    let key = stored_key arg in
    let n = length arg in
    let size = length-stored_key arg in
    elim (dec_lt 0 n) [
      | no h ↦ inl (omega arith, no_key key n b buf (omega arith))
      | yes p ↦ elim (dec_lt key_size n) [
        | no h ↦
            inr (inl (p, inl (omega arith), xor_from_lem key n 0 (b ∷ buf) p (omega (arith, size))))
        | yes long ↦ elim (dec_lt key_size (length (b ∷ buf))) [
          | no h ↦ inr (
              inl (
                p,
                inr (omega arith),
                short_packet key n 0 (b ∷ buf) (omega (arith, size)) (omega (arith, size)),
              ))
          | yes much ↦ inr (
              inr (
                long,
                much,
                long_packet key n 0 (b ∷ buf) (omega (arith, size)) (omega arith)
                    (omega (arith, size)),
              ))
        ]
      ]
    ]
