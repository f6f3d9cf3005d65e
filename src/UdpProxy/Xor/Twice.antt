-- ===== src/UdpProxy/Xor/Twice.antt =====
-- What xor_buffer does to a packet, and to the packet that it has made.
use testings.Prelude.{
  ℕ, zero, suc, ◌+◌, ◌*◌, ◌/◌, ◌%◌, ◌^◌, ◌≤◌, ◌<◌, ◌≡◌, refl, ap, ap₂, ◌∙◌, List, [], ◌∷◌, length,
  get_or, arith,
}
use testings.UdpProxy.Xor.{xor_bits, xor_char, done, key_at, xor_from, xor_buffer}

xor_bits_twice : (n a b : ℕ) → a < 2 ^ n → xor_bits n (xor_bits n a b) b ≡ a
unfolding xor_bits
xor_bits_twice zero a b h = omega arith
xor_bits_twice (suc n) a b h =
    let r = xor_bits n (a / 2) (b / 2) in
    let back : ((a + b) % 2 + 2 * r) / 2 ≡ r = omega arith in
    let again : xor_bits n (((a + b) % 2 + 2 * r) / 2) (b / 2) ≡ a / 2 =
      ap (λ x. xor_bits n x (b / 2)) back ∙ xor_bits_twice n (a / 2) (b / 2) (omega (arith, h)) in
    omega (arith, again)

-- All the characters of the list.
abbrev pub AreChars : List ℕ → Type 0
AreChars [] = Unit
AreChars (x ∷ xs) = (x < 256) × AreChars xs

-- The characters `buf` from place `i` on, each with its character of the key.
unfoldable pub coded : List ℕ → ℕ → ℕ → List ℕ → List ℕ
coded key n i [] = []
coded key n i (b ∷ buf) = xor_char b (get_or key (i % n) 0) ∷ coded key n (i + 1) buf

pub key_there :
    (key : List ℕ) (n i : ℕ)
    → 0 < n
    → i % n < length key
    → key_at key n i ≡ done (get_or key (i % n) 0)
key_there key n i p h = ground arith

below : (i n : ℕ) → 0 < n → i % n < n
below i n p = omega arith

-- A key within its array.
pub xor_from_lem :
    (key : List ℕ) (n i : ℕ) (buf : List ℕ)
    → 0 < n
    → n ≤ length key
    → xor_from i buf key n ≡ done (coded key n i buf)
unfolding xor_from coded
xor_from_lem key n i [] p h = refl
xor_from_lem key n i (b ∷ buf) p h =
    rw
      (
        key_there key n i p (omega (arith, below i n p)),
        xor_from,
        xor_from_lem key n (i + 1) buf p h,
      )
      refl

pub coded_twice :
    (key : List ℕ) (n i : ℕ) (buf : List ℕ) → AreChars buf → coded key n i (coded key n i buf) ≡ buf
unfolding coded
coded_twice key n i [] c = refl
coded_twice key n i (b ∷ buf) c =
    ap₂ ◌∷◌ (xor_bits_twice 8 b (get_or key (i % n) 0) (omega (arith, c.0)))
      (coded_twice key n (i + 1) buf c.1)

length-coded : (key : List ℕ) (n i : ℕ) (buf : List ℕ) → length (coded key n i buf) ≡ length buf
unfolding coded
length-coded key n i [] = refl
length-coded key n i (b ∷ buf) = ap suc (length-coded key n (i + 1) buf)

pub xor_buffer_made :
    (key : List ℕ) (n : ℕ) (buf : List ℕ)
    → 0 < n
    → n ≤ length key
    → xor_buffer buf key n ≡ done (coded key n 0 buf)
unfolding xor_buffer
xor_buffer_made key n buf p h = xor_from_lem key n 0 buf p h

-- With a key of at least one character, of which the array has all: xor_buffer makes a packet of the
-- same length, and makes the packet again from what it has made.
pub xor_buffer_twice :
    (key : List ℕ) (n : ℕ) (buf : List ℕ)
    → 0 < n
    → n ≤ length key
    → AreChars buf
    → (packet : List ℕ) × (xor_buffer buf key n ≡ done packet)
      × (length packet ≡ length buf)
      × (xor_buffer packet key n ≡ done buf)
unfolding xor_buffer
xor_buffer_twice key n buf p h c = (
  coded key n 0 buf,
  xor_from_lem key n 0 buf p h,
  length-coded key n 0 buf,
  xor_from_lem key n 0 (coded key n 0 buf) p h ∙ ap done (coded_twice key n 0 buf c),
)
