-- ===== src/Kernel/UserBuffer/Plain.antt =====
-- User buffers that are lists of bytes, of which a write takes what there is.
use testings.Prelude.{
  true, ℕ, zero, suc, ◌+◌, ◌-◌, ◌≤◌, ◌≡◌, ◌⊎◌, refl, sym, ap, ◌∙◌, inl, inr, List, [], ◌∷◌, ◌++◌,
  length, take, drop, min, append-nil, length-take, Bool-cases, leb, nil_of_length, take_all, ◌&&◌,
  ltb, ◌==◌, if◌then◌else◌, arith,
}
use testings.Prelude.Int.{pos}
use testings.Kernel.Errno.{efault}
use testings.Kernel.UserBuffer.{UserBuffer, Written, ReadOut}

-- `ys` over the list, from the position on
abbrev pub place : List ℕ → ℕ → List ℕ → List ℕ
place [] p ys = []
place (x ∷ m) zero [] = x ∷ m
place (x ∷ m) zero (y ∷ ys) = y ∷ place m zero ys
place (x ∷ m) (suc p) ys = x ∷ place m p ys

pub length-place : (m : List ℕ) (p : ℕ) (ys : List ℕ) → length (place m p ys) ≡ length m
length-place [] p ys = refl
length-place (x ∷ m) zero [] = refl
length-place (x ∷ m) zero (y ∷ ys) = ap suc (length-place m zero ys)
length-place (x ∷ m) (suc p) ys = ap suc (length-place m p ys)

place-nil : (m : List ℕ) (p : ℕ) → place m p [] ≡ m
place-nil [] p = refl
place-nil (x ∷ m) zero = refl
place-nil (x ∷ m) (suc p) = ap (◌∷◌ x) (place-nil m p)

take-place :
    (m : List ℕ) (p : ℕ) (ys : List ℕ)
    → p + length ys ≤ length m
    → take (p + length ys) (place m p ys) ≡ take p m ++ ys
take-place [] zero [] h = refl
take-place [] zero (y ∷ ys) h = absurd (omega arith)
take-place [] (suc p) ys h = absurd (omega arith)
take-place (x ∷ m) zero [] h = refl
take-place (x ∷ m) zero (y ∷ ys) h =
    let e : 0 + length (y ∷ ys) ≡ suc (0 + length ys) = omega arith in
    ap (λ n. take n (y ∷ place m zero ys)) e ∙ ap (◌∷◌ y) (take-place m zero ys (omega arith))
take-place (x ∷ m) (suc p) ys h =
    let e : suc p + length ys ≡ suc (p + length ys) = omega arith in
    ap (λ n. take n (x ∷ place m p ys)) e ∙ ap (◌∷◌ x) (take-place m p ys (omega arith))

take-place_nil : (m : List ℕ) (p : ℕ) → take (p + length {A = ℕ} []) (place m p []) ≡ take p m ++ []
take-place_nil m p =
    let e : p + 0 ≡ p = omega arith in
    ap (λ n. take n (place m p [])) e ∙ ap (take p) (place-nil m p) ∙ sym (append-nil (take p m))

abbrev pub plain_write : List ℕ → ℕ → ℕ → List ℕ → ℕ → Written
plain_write m a p u n =
    let moved = take (min n (a - p)) u in
    let fault = ltb 0 n && ltb p a && (length moved == 0) in
    record {
      ret = if fault then efault else pos (length moved);
      ppos = p + length moved;
      moved = moved;
      memory = place m p moved;
    }

pub plain_write_ret :
    (m : List ℕ) (a p : ℕ) (u : List ℕ) (n : ℕ)
    → let w = plain_write m a p u n in
      ((w.ret ≡ efault) × (length w.moved ≡ 0)) ⊎ (w.ret ≡ pos (length w.moved))
plain_write_ret m a p u n = ground arith

pub plain_write_memory :
    (m : List ℕ) (a p : ℕ) (u : List ℕ) (n : ℕ)
    → a ≤ length m
    → let w = plain_write m a p u n in take (p + length w.moved) w.memory ≡ take p m ++ w.moved
plain_write_memory m a p u n h =
    let moved = take (min n (a - p)) u in
    elim (Bool-cases (leb p a)) [
      | inl e ↦ take-place m p moved (ground (arith, h, e, length-take (min n (a - p)) u))
      | inr e ↦
          let none_moved : moved ≡ [] =
            nil_of_length moved (ground (arith, e, length-take (min n (a - p)) u)) in
          rw none_moved (take-place_nil m p)
    ]

abbrev pub plain_read : List ℕ → ℕ → ℕ → List ℕ → ℕ → ReadOut
plain_read m a p u n =
    let moved = take n (drop p (take a m)) in
    record { ret = pos (length moved); ppos = p + length moved; moved = moved }

pub plain_accessible : (u : List ℕ) (n : ℕ) → leb n (length u) ≡ true → n ≤ length u
plain_accessible u n h = ground arith

pub plain_write_whole :
    (m : List ℕ) (a p : ℕ) (u : List ℕ) (n : ℕ)
    → leb n (length u) ≡ true
    → (plain_write m a p u n).ret ≡ pos (length (plain_write m a p u n).moved)
plain_write_whole m a p u n h = ground (arith, length-take (min n (a - p)) u)

abbrev pub plain : UserBuffer
plain = record {
  User = List ℕ;
  bytes = λ u. u;
  accessible = λ u n. leb n (length u);
  write_to = plain_write;
  read_from = plain_read;
  write_ret = plain_write_ret;
  write_ppos = λ m a p u n. refl;
  write_moved = λ m a p u n.
      sym (take_all (length (take (min n (a - p)) u)) (take (min n (a - p)) u) (omega arith));
  write_length = λ m a p u n. length-place m p (take (min n (a - p)) u);
  write_memory = plain_write_memory;
  read_ret = λ m a p u n. inr refl;
  read_ppos = λ m a p u n. refl;
  read_moved = λ m a p u n h.
      sym
        (take_all (length (take n (drop p (take a m)))) (take n (drop p (take a m))) (omega arith));
  accessible_bytes = plain_accessible;
  write_whole_ret = plain_write_whole;
  write_whole = λ m a p u n h. refl;
  read_whole = λ m a p u n b h. refl;
}
