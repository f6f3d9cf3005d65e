-- ===== src/Kernel/FlipBuffer/Bounded.antt =====
-- A flip buffer with room for a number of bytes.
use testings.Prelude.{
  ℕ, ◌≡◌, ◌⊎◌, refl, Bool, true, false, List, [], ◌∷◌, ◌++◌, length, ltb, if◌then◌else◌, arith,
}
use testings.Kernel.FlipBuffer.{FlipBuffer}

pub record BoundedPort : Type 0 where
  pub initialized : Bool
  pub room : ℕ
  pub waiting : List ℕ
  pub got : List ℕ

abbrev pub insert_bounded : BoundedPort → ℕ → Bool × BoundedPort
insert_bounded p b =
    if ltb (length p.waiting) p.room
    then (true, record p { waiting = p.waiting ++ (b ∷ []) })
    else (false, p)

pub insert_bounded_takes :
    (p : BoundedPort) (b : ℕ)
    → ((insert_bounded p b).0 ≡ true) × ((insert_bounded p b).1.waiting ≡ p.waiting ++ (b ∷ []))
      ⊎ ((insert_bounded p b).0 ≡ false) × ((insert_bounded p b).1.waiting ≡ p.waiting)
insert_bounded_takes p b = ground arith

pub insert_bounded_keeps : (p : BoundedPort) (b : ℕ) → (insert_bounded p b).1.got ≡ p.got
insert_bounded_keeps p b = ground arith

abbrev pub bounded : FlipBuffer
bounded = record {
  Port = BoundedPort;
  is_initialized = λ p. p.initialized;
  insert = insert_bounded;
  push = λ p. record p { waiting = []; got = p.got ++ p.waiting };
  inserted = λ p. p.waiting;
  delivered = λ p. p.got;
  insert_takes = insert_bounded_takes;
  insert_keeps = insert_bounded_keeps;
  push_delivers = λ p. refl;
  push_empties = λ p. refl;
}
