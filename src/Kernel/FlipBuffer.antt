-- ===== src/Kernel/FlipBuffer.antt =====
-- The flip buffer of a tty port, linux/tty_flip.h, by which a driver hands bytes to the reader of a tty.
pub mod Bounded
use testings.Prelude.{ℕ, ◌≡◌, ◌⊎◌, Bool, true, false, List, [], ◌∷◌, ◌++◌}

pub record FlipBuffer : Type 1 where
  pub Port : Type 0
  -- tty_port_initialized
  pub is_initialized : Port → Bool
  -- tty_insert_flip_char: whether it had room for the byte
  pub insert : Port → ℕ → Bool × Port
  -- tty_flip_buffer_push
  pub push : Port → Port
  -- the bytes that are inserted and not yet pushed, and those that the reader has got
  pub inserted : Port → List ℕ
  pub delivered : Port → List ℕ
  pub insert_takes :
      (p : Port) (b : ℕ)
      → ((insert p b).0 ≡ true) × (inserted (insert p b).1 ≡ inserted p ++ (b ∷ []))
        ⊎ ((insert p b).0 ≡ false) × (inserted (insert p b).1 ≡ inserted p)
  pub insert_keeps : (p : Port) (b : ℕ) → delivered (insert p b).1 ≡ delivered p
  pub push_delivers : (p : Port) → delivered (push p) ≡ delivered p ++ inserted p
  pub push_empties : (p : Port) → inserted (push p) ≡ []
