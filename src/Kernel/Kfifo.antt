-- ===== src/Kernel/Kfifo.antt =====
-- linux/kfifo.h, a first-in first-out queue of bytes of a fixed size, as the drivers use it.
-- `contents` is the queue that a fifo stands for; the laws say what each macro does to it.
pub mod Overwrite
pub mod Bounded
use testings.Prelude.{
  ℕ, ◌-◌, ◌≤◌, ◌<◌, ◌≡◌, ◌⊎◌, Bool, Option, List, [], ◌∷◌, ◌++◌, length, take, pop, leb, ◌==◌,
  if◌then◌else◌,
}
use testings.Prelude.Int.{ℤ}
use testings.Kernel.Errno.{success, efault}

-- What kfifo_to_user and kfifo_from_user return: their value, `*copied`, the fifo afterwards, and
-- the bytes that passed between the fifo and the user's buffer.
pub record Transfer (F : Type 0) : Type 0 where
  pub ret : ℤ
  pub copied : ℕ
  pub moved : List ℕ
  pub fifo : F

pub record Kfifo : Type 1 where
  pub Fifo : Type 0
  -- a buffer in user space, and the bytes that it holds
  pub User : Type 0
  pub bytes : User → List ℕ
  pub size : ℕ
  pub contents : Fifo → List ℕ
  pub is_empty : Fifo → Bool
  pub is_full : Fifo → Bool
  -- kfifo_in and kfifo_out of one byte
  pub put : Fifo → ℕ → Fifo
  pub get : Fifo → Option ℕ × Fifo
  pub reset : Fifo → Fifo
  pub to_user : Fifo → User → ℕ → Transfer Fifo
  pub from_user : Fifo → User → ℕ → Transfer Fifo
  pub size_pos : 0 < size
  pub bounded : (f : Fifo) → length (contents f) ≤ size
  pub is_empty_lem : (f : Fifo) → is_empty f ≡ (length (contents f) == 0)
  pub is_full_lem : (f : Fifo) → is_full f ≡ leb size (length (contents f))
  pub put_lem :
      (f : Fifo) (b : ℕ)
      → contents (put f b) ≡ (if is_full f then contents f else contents f ++ (b ∷ []))
  pub get_byte : (f : Fifo) → (get f).0 ≡ (pop (contents f)).0
  pub get_rest : (f : Fifo) → contents (get f).1 ≡ (pop (contents f)).1
  pub reset_lem : (f : Fifo) → contents (reset f) ≡ []
  -- A fault leaves the bytes that were not copied where they are.
  pub to_user_split :
      (f : Fifo) (u : User) (n : ℕ)
      → contents f ≡ (to_user f u n).moved ++ contents (to_user f u n).fifo
  pub to_user_copied :
      (f : Fifo) (u : User) (n : ℕ) → (to_user f u n).copied ≡ length (to_user f u n).moved
  pub to_user_ret :
      (f : Fifo) (u : User) (n : ℕ)
      → ((to_user f u n).ret ≡ efault)
        ⊎ ((to_user f u n).ret ≡ success) × ((to_user f u n).moved ≡ take n (contents f))
  pub from_user_split :
      (f : Fifo) (u : User) (n : ℕ)
      → contents (from_user f u n).fifo ≡ contents f ++ (from_user f u n).moved
  pub from_user_copied :
      (f : Fifo) (u : User) (n : ℕ) → (from_user f u n).copied ≡ length (from_user f u n).moved
  pub from_user_ret :
      (f : Fifo) (u : User) (n : ℕ)
      → ((from_user f u n).ret ≡ efault)
        ⊎ ((from_user f u n).ret ≡ success)
          × ((from_user f u n).moved ≡ take (size - length (contents f)) (take n (bytes u)))
