-- ===== src/Kernel/UserBuffer.antt =====
-- simple_write_to_buffer and simple_read_from_buffer of linux/fs.h, which copy between a buffer of the
-- kernel and one of a user's, from a position of the former on.
pub mod Plain
use testings.Prelude.{
  ℕ, ◌+◌, ◌-◌, ◌≤◌, ◌<◌, ◌≡◌, ◌⊎◌, Bool, true, List, [], ◌++◌, length, take, drop, min,
}
use testings.Prelude.Int.{ℤ, pos}
use testings.Kernel.Errno.{efault}

-- What simple_write_to_buffer returns, `*ppos` and the kernel's buffer afterwards, and the bytes that
-- were copied.
pub record Written : Type 0 where
  pub ret : ℤ
  pub ppos : ℕ
  pub moved : List ℕ
  pub memory : List ℕ

-- What simple_read_from_buffer returns, `*ppos` afterwards, and the bytes that were copied.
pub record ReadOut : Type 0 where
  pub ret : ℤ
  pub ppos : ℕ
  pub moved : List ℕ

-- The arguments are the kernel's buffer, how much of it is available, `*ppos`, the user's buffer and
-- `count`.
pub record UserBuffer : Type 1 where
  -- a buffer in user space, and the bytes that it holds
  pub User : Type 0
  pub bytes : User → List ℕ
  -- whether its first bytes, so many of them, can be accessed without a fault
  pub accessible : User → ℕ → Bool
  pub write_to : List ℕ → ℕ → ℕ → User → ℕ → Written
  pub read_from : List ℕ → ℕ → ℕ → User → ℕ → ReadOut
  -- A fault leaves the bytes that come after it out, and is an error where nothing was copied.
  pub write_ret :
      (m : List ℕ) (a p : ℕ) (u : User) (n : ℕ)
      → let w = write_to m a p u n in
        ((w.ret ≡ efault) × (length w.moved ≡ 0)) ⊎ (w.ret ≡ pos (length w.moved))
  pub write_ppos :
      (m : List ℕ) (a p : ℕ) (u : User) (n : ℕ)
      → (write_to m a p u n).ppos ≡ p + length (write_to m a p u n).moved
  pub write_moved :
      (m : List ℕ) (a p : ℕ) (u : User) (n : ℕ)
      → let w = write_to m a p u n in
        w.moved ≡ take (length w.moved) (take (min n (a - p)) (bytes u))
  pub write_length :
      (m : List ℕ) (a p : ℕ) (u : User) (n : ℕ) → length (write_to m a p u n).memory ≡ length m
  pub write_memory :
      (m : List ℕ) (a p : ℕ) (u : User) (n : ℕ)
      → a ≤ length m
      → let w = write_to m a p u n in take (p + length w.moved) w.memory ≡ take p m ++ w.moved
  pub read_ret :
      (m : List ℕ) (a p : ℕ) (u : User) (n : ℕ)
      → let r = read_from m a p u n in
        ((r.ret ≡ efault) × (length r.moved ≡ 0)) ⊎ (r.ret ≡ pos (length r.moved))
  pub read_ppos :
      (m : List ℕ) (a p : ℕ) (u : User) (n : ℕ)
      → (read_from m a p u n).ppos ≡ p + length (read_from m a p u n).moved
  pub read_moved :
      (m : List ℕ) (a p : ℕ) (u : User) (n : ℕ)
      → a ≤ length m
      → let r = read_from m a p u n in r.moved ≡ take (length r.moved) (take n (drop p (take a m)))
  pub accessible_bytes : (u : User) (n : ℕ) → accessible u n ≡ true → n ≤ length (bytes u)
  -- Without a fault all is copied that is asked for and available.
  pub write_whole_ret :
      (m : List ℕ) (a p : ℕ) (u : User) (n : ℕ)
      → accessible u n ≡ true
      → (write_to m a p u n).ret ≡ pos (length (write_to m a p u n).moved)
  pub write_whole :
      (m : List ℕ) (a p : ℕ) (u : User) (n : ℕ)
      → accessible u n ≡ true
      → (write_to m a p u n).moved ≡ take (min n (a - p)) (bytes u)
  pub read_whole :
      (m : List ℕ) (a p : ℕ) (u : User) (n : ℕ)
      → a ≤ length m
      → accessible u n ≡ true
      → (read_from m a p u n).moved ≡ take n (drop p (take a m))
