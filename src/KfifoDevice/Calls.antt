-- ===== src/KfifoDevice/Calls.antt =====
-- How the file operations fit together.
use testings.Prelude.{
  ℕ, suc, ◌+◌, ◌≡◌, ◌≢◌, refl, sym, ap, ap₂, ◌∙◌, Bool, true, false, not, List, [], ◌∷◌, ◌++◌,
  arith, length, take, length-append, nil_of_length, ◌==◌, inl, inr,
}
use testings.Prelude.Int.{pos}
use testings.Kernel.Errno.{success, efault}
use testings.Kernel.Kfifo.{Kfifo}
use testings.Kernel.Kfifo.Bounded.{take-of_le}
use testings.Kernel.Wait.{Wait}
use testings.KfifoDevice.{mydev_read, mydev_write, mydev_poll}

fault-ne-success : efault ≢ success
fault-ne-success e = cc

module _ (K : Kfifo) where
  open K use {
    Fifo, User, size, contents, bytes, is_empty, is_full, to_user, from_user, is_empty_lem,
    is_full_lem,
  }

  -- What a write of `n` bytes at `u` moves into an empty fifo.
  abbrev pub fitting : User → ℕ → List ℕ
  fitting u n = take size (take n (bytes u))

  came_in :
      (f : Fifo) (u : User) (n : ℕ)
      → contents f ≡ []
      → (from_user f u n).ret ≡ success
      → (from_user f u n).moved ≡ fitting u n
  came_in f u n none fine = elim (K.from_user_ret f u n) [
    | inl fault ↦ absurd (fault-ne-success (sym fault ∙ fine))
    | inr (_, moved) ↦
        let zero_long : length (contents f) ≡ 0 = ap length none in
        moved ∙ ap (λ k. take k (take n (bytes u))) (omega (arith, zero_long))
  ]

  went_out :
      (f : Fifo) (r : User)
      → (to_user f r size).ret ≡ success
      → ((to_user f r size).moved ≡ contents f) × (contents (to_user f r size).fifo ≡ [])
  went_out f r fine = elim (K.to_user_ret f r size) [
    | inl fault ↦ absurd (fault-ne-success (sym fault ∙ fine))
    | inr (_, moved) ↦
        let all : (to_user f r size).moved ≡ contents f =
          moved ∙ take-of_le size (contents f) (K.bounded f) in
        let lengths : length (contents f)
            ≡ length (to_user f r size).moved + length (contents (to_user f r size).fifo) =
          ap length (K.to_user_split f r size)
          ∙ length-append (to_user f r size).moved (contents (to_user f r size).fifo) in
        (
          all,
          nil_of_length (contents (to_user f r size).fifo) (omega (arith, lengths, ap length all)),
        )
  ]

  room : (f : Fifo) → contents f ≡ [] → is_full f ≡ false
  room f none =
      let zero_long : length (contents f) ≡ 0 = ap length none in
      ground (arith, is_full_lem f, K.size_pos)

  filled : (f : Fifo) (xs : List ℕ) → contents f ≡ xs → xs ≢ [] → is_empty f ≡ false
  filled f [] e n = absurd (n refl)
  filled f (x ∷ xs) e n =
      let long : length (contents f) ≡ suc (length xs) = ap length e in
      ground (arith, is_empty_lem f)

  drained : (f : Fifo) → contents f ≡ [] → mydev_poll K f ≡ (false, true)
  unfolding mydev_poll
  drained f none =
      let zero_long : length (contents f) ≡ 0 = ap length none in
      ap₂ (λ e b. (not e, not b)) (is_empty_lem f ∙ ap (λ k. k == 0) zero_long) (room f none)

  -- From an empty fifo, where the copies meet no fault, and where there is a byte that fits: a write
  -- returns the number of bytes that fit, and a read of as many as the fifo can hold returns that
  -- number too, has moved these bytes to the reader in order, and leaves the fifo empty. Neither
  -- waits; mydev_poll says after the write that there is something to read, and after the read that
  -- there is nothing, and room.
  pub write_read :
      (nonblock : Bool) (v w : Wait Fifo) (f : Fifo) (u r : User) (n : ℕ)
      → contents f ≡ []
      → fitting u n ≢ []
      → (from_user f u n).ret ≡ success
      → (to_user (from_user f u n).fifo r size).ret ≡ success
      → let put = mydev_write K nonblock v f f u n in
        let got = mydev_read K nonblock w put.1 put.1 r size in
        (put.0 ≡ pos (length (fitting u n)))
        × (got.0 ≡ pos (length (fitting u n)))
        × ((to_user put.1 r size).moved ≡ fitting u n)
        × (contents got.1 ≡ [])
        × ((mydev_poll K put.1).0 ≡ true)
        × (mydev_poll K got.1 ≡ (false, true))
  unfolding mydev_write mydev_read mydev_poll
  write_read nonblock v w f u r n none some fine fine' =
      let t = from_user f u n in
      let o = to_user t.fifo r size in
      let moved = came_in f u n none fine in
      let inside : contents t.fifo ≡ fitting u n = K.from_user_split f u n ∙ ap₂ ◌++◌ none moved in
      let there = filled t.fifo (fitting u n) inside some in
      let out = went_out t.fifo r fine' in
      rw (room f none) (
        rw there (
          rw fine (ap pos (K.from_user_copied f u n ∙ ap length moved)),
          rw fine' (ap pos (K.to_user_copied t.fifo r size ∙ ap length (out.0 ∙ inside))),
          out.0 ∙ inside,
          out.1,
          refl,
          drained o.fifo out.1,
        ))
