-- ===== src/TtyLoopback/Writes.antt =====
-- What the reader gets of what is written.
use testings.Prelude.{
  ℕ, ◌≡◌, ◌⊎◌, refl, sym, ap, ◌∙◌, inl, inr, false, List, [], ◌∷◌, ◌++◌, append-nil, append_assoc,
  length, if◌then◌else◌, Bool-cases,
}
use testings.Prelude.Int.{pos}
use testings.Kernel.Errno.{eio}
use testings.Kernel.FlipBuffer.{FlipBuffer}
use testings.TtyLoopback.{insert_all, lb_write}

-- Some of the bytes, in their order.
pub data Among : List ℕ → List ℕ → Type 0 where
  nil : Among [] []
  keeps : {b : ℕ} {xs ys : List ℕ} → Among xs ys → Among (b ∷ xs) (b ∷ ys)
  skips : {b : ℕ} {xs ys : List ℕ} → Among xs ys → Among xs (b ∷ ys)

module _ (F : FlipBuffer) where
  open F use {
    Port, is_initialized, insert, push, inserted, delivered, insert_takes, insert_keeps,
    push_delivers, push_empties,
  }

  -- The bytes for which there is room.
  abbrev pub accepted : List ℕ → Port → List ℕ
  accepted [] p = []
  accepted (b ∷ bs) p =
      let rest = accepted bs (insert p b).1 in if (insert p b).0 then b ∷ rest else rest

  accepted-Among : (bs : List ℕ) (p : Port) → Among (accepted bs p) bs
  accepted-Among [] p = nil
  accepted-Among (b ∷ bs) p = elim (Bool-cases (insert p b).0) [
    | inl e ↦ rw e (keeps (accepted-Among bs (insert p b).1))
    | inr e ↦ rw e (skips (accepted-Among bs (insert p b).1))
  ]

  inserted-insert_all :
      (bs : List ℕ) (p : Port) → inserted (insert_all F bs p) ≡ inserted p ++ accepted bs p
  inserted-insert_all [] p = sym (append-nil (inserted p))
  inserted-insert_all (b ∷ bs) p = elim (insert_takes p b) [
    | inl (e, i) ↦
        inserted-insert_all bs (insert p b).1
        ∙ ap (λ xs. xs ++ accepted bs (insert p b).1) i
        ∙ rw e (append_assoc (inserted p) (b ∷ []) (accepted bs (insert p b).1))
    | inr (e, i) ↦
        inserted-insert_all bs (insert p b).1
        ∙ ap (λ xs. xs ++ accepted bs (insert p b).1) i
        ∙ rw e refl
  ]

  delivered-insert_all : (bs : List ℕ) (p : Port) → delivered (insert_all F bs p) ≡ delivered p
  delivered-insert_all [] p = refl
  delivered-insert_all (b ∷ bs) p = delivered-insert_all bs (insert p b).1 ∙ insert_keeps p b

  -- lb_write refuses to write to a port that is not initialized; else it says that it has taken all the
  -- bytes, and the reader gets, behind what waited for him, those of them for which the flip buffer had
  -- room, in their order.
  pub lb_write-Among :
      (buf : List ℕ) (p : Port)
      → (is_initialized p ≡ false) × (lb_write F buf p ≡ (eio, p))
        ⊎ ((lb_write F buf p).0 ≡ pos (length buf))
          × (inserted (lb_write F buf p).1 ≡ [])
          × (delivered (lb_write F buf p).1 ≡ delivered p ++ (inserted p ++ accepted buf p))
          × Among (accepted buf p) buf
  unfolding lb_write
  lb_write-Among buf p = elim (Bool-cases (is_initialized p)) [
    | inl e ↦ inr (
      rw e refl,
      rw e (push_empties (insert_all F buf p)),
      rw e (
          push_delivers (insert_all F buf p)
          ∙ ap (λ xs. xs ++ inserted (insert_all F buf p)) (delivered-insert_all buf p)
          ∙ ap (λ xs. delivered p ++ xs) (inserted-insert_all buf p)),
      accepted-Among buf p,
    )
    | inr e ↦ inl (e, rw e refl)
  ]
