-- ===== src/Kernel/Kfifo/Overwrite.antt =====
-- Overwrite-on-full, as every interrupt handler of the drivers does it: drop the oldest byte when
-- the fifo is full, then put the new one.
use testings.Prelude.{
  ℕ, suc, ◌-◌, ◌<◌, ◌≡◌, sym, ap, ◌∙◌, true, false, List, [], ◌∷◌, ◌++◌, arith, length, drop,
  length-append, length-pop, keep_last, keep_last_fits, if◌then◌else◌, Bool-cases, inl, inr, pop,
}
use testings.Kernel.Kfifo.{Kfifo}

keep_last_full {ℓ} :
    {A : Type ℓ} (n : ℕ) (xs : List A) (b : A)
    → 0 < n
    → length xs ≡ n
    → keep_last n (xs ++ b ∷ []) ≡ (pop xs).1 ++ b ∷ []
keep_last_full n [] b h e = absurd (omega arith)
keep_last_full n (x ∷ xs) b h e =
    let one : suc (length (xs ++ b ∷ [])) - n ≡ 1 = omega (arith, length-append xs (b ∷ [])) in
    ap (λ k. drop k (x ∷ xs ++ b ∷ [])) one

module _ (K : Kfifo) where
  open K use {Fifo, size, contents, is_full, put, get, is_full_lem, put_lem, get_rest}

  -- Put where there is room.
  pub contents-put :
      (f : Fifo) (b : ℕ) → length (contents f) < size → contents (put f b) ≡ contents f ++ b ∷ []
  contents-put f b h = ground (arith, put_lem f b, is_full_lem f)

  unfoldable pub overwrite : Fifo → ℕ → Fifo
  overwrite f b = put (if is_full f then (get f).1 else f) b

  length-get : (f : Fifo) → length (contents (get f).1) ≡ length (contents f) - 1
  length-get f = ap length (get_rest f) ∙ length-pop (contents f)

  filled : (f : Fifo) → is_full f ≡ true → length (contents f) ≡ size
  filled f h = ground (arith, is_full_lem f, K.bounded f)

  some_room : (f : Fifo) → is_full f ≡ false → length (contents f) < size
  some_room f h = ground (arith, is_full_lem f)

  -- The fifo keeps the newest `size` bytes.
  pub contents-overwrite :
      (f : Fifo) (b : ℕ) → contents (overwrite f b) ≡ keep_last size (contents f ++ b ∷ [])
  unfolding overwrite
  contents-overwrite f b = elim (Bool-cases (is_full f)) [
    | inl full ↦
        ap (λ t. contents (put (if t then (get f).1 else f) b)) full
        ∙ contents-put (get f).1 b (omega (arith, length-get f, filled f full, K.size_pos))
        ∙ ap (λ r. r ++ b ∷ []) (get_rest f)
        ∙ sym (keep_last_full size (contents f) b K.size_pos (filled f full))
    | inr room ↦
        ap (λ t. contents (put (if t then (get f).1 else f) b)) room
        ∙ contents-put f b (some_room f room)
        ∙ sym (
            keep_last_fits size (contents f ++ b ∷ [])
              (omega (arith, length-append (contents f) (b ∷ []), some_room f room)))
  ]
