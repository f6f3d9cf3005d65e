-- ===== src/SpiSlave/Receive/Poll.antt =====
-- The rounds of the outer loop together: how the dwords are spread over them does not matter.
use testings.Prelude.{
  ℕ, ◌≡◌, refl, sym, ap, ap₂, ◌∙◌, Bool, true, false, ◌||◌, Option, some, List, [], ◌∷◌, ◌++◌,
  append_assoc, Bool-cases, inl, inr,
}
use mathlib.Core.Bool.{false≢true}
use testings.SpiSlave.Receive.{
  Loop, Round, overrun, is_positive, rx_word, rx_words, count_overrun, rx_poll,
}

-- All the dwords that come in.
abbrev pub flat : List Round → List ℕ
flat [] = []
flat (r ∷ rs) = r.arrived ++ flat rs

-- Nobody stops the thread, and the hardware loses nothing.
abbrev pub Quiet : List Round → Type 0
Quiet [] = Unit
Quiet (r ∷ rs) = (r.stop ≡ false) × (overrun r.stat ≡ false) × Quiet rs

or_true : (a b : Bool) → b ≡ true → (a || b) ≡ true
or_true true b e = refl
or_true false b e = e

or_false : (a b : Bool) → a ≡ false → b ≡ false → (a || b) ≡ false
or_false true b e f = e
or_false false b e f = f

module _ (idx : ℕ) where
  abbrev go_on : List ℕ → Loop × List ℕ → Loop × List ℕ
  go_on ys o = elim (is_positive o.0.rv) [ true ↦ (o.0, o.1 ++ ys) | false ↦ rx_words idx ys o.0 ]

  rx_words-append :
      (xs ys : List ℕ) (l : Loop)
      → is_positive l.rv ≡ false
      → rx_words idx (xs ++ ys) l ≡ go_on ys (rx_words idx xs l)
  unfolding rx_words
  rx_words-append [] ys l e = rw e
  rx_words-append (x ∷ xs) ys l e =
      let next = rx_word idx x l in
      elim (Bool-cases (is_positive next.rv)) [
        | inl done ↦ rw (done, rx_words) (rw (done, go_on))
        | inr more ↦ rw (more, rx_words) (rx_words-append xs ys next more)
      ]

  rx_words-drained :
      (xs : List ℕ) (l : Loop)
      → is_positive (rx_words idx xs l).0.rv ≡ false
      → (rx_words idx xs l).1 ≡ []
  unfolding rx_words
  rx_words-drained [] l e = refl
  rx_words-drained (x ∷ xs) l e =
      let next = rx_word idx x l in
      elim (Bool-cases (is_positive next.rv)) [
        | inl done ↦ absurd (false≢true (sym (rw (done, rx_words) at e) ∙ done))
        | inr more ↦ rw (more, rx_words) (rx_words-drained xs next (rw (more, rx_words) at e))
      ]

  rx_poll-done :
      (rs : List Round) (fifo : List ℕ) (l : Loop)
      → is_positive l.rv ≡ true
      → rx_poll idx rs fifo l ≡ some (l, fifo)
  unfolding rx_poll
  rx_poll-done [] fifo l e = rw e
  rx_poll-done (r ∷ rs) fifo l e = rw (or_true r.stop (is_positive l.rv) e, rx_poll)

  count_none : (r : Round) (l : Loop) → overrun r.stat ≡ false → count_overrun r.stat l ≡ l
  unfolding count_overrun
  count_none r l e = rw e

  abbrev branch : Round → List Round → List ℕ → Loop → Bool → Loop → Option (Loop × List ℕ)
  branch r rs fifo l b counted =
      let w = rx_words idx (fifo ++ r.arrived) counted in
      elim b [ true ↦ some (l, fifo) | false ↦ rx_poll idx rs w.1 w.0 ]

  -- What a quiet round does to a packet that is not complete.
  rx_poll-cons :
      (r : Round) (rs : List Round) (fifo : List ℕ) (l : Loop)
      → r.stop ≡ false
      → overrun r.stat ≡ false
      → is_positive l.rv ≡ false
      → rx_poll idx (r ∷ rs) fifo l
        ≡ rx_poll idx rs
            (rx_words idx (fifo ++ r.arrived) l).1
            (rx_words idx (fifo ++ r.arrived) l).0
  unfolding rx_poll
  rx_poll-cons r rs fifo l go fine more =
      ap₂ (branch r rs fifo l) (or_false r.stop (is_positive l.rv) go more) (count_none r l fine)

  abbrev all_words : List Round → List ℕ → Loop → Loop × List ℕ
  all_words rs fifo l = rx_words idx (fifo ++ flat rs) l

  -- What the theorem says of some rounds.
  abbrev Polled : List Round → List ℕ → Loop → Type 0
  Polled rs fifo l =
      (f : List ℕ) × (m : List ℕ) × (rx_poll idx rs fifo l ≡ some ((all_words rs fifo l).0, f))
      × (f ++ m ≡ (all_words rs fifo l).1)

  all_words-cons :
      (r : Round) (rs : List Round) (fifo : List ℕ) (l : Loop)
      → is_positive l.rv ≡ false
      → all_words (r ∷ rs) fifo l ≡ go_on (flat rs) (rx_words idx (fifo ++ r.arrived) l)
  all_words-cons r rs fifo l more =
      ap (λ xs. rx_words idx xs l) (sym (append_assoc fifo r.arrived (flat rs)))
      ∙ rx_words-append (fifo ++ r.arrived) (flat rs) l more

  -- The first round completes the packet.
  now_Polled :
      (r : Round) (rs : List Round) (fifo : List ℕ) (l : Loop)
      → Quiet (r ∷ rs)
      → is_positive l.rv ≡ false
      → is_positive (rx_words idx (fifo ++ r.arrived) l).0.rv ≡ true
      → Polled (r ∷ rs) fifo l
  now_Polled r rs fifo l quiet more done =
      let w = rx_words idx (fifo ++ r.arrived) l in
      let here : all_words (r ∷ rs) fifo l ≡ (w.0, w.1 ++ flat rs) =
        all_words-cons r rs fifo l more ∙ rw (done, go_on) in
      (
        w.1,
        flat rs,
        rx_poll-cons r rs fifo l quiet.0 quiet.1 more
            ∙ rx_poll-done rs w.1 w.0 done
            ∙ ap (λ (o : Loop × List ℕ). some (o.0, w.1)) (sym here),
        sym (ap (λ (o : Loop × List ℕ). o.1) here),
      )

  -- The first round does not, and what is left is as if the hardware had it from the start.
  pending_words :
      (r : Round) (rs : List Round) (fifo : List ℕ) (l : Loop)
      → is_positive l.rv ≡ false
      → is_positive (rx_words idx (fifo ++ r.arrived) l).0.rv ≡ false
      → all_words (r ∷ rs) fifo l ≡ all_words rs [] (rx_words idx (fifo ++ r.arrived) l).0
  pending_words r rs fifo l more pending = all_words-cons r rs fifo l more ∙ rw (pending, go_on)

  -- Where the dwords of quiet rounds, after those that the hardware has, complete a packet, so do the
  -- rounds; the dwords behind the packet stay.
  pub rx_poll-rx_words :
      (r : Round) (rs : List Round) (fifo : List ℕ) (l : Loop)
      → Quiet (r ∷ rs)
      → is_positive l.rv ≡ false
      → is_positive (all_words (r ∷ rs) fifo l).0.rv ≡ true
      → Polled (r ∷ rs) fifo l
  unfolding rx_words
  rx_poll-rx_words r [] fifo l quiet more e =
      elim (Bool-cases (is_positive (rx_words idx (fifo ++ r.arrived) l).0.rv)) [
        | inl done ↦ now_Polled r [] fifo l quiet more done
        | inr pending ↦ absurd (
            false≢true (
              sym pending
              ∙ sym (
                  ap (λ (o : Loop × List ℕ). is_positive o.0.rv)
                    (pending_words r [] fifo l more pending))
              ∙ e))
      ]
  rx_poll-rx_words r (s ∷ rs) fifo l quiet more e =
      let w = rx_words idx (fifo ++ r.arrived) l in
      elim (Bool-cases (is_positive w.0.rv)) [
        | inl done ↦ now_Polled r (s ∷ rs) fifo l quiet more done
        | inr pending ↦
            let same = pending_words r (s ∷ rs) fifo l more pending in
            let later =
              rx_poll-rx_words s rs [] w.0 quiet.2 pending
                (sym (ap (λ (o : Loop × List ℕ). is_positive o.0.rv) same) ∙ e) in
            (
              later.0,
              later.1,
              rx_poll-cons r (s ∷ rs) fifo l quiet.0 quiet.1 more
                  ∙ ap (λ k. rx_poll idx (s ∷ rs) k w.0)
                      (rx_words-drained (fifo ++ r.arrived) l pending)
                  ∙ later.2
                  ∙ ap (λ (o : Loop × List ℕ). some (o.0, later.0)) (sym same),
              later.3 ∙ sym (ap (λ (o : Loop × List ℕ). o.1) same),
            )
      ]
