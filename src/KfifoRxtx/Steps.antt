-- ===== src/KfifoRxtx/Steps.antt =====
-- The operations of the device in any order, each at once.
use testings.Prelude.{
  ℕ, zero, suc, ◌≤◌, ◌<◌, ◌≡◌, refl, sym, ap, ap₂, ◌∙◌, true, false, not, none, some, List, [], ◌∷◌,
  ◌++◌, append-nil, append_assoc, arith, length, pop, ◌==◌,
}
use testings.Prelude.Int.{ℤ}
use testings.Kernel.Kfifo.{Kfifo}
use testings.KfifoRxtx.{
  Mydev, int_max, mydev_irq_handler, drain, tx_work_fn, read_copy, write_copy, mydev_open,
  mydev_release,
}

module _ (K : Kfifo) where
  open K use {Fifo, User, size, contents, get, get_byte, get_rest, is_empty, is_full, from_user}

  -- With the bytes that writes have put into the fifo by then, the oldest first. Files are read,
  -- written and released only while one is open; the interrupt and the work item run only while they are set up.
  pub data Reach : Mydev Fifo → List ℕ → Type 0 where
    start :
        (rx tx : Fifo)
        → contents tx ≡ []
        → Reach
            (record {
              rx_fifo = rx;
              tx_fifo = tx;
              open_count = 0;
              irq_held = false;
              tx_work = false;
              hw = [];
            })
            []
    opened : {d : Mydev Fifo} {ws : List ℕ} (irq : ℤ) → Reach d ws → Reach (mydev_open K irq d).1 ws
    released :
        {d : Mydev Fifo} {ws : List ℕ}
        → 0 < d.open_count
        → Reach d ws
        → Reach (mydev_release K d) ws
    edge :
        {d : Mydev Fifo} {ws : List ℕ} (level : ℕ)
        → d.irq_held ≡ true
        → Reach d ws
        → Reach (mydev_irq_handler K d level) ws
    worked :
        {d : Mydev Fifo} {ws : List ℕ}
        → d.tx_work ≡ true
        → Reach d ws
        → Reach (tx_work_fn K (suc size) d) ws
    reads :
        {d : Mydev Fifo} {ws : List ℕ} (u : User) (n : ℕ)
        → 0 < d.open_count
        → Reach d ws
        → Reach (read_copy K d u n).1 ws
    writes :
        {d : Mydev Fifo} {ws : List ℕ} (u : User) (n : ℕ)
        → 0 < d.open_count
        → Reach d ws
        → Reach (write_copy K d u n).1 (ws ++ (from_user d.tx_fifo u n).moved)

  get-empty : (f : Fifo) → contents f ≡ [] → ((get f).0 ≡ none) × (contents (get f).1 ≡ [])
  get-empty f e = (get_byte f ∙ ap (λ xs. (pop xs).0) e, get_rest f ∙ ap (λ xs. (pop xs).1) e)

  get-next :
      (f : Fifo) (x : ℕ) (xs : List ℕ)
      → contents f ≡ x ∷ xs
      → ((get f).0 ≡ some x) × (contents (get f).1 ≡ xs)
  get-next f x xs e = (get_byte f ∙ ap (λ ys. (pop ys).0) e, get_rest f ∙ ap (λ ys. (pop ys).1) e)

  -- More rounds than bytes pass all the bytes on, in order.
  drain_lem :
      (n : ℕ) (f : Fifo) (sent xs : List ℕ)
      → contents f ≡ xs
      → length xs < n
      → ((drain K n f sent).1 ≡ sent ++ xs) × (contents (drain K n f sent).0 ≡ [])
  unfolding drain
  drain_lem zero f sent xs e h = absurd (omega arith)
  drain_lem (suc n) f sent [] e h =
      let g = get-empty f e in rw (g.0, drain) (sym (append-nil sent), g.1)
  drain_lem (suc n) f sent (x ∷ xs) e h =
      let g = get-next f x xs e in
      let rest = drain_lem n (get f).1 (sent ++ x ∷ []) xs g.1 (omega arith) in
      rw (g.0, drain) (rest.0 ∙ append_assoc sent (x ∷ []) xs, rest.1)

  -- A run of tx_work_fn with a round for every byte that the fifo can hold, and one more, gives the
  -- hardware all the bytes of the fifo in order and leaves it empty.
  pub tx_work_fn_lem :
      (d : Mydev Fifo)
      → ((tx_work_fn K (suc size) d).hw ≡ d.hw ++ contents d.tx_fifo)
        × (contents (tx_work_fn K (suc size) d).tx_fifo ≡ [])
  unfolding tx_work_fn
  tx_work_fn_lem d =
      drain_lem (suc size) d.tx_fifo d.hw (contents d.tx_fifo) refl
        (omega (arith, K.bounded d.tx_fifo))

  pub record IsConserving (d : Mydev Fifo) (ws : List ℕ) : Type 0 where
    pub conserved : d.hw ++ contents d.tx_fifo ≡ ws
    pub held : d.irq_held ≡ not (d.open_count == 0)
    pub few : d.open_count ≤ int_max
    pub idle : d.open_count ≡ 0 → d.tx_work ≡ false

  work-IsConserving :
      (d : Mydev Fifo) (ws : List ℕ)
      → IsConserving d ws
      → IsConserving (tx_work_fn K (suc size) d) ws
  unfolding tx_work_fn
  work-IsConserving d ws i =
      let ran = tx_work_fn_lem d in
      record {
        conserved = ap₂ ◌++◌ ran.0 ran.1 ∙ append-nil (d.hw ++ contents d.tx_fifo) ∙ i.conserved;
        held = i.held;
        few = i.few;
        idle = λ z. refl;
      }

  open-IsConserving :
      (irq : ℤ) (d : Mydev Fifo) (ws : List ℕ)
      → IsConserving d ws
      → IsConserving (mydev_open K irq d).1 ws
  unfolding mydev_open
  open-IsConserving irq d ws i = record {
    conserved = ground (arith, i.conserved);
    held = ground (arith, i.held, i.few);
    few = ground (arith, i.few);
    idle = ground (arith, i.few, i.idle);
  }

  release-IsConserving :
      (d : Mydev Fifo) (ws : List ℕ)
      → 0 < d.open_count
      → IsConserving d ws
      → IsConserving (mydev_release K d) ws
  unfolding mydev_release
  release-IsConserving d ws h i = record {
    conserved = ground (arith, i.conserved);
    held = ground (arith, i.held, i.few);
    few = ground (arith, i.few);
    idle = ground (arith, i.few, i.idle);
  }

  write-IsConserving :
      (d : Mydev Fifo) (ws : List ℕ) (u : User) (n : ℕ)
      → 0 < d.open_count
      → IsConserving d ws
      → IsConserving (write_copy K d u n).1 (ws ++ (from_user d.tx_fifo u n).moved)
  unfolding write_copy
  write-IsConserving d ws u n h i = record {
    conserved =
        ap (◌++◌ d.hw) (K.from_user_split d.tx_fifo u n)
        ∙ sym (append_assoc d.hw (contents d.tx_fifo) (from_user d.tx_fifo u n).moved)
        ∙ ap (λ xs. xs ++ (from_user d.tx_fifo u n).moved) i.conserved;
    held = i.held;
    few = i.few;
    idle = λ z. absurd (omega (arith, z, h));
  }

  -- In every state that opens, releases, interrupts, runs of the work item, reads and writes reach:
  -- what the hardware was given and what waits in the fifo are, one after the other, what the
  -- writes have put in; the interrupt is requested exactly while a file is open; and no work item
  -- is scheduled while none is.
  pub Reach-IsConserving : {d : Mydev Fifo} {ws : List ℕ} → Reach d ws → IsConserving d ws
  unfolding mydev_irq_handler read_copy
  Reach-IsConserving (start rx tx e) = record {
    conserved = e;
    held = refl;
    few = omega arith;
    idle = λ z. refl;
  }
  Reach-IsConserving (opened {d} {ws} irq p) = open-IsConserving irq d ws (Reach-IsConserving p)
  Reach-IsConserving (released {d} {ws} h p) = release-IsConserving d ws h (Reach-IsConserving p)
  Reach-IsConserving (edge level h p) =
      let i = Reach-IsConserving p in
      record { conserved = i.conserved; held = i.held; few = i.few; idle = i.idle }
  Reach-IsConserving (worked {d} {ws} h p) = work-IsConserving d ws (Reach-IsConserving p)
  Reach-IsConserving (reads u n h p) =
      let i = Reach-IsConserving p in
      record { conserved = i.conserved; held = i.held; few = i.few; idle = i.idle }
  Reach-IsConserving (writes {d} {ws} u n h p) =
      write-IsConserving d ws u n h (Reach-IsConserving p)
