-- ===== src/GpiodUart/Filling.antt =====
-- The ring, which the writers fill and nothing empties.
use testings.Prelude.{
  ℕ, ◌≤◌, ◌<◌, ◌≡◌, refl, sym, ap, subst, ◌∙◌, true, false, some, List, [], ◌∷◌, ◌++◌, append-nil,
  append_assoc, length, take, inl, inr, arith, ltb, if◌then◌else◌, Bool-cases, length-append,
  length-take, take_all, take-append_fits,
}
use testings.Prelude.Int.{pos}
use testings.TxRing.{TxRing, tx_ring_put, IsValid, put-IsValid}
use testings.TxRing.Queue.{contents, put_spec, put_refines}
use testings.GpiodUart.{
  GpiodUart, rx_timer_cb, put_all, gu_tty_write, Termios, gu_set_termios, Stored, refused,
  divides_by_zero, stored, baud_store,
}

-- The ring holds the first 511 of the bytes `bs`.
pub record Holds (bs : List ℕ) (r : TxRing) : Type 0 where
  pub valid : IsValid r
  pub first : contents r ≡ take 511 bs

take_snoc :
    (n : ℕ) (bs : List ℕ) (b : ℕ)
    → (if ltb (length (take n bs)) n then take n bs ++ b ∷ [] else take n bs)
      ≡ take n (bs ++ b ∷ [])
take_snoc n bs b = elim (Bool-cases (ltb (length bs) n)) [
  | inl e ↦
      let below : length bs < n = ground (arith, e) in
      let t : ltb (length (take n bs)) n ≡ true = ground (arith, below, length-take n bs) in
      let fits : length (bs ++ b ∷ []) ≤ n = omega (arith, below, length-append bs (b ∷ [])) in
      rw t (
        ap (λ xs. xs ++ b ∷ []) (take_all n bs (omega arith))
        ∙ sym (take_all n (bs ++ b ∷ []) fits))
  | inr e ↦
      let above : n ≤ length bs = ground (arith, e) in
      let t : ltb (length (take n bs)) n ≡ false = ground (arith, above, length-take n bs) in
      rw t (sym (take-append_fits n bs (b ∷ []) above))
]

put_spec_queue :
    (q : List ℕ) (b : ℕ) → (put_spec q b).1 ≡ (if ltb (length q) 511 then q ++ b ∷ [] else q)
put_spec_queue q b = elim (Bool-cases (ltb (length q) 511)) [
  | inl e ↦ rw e refl
  | inr e ↦ rw e refl
]

Holds-tx_ring_put :
    (bs : List ℕ) (b : ℕ) (r : TxRing) → Holds bs r → Holds (bs ++ b ∷ []) (tx_ring_put r b).1
Holds-tx_ring_put bs b r h = record {
  valid = put-IsValid r b h.valid;
  first =
      ap (λ p. p.1) (put_refines r b h.valid)
      ∙ put_spec_queue (contents r) b
      ∙ ap (λ q. if ltb (length q) 511 then q ++ b ∷ [] else q) h.first
      ∙ take_snoc 511 bs b;
}

Holds-put_all : (bs cs : List ℕ) (r : TxRing) → Holds bs r → Holds (bs ++ cs) (put_all cs r)
unfolding put_all
Holds-put_all bs [] r h = rw (append-nil bs) h
Holds-put_all bs (c ∷ cs) r h =
    rw (sym (append_assoc bs (c ∷ []) cs))
      (Holds-put_all (bs ++ c ∷ []) cs (tx_ring_put r c).1 (Holds-tx_ring_put bs c r h))

-- What happens to the device: a call of the timer that reads a level, a write, new settings, and a store
-- that the attribute takes.
pub data Happens : GpiodUart → List ℕ → GpiodUart → Type 0 where
  none_yet : {g : GpiodUart} → Happens g [] g
  samples :
      (v : ℕ) {g g' : GpiodUart} {bs : List ℕ}
      → Happens g bs g'
      → Happens g bs (rx_timer_cb g' v).next
  writes :
      (cs : List ℕ) {g g' : GpiodUart} {bs : List ℕ}
      → Happens g bs g'
      → Happens g (bs ++ cs) (gu_tty_write cs g').1
  sets :
      (t : Termios) {g g' : GpiodUart} {bs : List ℕ}
      → Happens g bs g'
      → Happens g bs (gu_set_termios t g')
  stores :
      (v : ℕ) {g g' g'' : GpiodUart} {bs : List ℕ}
      → baud_store (some v) g' ≡ stored g''
      → Happens g bs g'
      → Happens g bs g''

tx_ring-rx_timer_cb : (g : GpiodUart) (v : ℕ) → (rx_timer_cb g v).next.tx_ring ≡ g.tx_ring
unfolding rx_timer_cb
tx_ring-rx_timer_cb g v = ground arith

abbrev ring_of : TxRing → Stored → TxRing
ring_of r refused = r
ring_of r divides_by_zero = r
ring_of r (stored g) = g.tx_ring

ring_of-baud_store : (v : ℕ) (g : GpiodUart) → ring_of g.tx_ring (baud_store (some v) g) ≡ g.tx_ring
unfolding baud_store
ring_of-baud_store v g = ground arith

tx_ring-gu_set_termios : (t : Termios) (g : GpiodUart) → (gu_set_termios t g).tx_ring ≡ g.tx_ring
unfolding gu_set_termios
tx_ring-gu_set_termios t g = refl

Holds-gu_tty_write :
    (bs cs : List ℕ) (g : GpiodUart)
    → Holds bs g.tx_ring
    → Holds (bs ++ cs) (gu_tty_write cs g).1.tx_ring
unfolding gu_tty_write
Holds-gu_tty_write bs cs g h = Holds-put_all bs cs g.tx_ring h

-- A device whose ring is valid and empty holds, whatever happens to it, the first 511 of all the bytes
-- that are written to it, since nothing takes a byte out of the ring; each write says that it has taken
-- all of its bytes.
pub Happens-Holds :
    (g g' : GpiodUart) (bs cs : List ℕ)
    → Holds [] g.tx_ring
    → Happens g bs g'
    → Holds bs g'.tx_ring × ((gu_tty_write cs g').0 ≡ pos (length cs))
unfolding gu_tty_write
Happens-Holds g g' bs cs h steps = (go g' bs steps, refl)
  where
    go : (x : GpiodUart) (bs : List ℕ) → Happens g bs x → Holds bs x.tx_ring
    go x bs none_yet = h
    go x bs (samples v {g' = y} s) = rw (tx_ring-rx_timer_cb y v) (go y bs s)
    go x bs (writes cs {g' = y} {bs = before} s) = Holds-gu_tty_write before cs y (go y before s)
    go x bs (sets t {g' = y} s) = rw (tx_ring-gu_set_termios t y) (go y bs s)
    go x bs (stores v {g' = y} e s) =
        subst (Holds bs) (sym (ring_of-baud_store v y) ∙ ap (ring_of y.tx_ring) e) (go y bs s)
