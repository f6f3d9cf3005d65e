-- ===== src/SpiSlave/Ring/Valid.antt =====
-- The packets that a ring holds, the oldest first, and how RXRING_INSERT and RXRING_REMOVE change
-- them.
use testings.Prelude.{
  assign, ℕ, ◌+◌, ◌-◌, ◌%◌, ◌≤◌, ◌<◌, ◌≡◌, ◌≢◌, ◌⊎◌, inl, inr, refl, sym, ap, subst, ◌∙◌, true,
  false, List, [], ◌∷◌, ◌++◌, length, length-append, arith, ◌==◌, if◌then◌else◌, Bool-cases,
}
use mathlib.Core.Bool.{false≢true}
use testings.Prelude.Int.{ℤ, pos, negsuc}
use testings.SpiSlave.Ring.{
  CircBuf, rx_ring_packets, flagged, advance, rxring_insert, rxring_remove, rxring_clear,
}
use testings.SpiSlave.Ring.Free.{In}

-- From index `i` on, the ring holds these packets.
abbrev pub Stored : (ℕ → ℤ) → ℕ → List ℕ → Type 0
Stored b i [] = Unit
Stored b i (x ∷ xs) = (b i ≡ pos x) × Stored b (advance i) xs

-- Their flags are set.
abbrev pub Marked : (ℕ → ℤ) → List ℕ → Type 0
Marked b [] = Unit
Marked b (x ∷ xs) = (x < rx_ring_packets) × (flagged b x ≡ true) × Marked b xs

-- No packet is there twice.
abbrev pub Distinct : List ℕ → Type 0
Distinct [] = Unit
Distinct (x ∷ xs) = (In x xs → ⊥) × Distinct xs

abbrev pub distance : ℕ → ℕ → ℕ
distance i h = (h + rx_ring_packets - i) % rx_ring_packets

pub record IsRing (c : CircBuf) (ids : List ℕ) : Type 0 where
  pub head_in : c.head < rx_ring_packets
  pub tail_in : c.tail < rx_ring_packets
  pub count : length ids ≡ distance c.tail c.head
  pub stored : Stored c.buf c.tail ids
  pub marked : Marked c.buf ids
  pub distinct : Distinct ids
  pub marks : (x : ℕ) → x < rx_ring_packets → flagged c.buf x ≡ true → In x ids

In-snoc : (a y : ℕ) (xs : List ℕ) → In a xs → In a (xs ++ y ∷ [])
In-snoc a y [] h = elim h [ ]
In-snoc a y (x ∷ xs) (inl e) = inl e
In-snoc a y (x ∷ xs) (inr h) = inr (In-snoc a y xs h)

In-last : (y : ℕ) (xs : List ℕ) → In y (xs ++ y ∷ [])
In-last y [] = inl refl
In-last y (x ∷ xs) = inr (In-last y xs)

In-unsnoc : (a y : ℕ) (xs : List ℕ) → In a (xs ++ y ∷ []) → In a xs ⊎ (y ≡ a)
In-unsnoc a y [] (inl e) = inr e
In-unsnoc a y [] (inr h) = elim h [ ]
In-unsnoc a y (x ∷ xs) (inl e) = inl (inl e)
In-unsnoc a y (x ∷ xs) (inr h) = elim (In-unsnoc a y xs h) [ inl i ↦ inl (inr i) | inr e ↦ inr e ]

Distinct-snoc : (y : ℕ) (xs : List ℕ) → Distinct xs → (In y xs → ⊥) → Distinct (xs ++ y ∷ [])
Distinct-snoc y [] d n = ((λ h. h), tt)
Distinct-snoc y (x ∷ xs) d n = (
  λ h. elim (In-unsnoc x y xs h) [ inl i ↦ d.0 i | inr e ↦ n (inl (sym e)) ],
  Distinct-snoc y xs d.1 (λ h. n (inr h)),
)

-- A packet whose flag is not set is not there.
pub unmarked_out :
    (b : ℕ → ℤ) (y : ℕ) (xs : List ℕ) → Marked b xs → flagged b y ≡ false → In y xs → ⊥
unmarked_out b y [] m off h = h
unmarked_out b y (x ∷ xs) m off (inl e) =
    false≢true (sym off ∙ subst (λ z. flagged b z ≡ true) e m.1)
unmarked_out b y (x ∷ xs) m off (inr h) = unmarked_out b y xs m.2 off h

module _ (b : ℕ → ℤ) (head idx : ℕ) (head_in : head < rx_ring_packets) where
  inserted : ℕ → ℤ
  inserted = assign (assign b head (pos idx)) (rx_ring_packets + idx) (pos 1)

  Stored-insert :
      (i : ℕ) (xs : List ℕ)
      → i < rx_ring_packets
      → length xs ≡ distance i head
      → Stored b i xs
      → Stored inserted i (xs ++ idx ∷ [])
  unfolding inserted
  Stored-insert i [] lt e s = let at : i ≡ head = omega arith in (ground arith, tt)
  Stored-insert i (x ∷ xs) lt e s =
      let apart : i ≢ head = omega arith in
      let kept : inserted i ≡ b i = ground arith in
      (kept ∙ s.0, Stored-insert (advance i) xs (omega arith) (omega arith) s.1)

  flagged-insert : (x : ℕ) → flagged inserted x ≡ (if x == idx then true else flagged b x)
  unfolding inserted
  flagged-insert x = ground arith

  Marked-insert :
      (xs : List ℕ) → idx < rx_ring_packets → Marked b xs → Marked inserted (xs ++ idx ∷ [])
  Marked-insert [] lt m = (lt, ground (arith, flagged-insert idx), tt)
  Marked-insert (x ∷ xs) lt m =
      (m.0, ground (arith, flagged-insert x, m.1), Marked-insert xs lt m.2)

same : (x y : ℕ) → (x == y) ≡ true → y ≡ x
same x y e = ground arith

same_test : (y x : ℕ) → x ≡ y → (y == x) ≡ true
same_test y x e = ground arith

-- RXRING_INSERT of a packet whose flag is not set puts it last, where a slot is left over.
pub insert-IsRing :
    (c : CircBuf) (ids : List ℕ) (idx : ℕ)
    → IsRing c ids
    → idx < rx_ring_packets
    → flagged c.buf idx ≡ false
    → length ids < rx_ring_packets - 1
    → IsRing (rxring_insert c idx) (ids ++ idx ∷ [])
unfolding rxring_insert inserted
insert-IsRing c ids idx r lt off room =
    let longer : length (ids ++ idx ∷ []) ≡ length ids + 1 = length-append ids (idx ∷ []) in
    record {
      head_in = omega arith;
      tail_in = r.tail_in;
      count = omega (arith, r.count, r.head_in, r.tail_in);
      stored = Stored-insert c.buf c.head idx r.head_in c.tail ids r.tail_in r.count r.stored;
      marked = Marked-insert c.buf c.head idx r.head_in ids lt r.marked;
      distinct = Distinct-snoc idx ids r.distinct (unmarked_out c.buf idx ids r.marked off);
      marks = λ x small on. elim (Bool-cases (x == idx)) [
        | inl e ↦ subst (λ y. In y (ids ++ idx ∷ [])) (same x idx e) (In-last idx ids)
        | inr e ↦ In-snoc x idx ids (
            r.marks x small (
              ap (λ t. if t then true else flagged c.buf x) (sym e)
              ∙ sym (flagged-insert c.buf c.head idx r.head_in x)
              ∙ on))
      ];
    }

module _ (b : ℕ → ℤ) (tail x : ℕ) (tail_in : tail < rx_ring_packets) where
  removed : ℕ → ℤ
  removed = assign (assign b (rx_ring_packets + x) (pos 0)) tail (negsuc 0)

  Stored-remove :
      (i : ℕ) (xs : List ℕ)
      → i < rx_ring_packets
      → length xs ≤ distance i tail
      → Stored b i xs
      → Stored removed i xs
  unfolding removed
  Stored-remove i [] lt h s = tt
  Stored-remove i (y ∷ ys) lt h s =
      let apart : i ≢ tail = omega arith in
      let kept : removed i ≡ b i = ground arith in
      (kept ∙ s.0, Stored-remove (advance i) ys (omega arith) (omega arith) s.1)

  flagged-remove : (y : ℕ) → flagged removed y ≡ (if y == x then false else flagged b y)
  unfolding removed
  flagged-remove y = ground arith

  Marked-remove : (xs : List ℕ) → (In x xs → ⊥) → Marked b xs → Marked removed xs
  Marked-remove [] n m = tt
  Marked-remove (y ∷ ys) n m =
      let apart : y ≢ x = λ e. n (inl e) in
      (m.0, ground (arith, flagged-remove y, m.1), Marked-remove ys (λ h. n (inr h)) m.2)

-- RXRING_REMOVE takes the oldest packet out.
pub remove-IsRing :
    (c : CircBuf) (x : ℕ) (xs : List ℕ) → IsRing c (x ∷ xs) → IsRing (rxring_remove c) xs
unfolding rxring_remove removed
remove-IsRing c x xs r =
    let first : c.buf c.tail ≡ pos x = r.stored.0 in
    rw first (record {
      head_in = r.head_in;
      tail_in = omega arith;
      count = omega (arith, r.count, r.head_in, r.tail_in);
      stored =
          Stored-remove c.buf c.tail x r.tail_in (advance c.tail) xs (omega arith)
            (omega (arith, r.count, r.tail_in, r.head_in)) r.stored.1;
      marked = Marked-remove c.buf c.tail x r.tail_in xs r.distinct.0 r.marked.2;
      distinct = r.distinct.1;
      marks = λ y small on. elim (Bool-cases (y == x)) [
        | inl e ↦ absurd (
            false≢true (
              ap (λ t. if t then false else flagged c.buf y) (sym e)
              ∙ sym (flagged-remove c.buf c.tail x r.tail_in y)
              ∙ on))
        | inr e ↦
            elim (r.marks y small (
              ap (λ t. if t then false else flagged c.buf y) (sym e)
              ∙ sym (flagged-remove c.buf c.tail x r.tail_in y)
              ∙ on)) [ inl f ↦ absurd (false≢true (sym e ∙ same_test y x f)) | inr i ↦ i ]
      ];
    })

-- RXRING_REMOVE sets no flag.
pub remove-unflagged :
    (c : CircBuf) (x : ℕ) (xs : List ℕ) (i : ℕ)
    → IsRing c (x ∷ xs)
    → flagged c.buf i ≡ false
    → flagged (rxring_remove c).buf i ≡ false
unfolding rxring_remove removed
remove-unflagged c x xs i r off =
    let first : c.buf c.tail ≡ pos x = r.stored.0 in
    rw first (ground (arith, flagged-remove c.buf c.tail x r.tail_in i))

-- RXRING_CLEAR leaves an empty ring.
pub clear-IsRing : (c : CircBuf) → IsRing (rxring_clear c) []
unfolding rxring_clear
clear-IsRing c = record {
  head_in = omega arith;
  tail_in = omega arith;
  count = omega arith;
  stored = tt;
  marked = tt;
  distinct = tt;
  marks = λ x small on. false≢true on;
}
