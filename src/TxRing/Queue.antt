-- ===== src/TxRing/Queue.antt =====
-- A valid ring is a queue of at most 511 bytes.
use testings.Prelude.{
  ℕ, zero, suc, ◌+◌, ◌-◌, ◌%◌, ◌≤◌, ◌<◌, ◌≡◌, ◌≢◌, refl, sym, ap, ap₂, ◌∙◌, Bool, true, false,
  Option, none, some, List, [], ◌∷◌, ◌++◌, length, get_or, set, pop, ltb, not, ◌==◌, if◌then◌else◌,
  arith, get_or-set_self, get_or-set_ne, Bool-cases, inl, inr,
}
use testings.TxRing.{
  TxRing, tx_ring_put, tx_ring_get, tx_ring_count, IsValid, put-IsValid, get-IsValid,
}

-- The `n` bytes from index `i` on, round the end of the buffer.
abbrev pub slots : List ℕ → ℕ → ℕ → List ℕ
slots buf i zero = []
slots buf i (suc n) = get_or buf i 0 ∷ slots buf ((i + 1) % 512) n

-- How far `h` lies beyond `i`.
abbrev distance : ℕ → ℕ → ℕ
distance i h = (h + 512 - i) % 512

abbrev pub contents : TxRing → List ℕ
contents r = slots r.buf r.tail (distance r.tail r.head)

length-slots : (buf : List ℕ) (i n : ℕ) → length (slots buf i n) ≡ n
length-slots buf i zero = refl
length-slots buf i (suc n) = ap suc (length-slots buf ((i + 1) % 512) n)

-- A write beyond the last slot changes none of them.
slots-set :
    (buf : List ℕ) (i n h b : ℕ)
    → i < 512
    → h < 512
    → n ≤ distance i h
    → slots (set buf h b) i n ≡ slots buf i n
slots-set buf i zero h b hi hh d = refl
slots-set buf i (suc n) h b hi hh d =
    let apart : h ≢ i = omega arith in
    ap₂ ◌∷◌ (get_or-set_ne buf b 0 apart)
      (slots-set buf ((i + 1) % 512) n h b (omega arith) hh (omega arith))

slots-snoc :
    (buf : List ℕ) (i n : ℕ)
    → i < 512
    → slots buf i (suc n) ≡ slots buf i n ++ get_or buf ((i + n) % 512) 0 ∷ []
slots-snoc buf i zero hi =
    let e : i ≡ (i + 0) % 512 = omega arith in ap (λ k. get_or buf k 0 ∷ []) e
slots-snoc buf i (suc n) hi =
    let e : ((i + 1) % 512 + n) % 512 ≡ (i + suc n) % 512 = omega arith in
    ap (◌∷◌ (get_or buf i 0)) (
      slots-snoc buf ((i + 1) % 512) n (omega arith)
      ∙ ap (λ k. slots buf ((i + 1) % 512) n ++ get_or buf k 0 ∷ []) e)

slots-pop :
    (buf : List ℕ) (i n : ℕ)
    → n ≢ 0
    → slots buf i n ≡ get_or buf i 0 ∷ slots buf ((i + 1) % 512) (n - 1)
slots-pop buf i zero h = absurd (h refl)
slots-pop buf i (suc n) h = ap (λ k. slots buf i (suc k)) (omega arith)

-- tx_ring_count is the number of bytes in the queue.
pub length-contents : (r : TxRing) → length (contents r) ≡ tx_ring_count r
unfolding tx_ring_count
length-contents r = length-slots r.buf r.tail (distance r.tail r.head)

-- The bounded queue that a ring stands for.
abbrev pub put_spec : List ℕ → ℕ → Bool × List ℕ
put_spec q b = if ltb (length q) 511 then (true, q ++ b ∷ []) else (false, q)

put-stored :
    (r : TxRing) (b : ℕ)
    → IsValid r
    → (r.head + 1) % 512 ≢ r.tail
    → slots (set r.buf r.head b) r.tail (distance r.tail ((r.head + 1) % 512))
      ≡ contents r ++ b ∷ []
put-stored r b v room =
    let d = distance r.tail r.head in
    let more : distance r.tail ((r.head + 1) % 512) ≡ suc d = omega arith in
    let at_head : (r.tail + d) % 512 ≡ r.head = omega arith in
    ap (slots (set r.buf r.head b) r.tail) more
    ∙ slots-snoc (set r.buf r.head b) r.tail d v.tail_in
    ∙ ap₂ (λ l x. l ++ x ∷ []) (slots-set r.buf r.tail d r.head b v.tail_in v.head_in (omega arith))
        (ap (λ k. get_or (set r.buf r.head b) k 0) at_head
          ∙ get_or-set_self r.buf r.head b 0 (omega arith))

spec_test :
    (r : TxRing) → IsValid r → ltb (length (contents r)) 511 ≡ not ((r.head + 1) % 512 == r.tail)
spec_test r v = ap (λ n. ltb n 511) (length-slots r.buf r.tail (distance r.tail r.head)) ∙ test
  where
    test : ltb (distance r.tail r.head) 511 ≡ not ((r.head + 1) % 512 == r.tail)
    test = ground arith

-- On a valid ring tx_ring_put appends the byte and returns true exactly if fewer than 511 bytes
-- are there; else it returns false and changes nothing.
pub put_refines :
    (r : TxRing) (b : ℕ)
    → IsValid r
    → ((tx_ring_put r b).0, contents (tx_ring_put r b).1) ≡ put_spec (contents r) b
unfolding tx_ring_put
put_refines r b v = elim (Bool-cases ((r.head + 1) % 512 == r.tail)) [
  | inl full ↦
      ap (λ t. go (if t then (false, r) else stored)) full
      ∙ sym (ap choose (spec_test r v ∙ ap not full))
  | inr room ↦
      ap (λ t. go (if t then (false, r) else stored)) room
      ∙ ap (λ q. (true, q)) (put-stored r b v (ground arith))
      ∙ sym (ap choose (spec_test r v ∙ ap not room))
]
  where
    stored : Bool × TxRing
    stored = (true, record r { buf = set r.buf r.head b; head = (r.head + 1) % 512 })

    go : Bool × TxRing → Bool × List ℕ
    go o = (o.0, contents o.1)

    choose : Bool → Bool × List ℕ
    choose t = if t then (true, contents r ++ b ∷ []) else (false, contents r)

-- On a valid ring tx_ring_get takes the oldest byte, or returns false and changes nothing if there
-- is none.
pub get_refines :
    (r : TxRing) → IsValid r → ((tx_ring_get r).0, contents (tx_ring_get r).1) ≡ pop (contents r)
unfolding tx_ring_get
get_refines r v = elim (Bool-cases (r.head == r.tail)) [
  | inl empty ↦
      let none_there : distance r.tail r.head ≡ 0 = ground arith in
      ap (λ t. go (if t then (none, r) else taken)) empty
      ∙ ap (λ q. (none, q)) (ap (slots r.buf r.tail) none_there)
      ∙ sym (ap pop (ap (slots r.buf r.tail) none_there))
  | inr filled ↦
      let some_there : distance r.tail r.head ≢ 0 = ground arith in
      let fewer : distance ((r.tail + 1) % 512) r.head ≡ distance r.tail r.head - 1 =
        ground arith in
      ap (λ t. go (if t then (none, r) else taken)) filled
      ∙ ap (λ n. (some (get_or r.buf r.tail 0), slots r.buf ((r.tail + 1) % 512) n)) fewer
      ∙ sym (ap pop (slots-pop r.buf r.tail (distance r.tail r.head) some_there))
]
  where
    taken : Option ℕ × TxRing
    taken = (some (get_or r.buf r.tail 0), record r { tail = (r.tail + 1) % 512 })

    go : Option ℕ × TxRing → Option ℕ × List ℕ
    go o = (o.0, contents o.1)

-- A client's calls, and what it sees of each.
pub data Call : Type 0 where
  puts : ℕ → Call
  gets counts : Call

pub data Reply : Type 0 where
  stored : Bool → Reply
  taken : Option ℕ → Reply
  counted : ℕ → Reply

unfoldable pub run : TxRing → List Call → List Reply
run r [] = []
run r (puts b ∷ cs) = stored (tx_ring_put r b).0 ∷ run (tx_ring_put r b).1 cs
run r (gets ∷ cs) = taken (tx_ring_get r).0 ∷ run (tx_ring_get r).1 cs
run r (counts ∷ cs) = counted (tx_ring_count r) ∷ run r cs

-- The same calls on a queue of at most 511 bytes.
unfoldable pub run_queue : List ℕ → List Call → List Reply
run_queue q [] = []
run_queue q (puts b ∷ cs) = stored (put_spec q b).0 ∷ run_queue (put_spec q b).1 cs
run_queue q (gets ∷ cs) = taken (pop q).0 ∷ run_queue (pop q).1 cs
run_queue q (counts ∷ cs) = counted (length q) ∷ run_queue q cs

-- No sequence of puts, gets and counts tells a valid ring from the queue of its bytes.
pub run_refines : (cs : List Call) (r : TxRing) → IsValid r → run r cs ≡ run_queue (contents r) cs
unfolding run run_queue
run_refines [] r v = refl
run_refines (puts b ∷ cs) r v =
    let same = put_refines r b v in
    ap₂ ◌∷◌ (ap (λ o. stored o.0) same)
      (run_refines cs (tx_ring_put r b).1 (put-IsValid r b v) ∙ ap (λ o. run_queue o.1 cs) same)
run_refines (gets ∷ cs) r v =
    let same = get_refines r v in
    ap₂ ◌∷◌ (ap (λ o. taken o.0) same)
      (run_refines cs (tx_ring_get r).1 (get-IsValid r v) ∙ ap (λ o. run_queue o.1 cs) same)
run_refines (counts ∷ cs) r v = ap₂ ◌∷◌ (ap counted (sym (length-contents r))) (run_refines cs r v)
