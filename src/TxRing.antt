-- ===== src/TxRing.antt =====
-- openwrt/kernel/soft_uart/gpt/tx_ring.c: a ring of bytes between a writer and the transmitter. Each
-- function runs under the spinlock of the ring.
pub mod Queue
mod Tests
use testings.Prelude.{
  ℕ, ◌+◌, ◌-◌, ◌%◌, ◌≤◌, ◌<◌, ◌≡◌, Bool, true, false, Option, none, some, List, length, get_or, set,
  ◌==◌, if◌then◌else◌, arith, length-set, take, drop, replicate, length-replicate,
}

abbrev pub tx_buf_size : ℕ
tx_buf_size = 512

-- `struct tx_ring`, without its lock
pub record TxRing : Type 0 where
  pub buf : List ℕ
  pub head : ℕ
  pub tail : ℕ

unfoldable pub tx_ring_init : TxRing → TxRing
tx_ring_init r = record r { head = 0; tail = 0 }

unfoldable pub tx_ring_put : TxRing → ℕ → Bool × TxRing
tx_ring_put r byte =
    let next = (r.head + 1) % tx_buf_size in
    if next == r.tail
    then (false, r)
    else (true, record r { buf = set r.buf r.head byte; head = next })

-- The option is what goes through `byte` when the function returns true.
unfoldable pub tx_ring_get : TxRing → Option ℕ × TxRing
tx_ring_get r =
    if r.head == r.tail
    then (none, r)
    else (some (get_or r.buf r.tail 0), record r { tail = (r.tail + 1) % tx_buf_size })

-- Below 2 ^ 32, so the `unsigned` sum does not wrap on a valid ring.
unfoldable pub tx_ring_count : TxRing → ℕ
tx_ring_count r = (r.head + tx_buf_size - r.tail) % tx_buf_size

pub record IsValid (r : TxRing) : Type 0 where
  pub storage : length r.buf ≡ tx_buf_size
  pub head_in : r.head < tx_buf_size
  pub tail_in : r.tail < tx_buf_size

pub init-IsValid : (r : TxRing) → length r.buf ≡ tx_buf_size → IsValid (tx_ring_init r)
unfolding tx_ring_init
init-IsValid r h = ground arith

pub put-IsValid : (r : TxRing) (byte : ℕ) → IsValid r → IsValid (tx_ring_put r byte).1
unfolding tx_ring_put
put-IsValid r byte v = ground (arith, length-set r.buf r.head byte)

pub get-IsValid : (r : TxRing) → IsValid r → IsValid (tx_ring_get r).1
unfolding tx_ring_get
get-IsValid r v = ground arith
