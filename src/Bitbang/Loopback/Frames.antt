-- ===== src/Bitbang/Loopback/Frames.antt =====
-- A line that carries the frames of some bytes delivers these bytes.
use testings.Prelude.{
  ℕ, ◌+◌, ◌*◌, ◌/◌, ◌%◌, ◌^◌, ◌<◌, ◌≡◌, refl, sym, ap, subst, ◌∙◌, true, List, [], ◌∷◌, ◌++◌, arith,
  length, if◌then◌else◌, append_assoc, append-nil, keep_last, keep_last-append, keep_last_fits,
}
use testings.Prelude.Bits.{bits_of, popcount}
use testings.Kernel.Kfifo.{Kfifo}
use testings.Bitbang.State.{BitbangUart, incr}
use testings.Bitbang.Tx.Frame.{frame, frames, AllBytes, IsIdle, tx_run-Drained}
use testings.Bitbang.Tx.{tx_run}
use testings.Bitbang.Rx.Frame.{
  insert_bits_of, Received, stop_timer, checked, checked-Received, parity_good,
}
use testings.Bitbang.Loopback.Cells.{
  IsListening, busy, timed, hear-start, listen-bits, hear-parity, hear-stop, hear-idle,
}
use testings.Bitbang.Loopback.{listen}

module _ (K : Kfifo) where
  open K use {Fifo, size, contents}

  abbrev received : BitbangUart Fifo → ℕ → BitbangUart Fifo
  received d b = stop_timer K (checked K (timed K d) b (popcount b % 2) 1)

  listen-frame :
      (d : BitbangUart Fifo) (b : ℕ) (rest : List ℕ)
      → IsListening d
      → b < 256
      → listen K 1 d (frame b ++ rest) ≡ listen K 1 (received d b) rest
  unfolding listen
  listen-frame d b rest l h =
      let p = popcount b % 2 in
      let x = d.rx_chr.value in
      let top = b / 128 % 2 in
      let tail = p ∷ 1 ∷ 1 ∷ rest in
      ap (λ e. listen K 0 e (bits_of b ++ tail)) (hear-start K d l)
      ∙ listen-bits K (bits_of b) 0 d 0 x tail (omega arith)
      ∙ ap (λ y. listen K top (busy K d 8 y) tail) (insert_bits_of x b l.byte h)
      ∙ ap (λ e. listen K p e (1 ∷ 1 ∷ rest)) (hear-parity K top d b p)
      ∙ ap (λ e. listen K 1 e (1 ∷ rest)) (hear-stop K p d b p 1 h)
      ∙ ap (λ e. listen K 1 e rest) (hear-idle K (received d b) 1 refl)

  -- What holds when a line has carried the frames of `bs` to the receiver `d`.
  pub record Delivered (d : BitbangUart Fifo) (bs : List ℕ) (out : BitbangUart Fifo) : Type 0 where
    pub bytes : contents out.rx_fifo ≡ keep_last size (contents d.rx_fifo ++ bs)
    pub counted : out.stats.rx_counter ≡ (d.stats.rx_counter + length bs) % 2 ^ 32
    pub start_errors : out.stats.rx_errs_start ≡ d.stats.rx_errs_start
    pub stop_errors : out.stats.rx_errs_stop ≡ d.stats.rx_errs_stop
    pub parity_errors : out.stats.rx_errs_parity ≡ d.stats.rx_errs_parity
    pub listening : IsListening out

  received-Received :
      (d : BitbangUart Fifo) (b : ℕ) → Received K (timed K d) b (popcount b % 2) 1 (received d b)
  received-Received d b = checked-Received K (timed K d) b (popcount b % 2) 1

  sent_parity_good : (b : ℕ) → parity_good b (popcount b % 2) ≡ true
  sent_parity_good b = ground arith

  received-IsListening :
      (d : BitbangUart Fifo) (b : ℕ) → IsListening d → b < 256 → IsListening (received d b)
  received-IsListening d b l h =
      let r = received-Received d b in
      record {
        idle = r.idle;
        stopped = r.stopped;
        enabled = r.line.0 ∙ l.enabled;
        wired = λ e. l.wired (sym (r.line.1) ∙ e);
        byte = rw (r.value) h;
      }

  received-contents :
      (d : BitbangUart Fifo) (b : ℕ)
      → contents (received d b).rx_fifo ≡ keep_last size (contents d.rx_fifo ++ b ∷ [])
  received-contents d b =
      let r = received-Received d b in
      r.delivered
      ∙ ap (λ t. if t then keep_last size (contents d.rx_fifo ++ b ∷ []) else contents d.rx_fifo)
          (sent_parity_good b)

  received-stats :
      (d : BitbangUart Fifo) (b : ℕ)
      → ((received d b).stats.rx_counter ≡ incr d.stats.rx_counter)
        × ((received d b).stats.rx_errs_start ≡ d.stats.rx_errs_start)
        × ((received d b).stats.rx_errs_stop ≡ d.stats.rx_errs_stop)
        × ((received d b).stats.rx_errs_parity ≡ d.stats.rx_errs_parity)
  received-stats d b =
      let r = received-Received d b in
      let good = sent_parity_good b in
      (
        r.counted ∙ ap (λ t. if t then incr d.stats.rx_counter else d.stats.rx_counter) good,
        r.start_errors,
        r.stop_errors,
        r.parity_errors
            ∙ ap (λ t. if t then d.stats.rx_errs_parity else incr d.stats.rx_errs_parity) good,
      )

  Delivered-cons :
      (d : BitbangUart Fifo) (b : ℕ) (bs : List ℕ) (out : BitbangUart Fifo)
      → Delivered (received d b) bs out
      → Delivered d (b ∷ bs) out
  Delivered-cons d b bs out v =
      let (count, start, stop, parity) = received-stats d b in
      record {
        bytes =
            v.bytes
            ∙ ap (λ l. keep_last size (l ++ bs)) (received-contents d b)
            ∙ keep_last-append size (contents d.rx_fifo ++ b ∷ []) bs
            ∙ ap (keep_last size) (append_assoc (contents d.rx_fifo) (b ∷ []) bs);
        counted = omega (arith, v.counted, count);
        start_errors = v.start_errors ∙ start;
        stop_errors = v.stop_errors ∙ stop;
        parity_errors = v.parity_errors ∙ parity;
        listening = v.listening;
      }

  -- A receiver that waits for a start edge, on a line that is high and then carries the frames of
  -- `bs` back to back, delivers exactly these bytes in order (a full fifo drops its oldest ones),
  -- counts them modulo 2 ^ 32, counts no error, and waits for the next start edge.
  pub listen-Delivered :
      (bs : List ℕ) (d : BitbangUart Fifo)
      → IsListening d
      → AllBytes bs
      → d.stats.rx_counter < 2 ^ 32
      → Delivered d bs (listen K 1 d (frames bs))
  unfolding listen
  listen-Delivered [] d l h c = record {
    bytes = sym (
        ap (keep_last size) (append-nil (contents d.rx_fifo))
        ∙ keep_last_fits size (contents d.rx_fifo) (K.bounded d.rx_fifo));
    counted = omega arith;
    start_errors = refl;
    stop_errors = refl;
    parity_errors = refl;
    listening = l;
  }
  listen-Delivered (b ∷ bs) d l h c =
      let count : (received d b).stats.rx_counter ≡ incr d.stats.rx_counter =
        (received-stats d b).0 in
      subst (Delivered d (b ∷ bs)) (sym (listen-frame d b (frames bs) l h.0)) (
        Delivered-cons d b bs _ (
          listen-Delivered bs (received d b) (received-IsListening d b l h.0) h.1
            (omega (arith, count))))

  -- End to end: what an idle transmitter with `bs` in its fifo puts on the wire, given more than
  -- twelve calls for each byte, a waiting receiver on that wire delivers.
  pub loopback :
      (bs : List ℕ) (n : ℕ) (d e : BitbangUart Fifo)
      → IsIdle d
      → contents d.tx_fifo ≡ bs
      → AllBytes bs
      → d.stats.tx_counter < 2 ^ 32
      → 12 * length bs < n
      → IsListening e
      → e.stats.rx_counter < 2 ^ 32
      → Delivered e bs (listen K 1 e (tx_run K n d).1)
  loopback bs n d e idle q small ct h l cr =
      subst (λ levels. Delivered e bs (listen K 1 e levels))
        (sym ((tx_run-Drained K bs n d idle q small ct h).levels))
        (listen-Delivered bs e l small cr)
