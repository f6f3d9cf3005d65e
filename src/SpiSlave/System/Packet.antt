-- ===== src/SpiSlave/System/Packet.antt =====
-- A whole call of receive_packet that gets a packet.
use testings.Prelude.{
  ℕ, ◌+◌, ◌≤◌, ◌≡◌, refl, ap, subst, ◌∙◌, false, Option, none, some, List, [], ◌∷◌, ◌++◌, length,
  ltb, arith,
}
use testings.Prelude.Int.{ℤ, pos, negsuc}
use testings.SpiSlave.Ring.{Circ}
use testings.SpiSlave.State.{SpiImxStatistic, SpiImxData, incr64}
use testings.SpiSlave.Receive.{
  Loop, Round, packet_size_dword, sync_byte, is_positive, rx_words, rx_poll, rx_begin, rx_end,
  receive_packet,
}
use testings.SpiSlave.Receive.Frame.{Framed, NoSync, counted, framed_stats, rx_words-Framed}
use testings.SpiSlave.Receive.Poll.{flat, Quiet, rx_poll-rx_words}
use testings.SpiSlave.System.{make_room, Reach, begins, words, ends}
use testings.SpiSlave.System.Begins.{begin-IsSound}
use testings.SpiSlave.System.Sound.{Reach-IsSound}

not_lost : (n : ℕ) → n ≤ 1024 → ltb 1024 n ≡ false
not_lost n h = ground arith

-- The loop when it begins.
abbrev fresh : SpiImxData → Loop
fresh d = record { cnt = 0; rv = negsuc 0; device = d }

module _ (C : Circ) where
  receive_packet-poll :
      (rs : List Round) (fifo f : List ℕ) (d : SpiImxData) (idx : ℕ) (l : Loop)
      → (rx_begin C d).0 ≡ pos idx
      → (rx_begin C d).1.stats.pkt_lost ≤ 1024
      → rx_poll idx rs fifo (fresh (rx_begin C d).1) ≡ some (l, f)
      → receive_packet C rs fifo (λ e. e) d ≡ some (l.rv, f, rx_end C idx l.device)
  unfolding receive_packet
  receive_packet-poll rs fifo f d idx l e few h =
      rw (e, not_lost ((rx_begin C d).1.stats.pkt_lost) few, h, receive_packet)

  begin-packets : (d : SpiImxData) → (rx_begin C d).1.packets ≡ d.packets
  unfolding rx_begin
  begin-packets d = ground arith

  begin-counts :
      (d : SpiImxData)
      → ((rx_begin C d).1.stats.pkt_ok ≡ d.stats.pkt_ok)
        × ((rx_begin C d).1.stats.dwords ≡ d.stats.dwords)
        × ((rx_begin C d).1.stats.skip ≡ d.stats.skip)
  unfolding rx_begin
  begin-counts d = (ground arith, ground arith, ground arith)

  -- The counters that a call leaves, from those of the device before it.
  abbrev pub Counts : SpiImxStatistic → SpiImxStatistic → ℕ → Type 0
  Counts old new skipped =
      (new.pkt_ok ≡ incr64 old.pkt_ok)
      × (new.dwords ≡ counted (skipped + packet_size_dword) old.dwords)
      × (new.skip ≡ counted skipped old.skip)

  rx_end-Counts :
      (d out : SpiImxData) (idx n : ℕ)
      → out.stats ≡ framed_stats (rx_begin C d).1.stats (n + packet_size_dword) n
      → Counts d.stats (rx_end C idx out).stats n
  unfolding rx_begin rx_end
  rx_end-Counts d out idx n e =
      let kept = begin-counts d in
      (
        ap (λ (s : SpiImxStatistic). s.pkt_ok) e ∙ ap incr64 kept.0,
        ap (λ (s : SpiImxStatistic). s.dwords) e ∙ ap (counted (n + packet_size_dword)) kept.1,
        ap (λ (s : SpiImxStatistic). s.skip) e ∙ ap (counted n) kept.2,
      )

  -- What a call gives that gets the packet: the device that it leaves, and the dwords behind the
  -- packet, of which some are left and the others come later.
  pub record Received (call : Option (ℤ × List ℕ × SpiImxData)) (d : SpiImxData) (q : List (List ℕ))
      (packet rest : List ℕ) (skipped : ℕ) : Type 0 where
    pub device : SpiImxData
    pub left : List ℕ
    pub later : List ℕ
    pub returned : call ≡ some (pos 1, left, device)
    pub behind : left ++ later ≡ rest
    pub queued : Reach C device none (make_room q ++ packet ∷ [])
    pub counts : Counts d.stats device.stats skipped

  -- From a state without a reception, where not more than 1024 packets are lost, each buffer has 47
  -- dwords, nobody stops the thread, the hardware reports no overrun and nothing else happens
  -- meanwhile: if the dwords that the hardware has, and those that come in, are some without the sync
  -- byte, a packet of 47 dwords that begins with it, and others, then receive_packet returns 1,
  -- leaves the dwords behind the packet to come, has put the packet, dword by dword, behind the
  -- others of the queue, of which the oldest is gone if it was full, and has counted the packet, its
  -- dwords and those that it skipped, modulo 2 ^ 64.
  pub receive_packet_lem :
      (r : Round) (rs : List Round) (fifo junk ws rest : List ℕ) (h w : ℕ) (d : SpiImxData)
      (q : List (List ℕ))
      → Reach C d none q
      → ((i : ℕ) → length (d.packets i) ≡ packet_size_dword)
      → (rx_begin C d).1.stats.pkt_lost ≤ 1024
      → Quiet (r ∷ rs)
      → NoSync junk
      → sync_byte h ≡ 0x47
      → length (h ∷ w ∷ ws) ≡ packet_size_dword
      → fifo ++ flat (r ∷ rs) ≡ junk ++ h ∷ (w ∷ (ws ++ rest))
      → Received (receive_packet C (r ∷ rs) fifo (λ x. x) d) d q (h ∷ w ∷ ws) rest (length junk)
  receive_packet_lem r rs fifo junk ws rest h w d q reached sizes few quiet clean sync size stream =
      let begun = begin-IsSound C d q (Reach-IsSound C reached) in
      let idx = begun.0 in
      let l = fresh (rx_begin C d).1 in
      let input = junk ++ h ∷ (w ∷ (ws ++ rest)) in
      let out = rx_words idx input l in
      let framed : Framed idx l.device.stats (length junk + packet_size_dword) (length junk)
          (h ∷ w ∷ ws) rest out =
        rx_words-Framed idx h w junk ws rest l refl clean sync size
          (ap (λ p. length (p idx)) (begin-packets d) ∙ sizes idx) in
      let got : rx_words idx (fifo ++ flat (r ∷ rs)) l ≡ out = ap (λ s. rx_words idx s l) stream in
      let polled =
        rx_poll-rx_words idx r rs fifo l quiet refl
          (ap (λ (o : Loop × List ℕ). is_positive o.0.rv) got ∙ ap is_positive framed.rv) in
      record {
        device = rx_end C idx out.0.device;
        left = polled.0;
        later = polled.1;
        returned =
            receive_packet-poll (r ∷ rs) fifo polled.0 d idx out.0 begun.1 few
              (polled.2 ∙ ap (λ (o : Loop × List ℕ). some (o.0, polled.0)) got)
            ∙ ap (λ v. some (v, polled.0, rx_end C idx out.0.device)) framed.rv;
        behind = polled.3 ∙ ap (λ (o : Loop × List ℕ). o.1) got ∙ framed.left;
        queued =
            subst (λ p. Reach C (rx_end C idx out.0.device) none (make_room q ++ p ∷ []))
              framed.complete (ends (words l input (begins idx begun.1 reached)));
        counts = rx_end-Counts d out.0.device idx (length junk) framed.stats;
      }
