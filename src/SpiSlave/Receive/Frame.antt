-- ===== src/SpiSlave/Receive/Frame.antt =====
-- What the dwords of the line become: those before a sync byte are skipped, and the 47 from it on
-- are a packet.
use testings.Prelude.{
  assign, assign_self, ℕ, zero, suc, ◌+◌, ◌<◌, ◌≡◌, ◌≢◌, refl, sym, ap, subst, ◌∙◌, true, false,
  List, [], ◌∷◌, ◌++◌, length, set, length-set, arith, ◌==◌,
}
use testings.Prelude.Int.{ℤ, pos, negsuc}
use testings.SpiSlave.State.{SpiImxStatistic, incr64}
use testings.SpiSlave.Receive.{
  Loop, packet_size_dword, sync_byte, is_positive, count_rv, rx_word, rx_words,
}

-- The words written from place `c` on.
fill : List ℕ → ℕ → List ℕ → List ℕ
fill p c [] = p
fill p c (w ∷ ws) = fill (set p c w) (c + 1) ws

fill-suc : (x : ℕ) (p : List ℕ) (c : ℕ) (ws : List ℕ) → fill (x ∷ p) (suc c) ws ≡ x ∷ fill p c ws
unfolding fill
fill-suc x p c [] = refl
fill-suc x p c (w ∷ ws) =
    let e : suc c + 1 ≡ suc (c + 1) = omega arith in
    ap (λ k. fill (x ∷ set p c w) k ws) e ∙ fill-suc x (set p c w) (c + 1) ws

-- A whole packet leaves nothing of what was there.
fill_all : (p ws : List ℕ) → length ws ≡ length p → fill p 0 ws ≡ ws
unfolding fill
fill_all [] [] e = refl
fill_all [] (w ∷ ws) e = absurd (omega arith)
fill_all (x ∷ p) [] e = absurd (omega arith)
fill_all (x ∷ p) (w ∷ ws) e = fill-suc w p 0 ws ∙ ap (◌∷◌ w) (fill_all p ws (omega arith))

-- `n` increments
abbrev pub counted : ℕ → ℕ → ℕ
counted zero t = t
counted (suc n) t = counted n (incr64 t)

-- What a dword does, by the place where it comes.
module _ (idx w : ℕ) (l : Loop) where
  abbrev received : ℤ → ℕ → Loop
  received rv cnt =
      let d = l.device in
      record {
        cnt = cnt;
        rv = rv;
        device = record d {
          packets = assign d.packets idx (set (d.packets idx) l.cnt w);
          stats = count_rv rv (record d.stats { dwords = incr64 d.stats.dwords });
        };
      }

  word_skip : l.cnt ≡ 0 → (sync_byte w == 0x47) ≡ false → rx_word idx w l ≡ received (negsuc 2) 0
  unfolding rx_word
  word_skip e s = ground arith

  word_start : l.cnt ≡ 0 → (sync_byte w == 0x47) ≡ true → rx_word idx w l ≡ received (pos 0) 1
  unfolding rx_word
  word_start e s = ground arith

  word_more :
      0 < l.cnt → l.cnt + 1 < packet_size_dword → rx_word idx w l ≡ received (pos 0) (l.cnt + 1)
  unfolding rx_word
  word_more e s = ground arith

  word_last : l.cnt + 1 ≡ packet_size_dword → rx_word idx w l ≡ received (pos 1) 0
  unfolding rx_word
  word_last e = ground arith

abbrev pub framed_stats : SpiImxStatistic → ℕ → ℕ → SpiImxStatistic
framed_stats s n k = record s {
  pkt_ok = incr64 s.pkt_ok;
  dwords = counted n s.dwords;
  skip = counted k s.skip;
}

one_more : (n : ℕ) → suc (n + packet_size_dword) ≡ suc n + packet_size_dword
one_more n = omega arith

-- What is there once a packet is complete: `n` dwords after the statistics `s`, of which `k` are
-- skipped.
pub record Framed (idx : ℕ) (s : SpiImxStatistic) (n k : ℕ) (packet rest : List ℕ)
    (out : Loop × List ℕ) : Type 0 where
  pub rv : out.0.rv ≡ pos 1
  pub complete : out.0.device.packets idx ≡ packet
  pub left : out.1 ≡ rest
  pub stats : out.0.device.stats ≡ framed_stats s n k

-- rx_words after a dword.
abbrev after : ℕ → List ℕ → Loop → Loop × List ℕ
after idx ws next = elim (is_positive next.rv) [ true ↦ (next, ws) | false ↦ rx_words idx ws next ]

rx_words-cons :
    (idx w : ℕ) (ws : List ℕ) (l next : Loop)
    → rx_word idx w l ≡ next
    → rx_words idx (w ∷ ws) l ≡ after idx ws next
unfolding rx_words
rx_words-cons idx w ws l next e = ap (after idx ws) e

body-Framed :
    (idx w : ℕ) (ws rest : List ℕ) (l : Loop)
    → 0 < l.cnt
    → l.cnt + length (w ∷ ws) ≡ packet_size_dword
    → Framed idx l.device.stats
        (length (w ∷ ws))
        0
        (fill (l.device.packets idx) l.cnt (w ∷ ws))
        rest
        (rx_words idx (w ∷ (ws ++ rest)) l)
unfolding fill count_rv
body-Framed idx w [] rest l started e =
    let next = received idx w l (pos 1) 0 in
    subst (Framed idx l.device.stats 1 0 (set (l.device.packets idx) l.cnt w) rest)
      (sym (rx_words-cons idx w rest l next (word_last idx w l (omega arith))))
      (record {
        rv = refl;
        complete = assign_self l.device.packets idx _;
        left = refl;
        stats = refl;
      })
body-Framed idx w (v ∷ ws) rest l started e =
    let next = received idx w l (pos 0) (l.cnt + 1) in
    let later = body-Framed idx v ws rest next (omega arith) (omega arith) in
    let old = l.device.packets idx in
    subst (Framed idx l.device.stats (length (w ∷ v ∷ ws)) 0 (fill old l.cnt (w ∷ v ∷ ws)) rest)
      (sym
        (rx_words-cons idx w (v ∷ (ws ++ rest)) l next (word_more idx w l started (omega arith))))
      (record {
        rv = later.rv;
        complete =
            later.complete
            ∙ ap (λ p. fill p (l.cnt + 1) (v ∷ ws))
                (assign_self l.device.packets idx (set old l.cnt w));
        left = later.left;
        stats = later.stats;
      })

-- No dword has the sync byte.
abbrev pub NoSync : List ℕ → Type 0
NoSync [] = Unit
NoSync (w ∷ ws) = (sync_byte w ≢ 0x47) × NoSync ws

no_sync : (w : ℕ) → sync_byte w ≢ 0x47 → (sync_byte w == 0x47) ≡ false
no_sync w h = ground arith

synced : (w : ℕ) → sync_byte w ≡ 0x47 → (sync_byte w == 0x47) ≡ true
synced w h = ground arith

-- Between two packets, dwords without the sync byte are skipped, and 47 that begin with it are taken
-- for a packet.
pub rx_words-Framed :
    (idx h w : ℕ) (junk ws rest : List ℕ) (l : Loop)
    → l.cnt ≡ 0
    → NoSync junk
    → sync_byte h ≡ 0x47
    → length (h ∷ w ∷ ws) ≡ packet_size_dword
    → length (l.device.packets idx) ≡ packet_size_dword
    → Framed idx l.device.stats
        (length junk + packet_size_dword)
        (length junk)
        (h ∷ w ∷ ws)
        rest
        (rx_words idx (junk ++ h ∷ (w ∷ (ws ++ rest))) l)
unfolding fill count_rv
rx_words-Framed idx h w [] ws rest l fresh quiet sync e size =
    let next = received idx h l (pos 0) 1 in
    let later = body-Framed idx w ws rest next (omega arith) (omega arith) in
    let old = l.device.packets idx in
    subst (Framed idx l.device.stats packet_size_dword 0 (h ∷ w ∷ ws) rest)
      (sym
        (rx_words-cons idx h (w ∷ (ws ++ rest)) l next (word_start idx h l fresh (synced h sync))))
      (record {
        rv = later.rv;
        complete =
            later.complete
            ∙ ap (λ p. fill p 1 (w ∷ ws)) (assign_self l.device.packets idx (set old l.cnt h))
            ∙ ap (λ c. fill (set old c h) 1 (w ∷ ws)) fresh
            ∙ fill_all old (h ∷ w ∷ ws) (e ∙ sym size);
        left = later.left;
        stats = later.stats ∙ ap (λ n. framed_stats l.device.stats n 0) e;
      })
rx_words-Framed idx h w (j ∷ junk) ws rest l fresh quiet sync e size =
    let next = received idx j l (negsuc 2) 0 in
    let later = rx_words-Framed idx h w junk ws rest next refl quiet.1 sync e (
      ap length (assign_self l.device.packets idx _)
      ∙ length-set (l.device.packets idx) l.cnt j
      ∙ size) in
    subst
      (Framed idx l.device.stats (length (j ∷ junk) + packet_size_dword) (length (j ∷ junk))
        (h ∷ w ∷ ws) rest)
      (sym (
        rx_words-cons idx j (junk ++ h ∷ (w ∷ (ws ++ rest))) l next
          (word_skip idx j l fresh (no_sync j quiet.0))))
      (record {
        rv = later.rv;
        complete = later.complete;
        left = later.left;
        stats =
            later.stats
            ∙ ap (λ n. framed_stats l.device.stats n (suc (length junk))) (one_more (length junk));
      })
