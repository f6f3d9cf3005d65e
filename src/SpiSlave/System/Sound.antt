-- ===== src/SpiSlave/System/Sound.antt =====
-- What the steps keep: the packets of the ring are those of the queue.
use testings.Prelude.{ℕ, refl, false, Option, none, List, []}
use testings.SpiSlave.Ring.{Circ, rxring_clear}
use testings.SpiSlave.Ring.Valid.{clear-IsRing}
use testings.SpiSlave.State.{SpiImxData, no_stats}
use testings.SpiSlave.System.{
  Reach, start, begins, words, polls, ends, exits, shows, gives_up, restarts, transfers, prepares,
  IsSound,
}
use testings.SpiSlave.System.Begins.{begin-IsSound, begun}
use testings.SpiSlave.System.Receives.{words-IsSound, ends-IsSound}
use testings.SpiSlave.System.Takes.{take-Taken}
use testings.SpiSlave.System.Prepares.{cleared, kept, polls-IsSound, shows-IsSound, prepare-IsSound}

module _ (C : Circ) where
  -- In every state that receptions, transfers and messages reach from a cleared ring, in any order:
  -- the packets of the ring are those of the queue in its order, no two in the same buffer; the
  -- buffer that is being filled is none of them; and there is a slot for it.
  pub Reach-IsSound :
      {d : SpiImxData} {p : Option ℕ} {q : List (List ℕ)} → Reach C d p q → IsSound C d p q
  Reach-IsSound (start d) = record {
    ids = [];
    ring = clear-IsRing d.rx_ring;
    shown = refl;
    pending = tt;
  }
  Reach-IsSound (begins {d} {q} idx e r) = begun C d q idx e (begin-IsSound C d q (Reach-IsSound r))
  Reach-IsSound (words {idx} {q} l ws r) = words-IsSound C l idx q ws (Reach-IsSound r)
  Reach-IsSound (polls {idx} {q} l stat r) = polls-IsSound C l idx q stat (Reach-IsSound r)
  Reach-IsSound (exits {d} {q} r) =
      kept C d (record d { rx_thrd = false }) none q refl refl (Reach-IsSound r)
  Reach-IsSound (shows {d} {p} {q} r) = shows-IsSound C d p q (Reach-IsSound r)
  Reach-IsSound (ends {d} {idx} {q} r) = ends-IsSound C d idx q (Reach-IsSound r)
  Reach-IsSound (gives_up r) =
      let s = Reach-IsSound r in
      record { ids = s.ids; ring = s.ring; shown = s.shown; pending = tt }
  Reach-IsSound (restarts {d} {q} r) =
      cleared C d (record d { stats = no_stats; rx_ring = rxring_clear d.rx_ring }) none q refl
        (Reach-IsSound r)
  Reach-IsSound (transfers {d} {p} {q} swab32 len n r) =
      (take-Taken C d p q swab32 len (Reach-IsSound r) n).sound
  Reach-IsSound (prepares {d} {p} {q} hz now created r) =
      prepare-IsSound C hz now created d p q (Reach-IsSound r)
