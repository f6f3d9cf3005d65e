-- ===== src/SpiSlave/System/Receives.antt =====
-- The dwords that a reception takes, and its end.
use testings.Prelude.{
  assign_ne, ℕ, ◌≡◌, ◌≢◌, inl, inr, refl, sym, ap, ap₂, subst, ◌∙◌, false, none, some, List, [],
  ◌∷◌, ◌++◌, map, map-append, Bool-cases,
}
use testings.SpiSlave.Ring.{Circ, flagged}
use testings.SpiSlave.Ring.Free.{In}
use testings.SpiSlave.Ring.Valid.{IsRing, unmarked_out, insert-IsRing}
use testings.SpiSlave.State.{SpiImxData}
use testings.SpiSlave.Receive.{Loop, is_positive, rx_word, rx_words, rx_end}
use testings.SpiSlave.System.{IsSound}

module _ (C : Circ) where
  -- Dwords that come in go to the packet that is being received, and nowhere else.
  pub rx_words-rest :
      (idx : ℕ) (ws : List ℕ) (l : Loop)
      → ((rx_words idx ws l).0.device.rx_ring ≡ l.device.rx_ring)
        × ((j : ℕ) → j ≢ idx → (rx_words idx ws l).0.device.packets j ≡ l.device.packets j)
  unfolding rx_words rx_word
  rx_words-rest idx [] l = (refl, λ j n. refl)
  rx_words-rest idx (w ∷ ws) l =
      let next = rx_word idx w l in
      let later = rx_words-rest idx ws next in
      let here : (j : ℕ) → j ≢ idx → next.device.packets j ≡ l.device.packets j =
        λ j n. assign_ne l.device.packets idx j _ n in
      elim (Bool-cases (is_positive next.rv)) [
        | inl done ↦ rw (done, rx_words) (refl, here)
        | inr more ↦ rw (more, rx_words) (later.0, λ j n. later.1 j n ∙ here j n)
      ]

  map_agree :
      (f g : ℕ → List ℕ) (ids : List ℕ) → ((j : ℕ) → In j ids → f j ≡ g j) → map f ids ≡ map g ids
  map_agree f g [] h = refl
  map_agree f g (x ∷ xs) h = ap₂ ◌∷◌ (h x (inl refl)) (map_agree f g xs (λ j i. h j (inr i)))

  pub words-IsSound :
      (l : Loop) (idx : ℕ) (q : List (List ℕ)) (ws : List ℕ)
      → IsSound C l.device (some idx) q
      → IsSound C ((rx_words idx ws l).0.device) (some idx) q
  words-IsSound l idx q ws s =
      let rest = rx_words-rest idx ws l in
      let out = unmarked_out l.device.rx_ring.buf idx s.ids s.ring.marked s.pending.1 in
      record {
        ids = s.ids;
        ring = subst (λ c. IsRing c s.ids) (sym rest.0) s.ring;
        shown =
            map_agree ((rx_words idx ws l).0.device.packets) l.device.packets s.ids
              (λ j i. rest.1 j (λ e. out (subst (λ k. In k s.ids) e i)))
            ∙ s.shown;
        pending = (
          s.pending.0,
          subst (λ c. flagged c.buf idx ≡ false) (sym rest.0) s.pending.1,
          s.pending.2,
        );
      }

  pub ends-IsSound :
      (d : SpiImxData) (idx : ℕ) (q : List (List ℕ))
      → IsSound C d (some idx) q
      → IsSound C (rx_end C idx d) none (q ++ d.packets idx ∷ [])
  unfolding rx_end
  ends-IsSound d idx q s = record {
    ids = s.ids ++ idx ∷ [];
    ring = insert-IsRing d.rx_ring s.ids idx s.ring s.pending.0 s.pending.1 s.pending.2;
    shown =
        map-append {B = List ℕ} d.packets s.ids (idx ∷ [])
        ∙ ap (λ ps. ps ++ d.packets idx ∷ []) s.shown;
    pending = tt;
  }
