-- ===== src/SpiSlave/System/Delivery.antt =====
-- Transfers one after the other.
use testings.Prelude.{
  ℕ, zero, suc, ◌≡◌, ◌≢◌, refl, ap, ap₂, ◌∙◌, false, Option, none, some, List, [], ◌∷◌, map, length,
  ◌==◌, arith,
}
use testings.SpiSlave.Ring.{Circ}
use testings.SpiSlave.State.{SpiImxData}
use testings.SpiSlave.Transfer.{take_packet, n_ready, spi_imx_transfer}
use testings.SpiSlave.System.{Reach, transfers}
use testings.SpiSlave.System.Calls.{ready-length}
use testings.SpiSlave.System.Takes.{take-Taken}
use testings.SpiSlave.System.Sound.{Reach-IsSound}

abbrev more : List ℕ → Option (List (List ℕ) × SpiImxData) → Option (List (List ℕ) × SpiImxData)
more x none = none
more x (some (xs, e)) = some (x ∷ xs, e)

same_head : {x y : List ℕ} {xs ys : List (List ℕ)} → x ∷ xs ≡ y ∷ ys → y ≡ x
same_head e = cc

module _ (C : Circ) (swab32 : ℕ → ℕ) (len : ℕ) where
  -- What one transfer has written is followed by what `n` more write, where each returns without a
  -- wait.
  unfoldable pub transfer_all : ℕ → SpiImxData → Option (List (List ℕ) × SpiImxData)
  unfolding spi_imx_transfer
  transfer_all zero d = some ([], d)
  transfer_all (suc n) d = elim (spi_imx_transfer C swab32 [] d len) [
    | none ↦ none
    | some t ↦ more t.written (transfer_all n t.device)
  ]

  at_once :
      (d : SpiImxData)
      → n_ready C swab32 d ≢ 0
      → spi_imx_transfer C swab32 [] d len ≡ some (take_packet C swab32 d len)
  unfolding spi_imx_transfer
  at_once d n = let e : (n_ready C swab32 d == 0) ≡ false = ground arith in rw e

  -- From any state that the system reaches, with nothing else in between: as many transfers as
  -- packets are in the queue return without a wait, write all of them, in their order and the bytes
  -- of each dword swapped, and leave none ready.
  pub transfer_all_lem :
      (q : List (List ℕ)) (d : SpiImxData) (p : Option ℕ)
      → Reach C d p q
      → (e : SpiImxData) × (transfer_all (length q) d ≡ some (map (map swab32) q, e))
        × (n_ready C swab32 e ≡ 0)
  unfolding transfer_all
  transfer_all_lem [] d p r = (d, refl, ready-length C swab32 d p [] (Reach-IsSound C r))
  transfer_all_lem (oldest ∷ q) d p r =
      let s = Reach-IsSound C r in
      let some_ready : n_ready C swab32 d ≢ 0 =
        λ z. absurd (omega (arith, z, ready-length C swab32 d p (oldest ∷ q) s)) in
      let taken = take-Taken C d p (oldest ∷ q) swab32 len s some_ready in
      let t = take_packet C swab32 d len in
      let later = transfer_all_lem q t.device p (transfers swab32 len some_ready r) in
      (
        later.0,
        rw (at_once d some_ready, transfer_all)
            (ap₂ more taken.written later.1
              ∙ ap (λ x. some (map swab32 x ∷ map (map swab32) q, later.0))
                  (same_head taken.first)),
        later.2,
      )
