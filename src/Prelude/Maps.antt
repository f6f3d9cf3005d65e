-- ===== src/Prelude/Maps.antt =====
-- Functions of a number that are changed at one place.
use Prim.Native.Nat.{ℕ}
use mathlib.Core.Path.{◌≡◌, refl}
use mathlib.Core.Logic.{◌≢◌}
use mathlib.Core.Bool.{true, false}
use native.Mathlib.Omega.{arith}
use testings.Prelude.Tests.{◌==◌, if◌then◌else◌}

module _ {ℓ} {A : Type ℓ} where
  -- The value `v` at `i`, and `f` elsewhere: `f[i] = v`.
  abbrev pub assign : (ℕ → A) → ℕ → A → ℕ → A
  assign f i v j = if j == i then v else f j

  pub assign_self : (f : ℕ → A) (i : ℕ) (v : A) → assign f i v i ≡ v
  assign_self f i v = let e : (i == i) ≡ true = ground arith in rw e refl

  pub assign_ne : (f : ℕ → A) (i j : ℕ) (v : A) → j ≢ i → assign f i v j ≡ f j
  assign_ne f i j v n = let e : (j == i) ≡ false = ground arith in rw e refl
