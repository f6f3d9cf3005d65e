-- ===== src/Prelude/Options.antt =====
-- The constructors of Option are apart, and `some` is injective.
use mathlib.Core.Path.{◌≡◌}
use mathlib.Core.Option.{none, some}

pub none-ne-some {ℓ} : {A : Type ℓ} {a : A} → none ≡ some a → ⊥
none-ne-some h = cc

pub some_inj {ℓ} : {A : Type ℓ} {a b : A} → some a ≡ some b → a ≡ b
some_inj h = cc
