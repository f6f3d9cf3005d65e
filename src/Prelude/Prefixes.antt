-- ===== src/Prelude/Prefixes.antt =====
-- The beginnings of lists.
use Prim.Native.Nat.{ℕ, zero, suc, ◌+◌, ◌≤◌, min}
use mathlib.Core.Path.{◌≡◌, refl, sym, ap, ◌∙◌}
use mathlib.Core.List.{List, [], ◌∷◌, ◌++◌}
use native.Mathlib.Omega.{arith}
use testings.Prelude.Lists.{length, set, take, drop, length-take}

module _ {ℓ} {A : Type ℓ} where
  pub take_shorter : (j k : ℕ) (xs : List A) → j ≤ k → take j (take k xs) ≡ take j xs
  take_shorter zero k xs h = refl
  take_shorter (suc j) zero xs h = absurd (omega arith)
  take_shorter (suc j) (suc k) [] h = refl
  take_shorter (suc j) (suc k) (x ∷ xs) h = ap (◌∷◌ x) (take_shorter j k xs (omega arith))

  pub take_all : (k : ℕ) (xs : List A) → length xs ≤ k → take k xs ≡ xs
  take_all zero [] h = refl
  take_all zero (x ∷ xs) h = absurd (omega arith)
  take_all (suc k) [] h = refl
  take_all (suc k) (x ∷ xs) h = ap (◌∷◌ x) (take_all k xs (omega arith))

  -- A write behind the beginning does not change it.
  pub take-set : (k i : ℕ) (xs : List A) (v : A) → k ≤ i → take k (set xs i v) ≡ take k xs
  take-set zero i xs v h = refl
  take-set (suc k) zero xs v h = absurd (omega arith)
  take-set (suc k) (suc i) [] v h = refl
  take-set (suc k) (suc i) (x ∷ xs) v h = ap (◌∷◌ x) (take-set k i xs v (omega arith))

  pub take-append_fits : (k : ℕ) (xs ys : List A) → k ≤ length xs → take k (xs ++ ys) ≡ take k xs
  take-append_fits zero xs ys h = refl
  take-append_fits (suc k) [] ys h = absurd (omega arith)
  take-append_fits (suc k) (x ∷ xs) ys h = ap (◌∷◌ x) (take-append_fits k xs ys (omega arith))

  pub take_sum : (j k : ℕ) (xs : List A) → take (j + k) xs ≡ take j xs ++ take k (drop j xs)
  take_sum zero k xs = let e : 0 + k ≡ k = omega arith in ap (λ n. take n xs) e
  take_sum (suc j) k [] = take_all (suc j + k) [] (omega arith) ∙ sym (take_all k [] (omega arith))
  take_sum (suc j) k (x ∷ xs) =
      let e : suc j + k ≡ suc (j + k) = omega arith in
      ap (λ n. take n (x ∷ xs)) e ∙ ap (◌∷◌ x) (take_sum j k xs)

  drop-nil : (k : ℕ) → drop {A = A} k [] ≡ []
  drop-nil zero = refl
  drop-nil (suc k) = refl

  pub drop_sum : (j k : ℕ) (xs : List A) → drop (j + k) xs ≡ drop k (drop j xs)
  drop_sum zero k xs = let e : 0 + k ≡ k = omega arith in ap (λ n. drop n xs) e
  drop_sum (suc j) k [] = drop-nil (suc j + k) ∙ sym (drop-nil k)
  drop_sum (suc j) k (x ∷ xs) =
      let e : suc j + k ≡ suc (j + k) = omega arith in ap (λ n. drop n (x ∷ xs)) e ∙ drop_sum j k xs

  -- A beginning of a beginning is one.
  pub prefix-take :
      (n : ℕ) (xs ys : List A) → xs ≡ take (length xs) (take n ys) → xs ≡ take (length xs) ys
  prefix-take n xs ys e =
      let short : length xs ≤ n =
        omega (arith, ap length e, length-take (length xs) (take n ys), length-take n ys) in
      e ∙ take_shorter (length xs) n ys short

  pub take-min : (k : ℕ) (xs : List A) → take (min (length xs) k) xs ≡ take k xs
  take-min zero xs = let e : min (length xs) 0 ≡ 0 = omega arith in ap (λ n. take n xs) e
  take-min (suc k) [] = let e : min 0 (suc k) ≡ 0 = omega arith in ap (λ n. take {A = A} n []) e
  take-min (suc k) (x ∷ xs) =
      let e : min (suc (length xs)) (suc k) ≡ suc (min (length xs) k) = omega arith in
      ap (λ n. take n (x ∷ xs)) e ∙ ap (◌∷◌ x) (take-min k xs)

  pub drop-length-take : (n : ℕ) (xs : List A) → drop (length (take n xs)) xs ≡ drop n xs
  drop-length-take zero xs = refl
  drop-length-take (suc n) [] = refl
  drop-length-take (suc n) (x ∷ xs) = drop-length-take n xs
