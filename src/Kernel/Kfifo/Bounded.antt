-- ===== src/Kernel/Kfifo/Bounded.antt =====
-- A fifo over lists that has the laws of `Kfifo`, and whose copies never fault. A fifo shows the
-- first `n` elements of its list.
use testings.Prelude.{
  ℕ, zero, suc, ◌-◌, ◌≤◌, ◌<◌, ◌≡◌, refl, sym, ap, ◌∙◌, List, [], ◌∷◌, ◌++◌, arith, length, take,
  drop, pop, length-append, length-take, length-drop, length-pop, take-append-drop, leb, ◌==◌,
  if◌then◌else◌, Bool-cases, inl, inr, Option,
}
use testings.Kernel.Errno.{success}
use testings.Kernel.Kfifo.{Kfifo, Transfer}

pub take-of_le {ℓ} : {A : Type ℓ} (n : ℕ) (xs : List A) → length xs ≤ n → take n xs ≡ xs
take-of_le zero [] h = refl
take-of_le zero (x ∷ xs) h = absurd (omega arith)
take-of_le (suc n) [] h = refl
take-of_le (suc n) (x ∷ xs) h = ap (◌∷◌ x) (take-of_le n xs (omega arith))

pub length-take_le {ℓ} : {A : Type ℓ} (n : ℕ) (xs : List A) → length (take n xs) ≤ n
length-take_le n xs = omega (arith, length-take n xs)

module _ (n : ℕ) where
  abbrev shown : List ℕ → List ℕ
  shown f = take n f

  abbrev put : List ℕ → ℕ → List ℕ
  put f b = if leb n (length (shown f)) then f else shown f ++ b ∷ []

  abbrev get : List ℕ → Option ℕ × List ℕ
  get f = pop (shown f)

  abbrev to_user : List ℕ → List ℕ → ℕ → Transfer (List ℕ)
  to_user f u k = record {
    ret = success;
    copied = length (take k (shown f));
    moved = take k (shown f);
    fifo = drop k (shown f);
  }

  abbrev from_user : List ℕ → List ℕ → ℕ → Transfer (List ℕ)
  from_user f u k = record {
    ret = success;
    copied = length (take (n - length (shown f)) (take k u));
    moved = take (n - length (shown f)) (take k u);
    fifo = shown f ++ take (n - length (shown f)) (take k u);
  }

  pub put_lem :
      (f : List ℕ) (b : ℕ)
      → shown (put f b) ≡ (if leb n (length (shown f)) then shown f else shown f ++ b ∷ [])
  put_lem f b = elim (Bool-cases (leb n (length (shown f)))) [
    | inl full ↦ rw full
    | inr room ↦
        rw room
          (take-of_le n (shown f ++ b ∷ []) (ground (arith, length-append (shown f) (b ∷ []))))
  ]

  shown-drop : (k : ℕ) (f : List ℕ) → shown (drop k (shown f)) ≡ drop k (shown f)
  shown-drop k f =
      take-of_le n (drop k (shown f)) (omega (arith, length-drop k (shown f), length-take_le n f))

  pub get_rest : (f : List ℕ) → shown (get f).1 ≡ (pop (shown f)).1
  get_rest f =
      take-of_le n (pop (shown f)).1 (omega (arith, length-pop (shown f), length-take_le n f))

  pub to_user_lem : (f : List ℕ) (k : ℕ) → shown f ≡ take k (shown f) ++ shown (drop k (shown f))
  to_user_lem f k =
      sym (take-append-drop k (shown f)) ∙ sym (ap (◌++◌ (take k (shown f))) (shown-drop k f))

  pub from_user_split :
      (f u : List ℕ) (k : ℕ) → shown (from_user f u k).fifo ≡ shown f ++ (from_user f u k).moved
  from_user_split f u k = take-of_le n (from_user f u k).fifo (
      omega (
        arith,
        length-append (shown f) (take (n - length (shown f)) (take k u)),
        length-take_le n f,
        length-take_le (n - length (shown f)) (take k u),
      ))

-- `n` is the size of the fifo; a user's buffer is the list of its bytes.
abbrev pub list_fifo : (n : ℕ) → 0 < n → Kfifo
list_fifo n h = record {
  Fifo = List ℕ;
  User = List ℕ;
  bytes = λ u. u;
  size = n;
  contents = take n;
  is_empty = λ f. length (take n f) == 0;
  is_full = λ f. leb n (length (take n f));
  put = put n;
  get = get n;
  reset = λ f. [];
  to_user = to_user n;
  from_user = from_user n;
  size_pos = h;
  bounded = length-take_le n;
  is_empty_lem = λ f. refl;
  is_full_lem = λ f. refl;
  put_lem = put_lem n;
  get_byte = λ f. refl;
  get_rest = get_rest n;
  reset_lem = λ f. take-of_le n [] (omega arith);
  to_user_split = λ f u k. to_user_lem n f k;
  to_user_copied = λ f u k. refl;
  to_user_ret = λ f u k. inr (refl, refl);
  from_user_split = from_user_split n;
  from_user_copied = λ f u k. refl;
  from_user_ret = λ f u k. inr (refl, refl);
}
