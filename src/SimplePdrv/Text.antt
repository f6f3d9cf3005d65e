-- ===== src/SimplePdrv/Text.antt =====
-- What the attribute shows of what is stored.
use testings.Prelude.{
  ℕ, zero, suc, ◌<◌, ◌≡◌, ◌≢◌, refl, sym, ap, ◌∙◌, List, [], ◌∷◌, ◌++◌, length, set, take, drop,
  min, ◌==◌, arith, take-min, false, length-take, length-drop, take_all, take-set, take-append_fits,
}
use testings.SimplePdrv.{SimplePriv, c_string, value_show, value_store}
use testings.SimplePdrv.Contents.{IsTerminated, visible}

-- No character is 0.
abbrev pub IsText : List ℕ → Type 0
IsText [] = Unit
IsText (c ∷ cs) = (c ≢ 0) × IsText cs

IsText-take : (n : ℕ) (cs : List ℕ) → IsText cs → IsText (take n cs)
IsText-take zero cs t = tt
IsText-take (suc n) [] t = tt
IsText-take (suc n) (c ∷ cs) (h, t) = (h, IsText-take n cs t)

c_string-set :
    (xs ys : List ℕ) → IsText xs → 0 < length ys → c_string (set (xs ++ ys) (length xs) 0) ≡ xs
c_string-set [] [] t h = absurd (omega arith)
c_string-set [] (y ∷ ys) t h = refl
c_string-set (x ∷ xs) ys (n, t) h =
    let e : (x == 0) ≡ false = ground arith in rw e (ap (◌∷◌ x) (c_string-set xs ys t h))

take-set_append : (xs ys : List ℕ) (v : ℕ) → take (length xs) (set (xs ++ ys) (length xs) v) ≡ xs
take-set_append xs ys v =
    take-set (length xs) (length xs) (xs ++ ys) v (omega arith)
    ∙ take-append_fits (length xs) xs ys (omega arith)
    ∙ take_all (length xs) xs (omega arith)

-- value_store answers that it has taken all the characters, none of which is 0, and stores the first 127
-- of them: value_show then shows these, with a new line, and a read can see these and no others.
pub value_store-visible :
    (data_in : List ℕ) (d : SimplePriv)
    → IsTerminated d
    → IsText data_in
    → ((value_store data_in d).0 ≡ length data_in)
      × (value_show (value_store data_in d).1 ≡ take 127 data_in ++ (10 ∷ []))
      × (visible (value_store data_in d).1 ≡ take 127 data_in)
unfolding value_store value_show
value_store-visible data_in d t text =
    let len = min (length data_in) 127 in
    let xs = take len data_in in
    let ys = drop len d.buf in
    let e : length xs ≡ len = omega (arith, length-take len data_in) in
    let more : 0 < length ys = omega (arith, length-drop len d.buf, t.size) in
    let cut : xs ≡ take 127 data_in = take-min 127 data_in in
    let stored = IsText-take len data_in text in
    (
      refl,
      ap (λ s. s ++ (10 ∷ []))
          (ap (λ n. c_string (set (xs ++ ys) n 0)) (sym e) ∙ c_string-set xs ys stored more ∙ cut),
      ap (λ n. take n (set (xs ++ ys) n 0)) (sym e) ∙ take-set_append xs ys 0 ∙ cut,
    )
