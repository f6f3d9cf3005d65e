-- ===== src/KeysManager/Keys/Taps.antt =====
-- What a key types that is pressed several times.
use testings.Prelude.{
  ℕ, zero, suc, ◌+◌, ◌%◌, ◌≤◌, ◌≡◌, ◌≢◌, ◌⊎◌, refl, sym, ap, subst, ◌∙◌, Bool, true, false, some,
  List, [], ◌∷◌, length, assign, ltb, leb, ◌==◌, if◌then◌else◌, inl, inr, arith,
}
use testings.KeysManager.State.{Widget, KeysManager}
use testings.KeysManager.Symbols.{key_9, key_ok, key_k5, key_unknown, symbols}
use testings.KeysManager.Keys.{
  KeyEvent, process_alpha_key, dispatch_key, process_key_press, process_key_release,
  process_key_event,
}
use testings.KeysManager.Keys.Release.{committed, SameInput, process_key_release-SameInput}

-- The symbols of a digit are two, four or five.
symbols_count :
    (key : ℕ)
    → key ≤ key_9
    → (length (symbols key) ≡ 2) ⊎ (length (symbols key) ≡ 4) ⊎ (length (symbols key) ≡ 5)
unfolding symbols
symbols_count zero h = inl refl
symbols_count (suc zero) h = inr (inl refl)
symbols_count (suc (suc zero)) h = inr (inr refl)
symbols_count (suc (suc (suc zero))) h = inr (inr refl)
symbols_count (suc (suc (suc (suc zero)))) h = inr (inr refl)
symbols_count (suc (suc (suc (suc (suc zero))))) h = inr (inr refl)
symbols_count (suc (suc (suc (suc (suc (suc zero)))))) h = inr (inr refl)
symbols_count (suc (suc (suc (suc (suc (suc (suc zero))))))) h = inr (inr refl)
symbols_count (suc (suc (suc (suc (suc (suc (suc (suc zero)))))))) h = inr (inr refl)
symbols_count (suc (suc (suc (suc (suc (suc (suc (suc (suc zero))))))))) h = inr (inr refl)
symbols_count (suc (suc (suc (suc (suc (suc (suc (suc (suc (suc k)))))))))) h = absurd (omega arith)

-- The next symbol, and the first after the last.
next_symbol :
    (n l : ℕ)
    → (l ≡ 2) ⊎ (l ≡ 4) ⊎ (l ≡ 5)
    → (if ltb (n % l + 1) l then n % l + 1 else 0) ≡ (n + 1) % l
next_symbol n l (inl e) = rw e (ground arith)
next_symbol n l (inr (inl e)) = rw e (ground arith)
next_symbol n l (inr (inr e)) = rw e (ground arith)

-- The key has been pressed `n` times more than once, and its symbol waits for the timer.
pub record Tapping (w : Widget) (key n : ℕ) (shifted : Bool) (text : List (Widget × ℕ))
    (m : KeysManager) : Type 0 where
  pub editor : m.editor ≡ some w
  pub fl_digits : m.fl_digits ≡ false
  pub fl_shift : m.fl_shift ≡ shifted
  pub current_alpha_key : m.current_alpha_key ≡ key
  pub num_alpha_syms : m.num_alpha_syms ≡ length (symbols key)
  pub current_sym : m.current_sym ≡ n % length (symbols key)
  pub text_kept : committed m.effects ≡ text

-- What a press leaves before the key is looked at.
abbrev pressed : ℕ → KeysManager → KeysManager
pressed key m = record m { timer = true; keys_pressed = assign m.keys_pressed key true }

press-alpha :
    (slaves : ℕ → Bool) (key : ℕ) (auto_repeat : Bool) (w : Widget) (m : KeysManager)
    → m.editor ≡ some w
    → key ≤ key_ok
    → process_key_press slaves key auto_repeat m ≡ process_alpha_key w key (pressed key m)
unfolding process_key_press
press-alpha slaves key auto_repeat w m e h =
    let first : leb key key_k5 ≡ true = ground arith in
    let second : leb key key_ok ≡ true = ground arith in
    ap (λ ed. dispatch_key ed slaves key auto_repeat (pressed key m)) e
    ∙ rw (first, dispatch_key, second) refl

alpha_first :
    (w : Widget) (key : ℕ) (m : KeysManager)
    → key ≤ key_9
    → m.editor ≡ some w
    → m.fl_digits ≡ false
    → m.current_alpha_key ≢ key
    → Tapping w key 0 m.fl_shift (committed m.effects) (process_alpha_key w key m)
unfolding process_alpha_key
alpha_first w key m h e d n =
    let other : (key == m.current_alpha_key) ≡ false = ground arith in
    let start : 0 ≡ 0 % length (symbols key) = ground (arith, symbols_count key h) in
    ground (arith, start)

alpha_again :
    (w : Widget) (key n : ℕ) (shifted : Bool) (text : List (Widget × ℕ)) (m : KeysManager)
    → key ≤ key_9
    → Tapping w key n shifted text m
    → Tapping w key (n + 1) shifted text (process_alpha_key w key m)
unfolding process_alpha_key
alpha_again w key n shifted text m h t =
    ground (arith, next_symbol n (length (symbols key)) (symbols_count key h))

pub Tapping-SameInput :
    (w : Widget) (key n : ℕ) (shifted : Bool) (text : List (Widget × ℕ)) (m m' : KeysManager)
    → SameInput m m'
    → Tapping w key n shifted text m
    → Tapping w key n shifted text m'
Tapping-SameInput w key n shifted text m m' s t = record {
  editor = s.editor ∙ t.editor;
  fl_digits = s.fl_digits ∙ t.fl_digits;
  fl_shift = s.fl_shift ∙ t.fl_shift;
  current_alpha_key = s.current_alpha_key ∙ t.current_alpha_key;
  num_alpha_syms = s.num_alpha_syms ∙ t.num_alpha_syms;
  current_sym = s.current_sym ∙ t.current_sym;
  text_kept = s.text ∙ t.text_kept;
}

-- Presses (`true`) and releases of one key, each with its `auto_repeat`.
unfoldable pub tap : (ℕ → Bool) → ℕ → List (Bool × Bool) → KeysManager → KeysManager
unfolding process_key_event
tap slaves key [] m = m
tap slaves key ((press, auto_repeat) ∷ es) m =
    tap slaves key es
      (process_key_event slaves (record { press = press; key = key; auto_repeat = auto_repeat }) m)

abbrev pub presses : List (Bool × Bool) → ℕ
presses [] = 0
presses ((true, r) ∷ es) = suc (presses es)
presses ((false, r) ∷ es) = presses es

Tapping-pressed :
    (key : ℕ) (w : Widget) (n : ℕ) (shifted : Bool) (text : List (Widget × ℕ)) (m : KeysManager)
    → Tapping w key n shifted text m
    → Tapping w key n shifted text (pressed key m)
Tapping-pressed key w n shifted text m t = ground arith

pub Tapping-quiet :
    (w : Widget) (key n : ℕ) (shifted : Bool) (text : List (Widget × ℕ)) (m : KeysManager)
    → Tapping w key n shifted text m
    → Tapping w key n shifted text (record m { timer = false })
Tapping-quiet w key n shifted text m t = ground arith

module _ (slaves : ℕ → Bool) (key : ℕ) (h : key ≤ key_9) where
  abbrev event : Bool → Bool → KeyEvent
  event press auto_repeat = record { press = press; key = key; auto_repeat = auto_repeat }

  known : ltb key key_unknown ≡ true
  known = ground arith

  event_press :
      (auto_repeat : Bool) (w : Widget) (m : KeysManager)
      → m.editor ≡ some w
      → process_key_event slaves (event true auto_repeat) m
        ≡ process_alpha_key w key (pressed key m)
  unfolding process_key_event
  event_press auto_repeat w m e =
      rw (known, process_key_event) (press-alpha slaves key auto_repeat w m e (omega arith))

  event_release :
      (auto_repeat : Bool) (m : KeysManager)
      → process_key_event slaves (event false auto_repeat) m ≡ process_key_release key auto_repeat m
  unfolding process_key_event
  event_release auto_repeat m = rw (known, process_key_event) refl

  Tapping-tap :
      (w : Widget) (n : ℕ) (shifted : Bool) (text : List (Widget × ℕ)) (es : List (Bool × Bool))
      (m : KeysManager)
      → Tapping w key n shifted text m
      → Tapping w key (n + presses es) shifted text (tap slaves key es m)
  unfolding tap
  Tapping-tap w n shifted text [] m t =
      let e : n ≡ n + 0 = omega arith in subst (λ k. Tapping w key k shifted text m) e t
  Tapping-tap w n shifted text ((true, r) ∷ es) m t =
      let waiting : Tapping w key n shifted text (pressed key m) =
        Tapping-pressed key w n shifted text m t in
      let next =
        subst (Tapping w key (n + 1) shifted text) (sym (event_press r w m t.editor))
          (alpha_again w key n shifted text (pressed key m) h waiting) in
      let e : n + 1 + presses es ≡ n + suc (presses es) = omega arith in
      subst
        (λ k.
          Tapping w key k shifted text
            (tap slaves key es (process_key_event slaves (event true r) m)))
        e (Tapping-tap w (n + 1) shifted text es (process_key_event slaves (event true r) m) next)
  Tapping-tap w n shifted text ((false, r) ∷ es) m t =
      Tapping-tap w n shifted text es (process_key_event slaves (event false r) m) (
        subst (Tapping w key n shifted text) (sym (event_release r m)) (
          Tapping-SameInput w key n shifted text m (process_key_release key r m)
            (process_key_release-SameInput key r m) t))

  -- A key that is pressed first when another symbol, or none, waits.
  pub tap_first :
      (w : Widget) (r : Bool) (es : List (Bool × Bool)) (m : KeysManager)
      → m.editor ≡ some w
      → m.fl_digits ≡ false
      → m.current_alpha_key ≢ key
      → Tapping w key
          (presses es)
          m.fl_shift
          (committed m.effects)
          (tap slaves key ((true, r) ∷ es) m)
  unfolding tap
  tap_first w r es m e d n =
      let count : 0 + presses es ≡ presses es = omega arith in
      subst
        (λ k. Tapping w key k m.fl_shift (committed m.effects) (tap slaves key ((true, r) ∷ es) m))
        count
        (Tapping-tap w 0 m.fl_shift (committed m.effects) es
          (process_key_event slaves (event true r) m)
          (subst (Tapping w key 0 m.fl_shift (committed m.effects)) (sym (event_press r w m e))
            (alpha_first w key (pressed key m) h e d n)))
