-- ===== src/KeysManager/System/Waiting.antt =====
-- What holds of a KeysManager between two events, and what starting, stopping and pressing keep of it.
pub mod Release
use testings.Prelude.{
  ℕ, zero, suc, ◌+◌, ◌≤◌, ◌<◌, ◌≡◌, ◌⊎◌, refl, sym, ap, subst, ◌∙◌, Bool, true, false, not, ◌&&◌,
  Option, none, some, List, [], ◌∷◌, length, assign, assign_self, assign_ne, ltb, leb, ◌==◌,
  if◌then◌else◌, Bool-cases, if_both, inl, inr, arith, ◌≢◌, ℕ_discrete,
}
use testings.KeysManager.State.{
  Widget, Button, ok, cancel, shift, up, down, Effect, commits, on_key, on_release, clicks,
  steps_up, steps_down, KeysManager, emit, show_button,
}
use testings.KeysManager.Symbols.{
  key_9, key_ok, key_k1, key_k2, key_k3, key_k4, key_k5, key_unknown, key_max, symbols,
}
use testings.KeysManager.Edit.{
  set_shift, do_toggle_shift, start_widget, start_editor, start_edit, stop_edit, set_edit_buttons,
}
use testings.KeysManager.Keys.{
  process_alpha_key, process_edit_key, dispatch_key, process_plain_key, process_key_press,
  is_edited, process_key_release, process_key_event, release_from, commit_symbol, timer_event,
  KeyEvent,
}
use testings.KeysManager.Keys.Release.{
  SameInput, process_key_release-SameInput, release_from-SameInput,
}
use testings.KeysManager.Keys.Waits.{
  waiting, waiting-show_button, waiting-start_widget, waiting-stop_edit,
}
use testings.KeysManager.System.{
  Reach, new, buttons_set, starts, stops, shifts, toggles, receives, expires,
}

-- The symbol that waits, if any, is one of its key; the timer runs while a symbol waits or a key is held
-- to be pressed; and only the keys of the phone are.
pub record Ready (key count symbol : ℕ) (timer : Bool) (pressed : ℕ → Bool) : Type 0 where
  pub symbol_of_key :
      (key ≡ key_unknown)
      ⊎ ((key ≤ key_ok) × (symbol < length (symbols key)) × (count ≡ length (symbols key)))
  pub timer_runs : (timer ≡ true) ⊎ ((key ≡ key_unknown) × ((k : ℕ) → pressed k ≡ false))
  pub phone_keys : (k : ℕ) → key_unknown ≤ k → pressed k ≡ false

abbrev pub IsReady : KeysManager → Type 0
IsReady m = Ready m.current_alpha_key m.num_alpha_syms m.current_sym m.timer m.keys_pressed

same_waiting : (m m' : KeysManager) → waiting m' ≡ waiting m → IsReady m → IsReady m'
same_waiting m m' e r = subst (λ t. Ready t.0 t.1 t.2 t.4 t.5) (sym e) r

IsReady-start_editor :
    (ed w focus : Option Widget) (m : KeysManager) → IsReady m → IsReady (start_editor ed w focus m)
IsReady-start_editor (some x) w focus m r = r
IsReady-start_editor none (some w) focus m r =
    same_waiting m (start_widget w m) (waiting-start_widget w m) r
IsReady-start_editor none none none m r = r
IsReady-start_editor none none (some w) m r =
    same_waiting m (start_widget w m) (waiting-start_widget w m) r

pub IsReady-start_edit :
    (w focus : Option Widget) (m : KeysManager) → IsReady m → IsReady (start_edit w focus m)
unfolding start_edit
IsReady-start_edit w focus m r = IsReady-start_editor m.editor w focus m r

pub IsReady-stop_edit : (fine : Bool) (m : KeysManager) → IsReady m → IsReady (stop_edit fine m)
IsReady-stop_edit fine m r = same_waiting m (stop_edit fine m) (waiting-stop_edit fine m) r

pub IsReady-set_edit_buttons :
    (given : Button → Bool) (m : KeysManager) → IsReady m → IsReady (set_edit_buttons given m)
unfolding set_edit_buttons
IsReady-set_edit_buttons given m r =
    let set = record m { edit_buttons = given } in
    let one = show_button ok false set in
    let two = show_button cancel false one in
    let three = show_button shift false two in
    let four = show_button up false three in
    let kept : waiting (show_button down false four) ≡ waiting set =
      waiting-show_button down false four
      ∙ waiting-show_button up false three
      ∙ waiting-show_button shift false two
      ∙ waiting-show_button cancel false one
      ∙ waiting-show_button ok false set in
    same_waiting set (show_button down false four) kept r

-- Each of the first keys has a symbol.
symbols_some : (key : ℕ) → key ≤ key_ok → 0 < length (symbols key)
unfolding symbols
symbols_some key h = ground arith

-- The press of a key, before it is looked at
press_begun :
    (key : ℕ) (m : KeysManager)
    → key < key_unknown
    → IsReady m
    → IsReady (record m { timer = true; keys_pressed = assign m.keys_pressed key true })
press_begun key m h r = record {
  symbol_of_key = r.symbol_of_key;
  timer_runs = inl refl;
  phone_keys = λ k big. assign_ne m.keys_pressed key k true (omega arith) ∙ r.phone_keys k big;
}

next_below :
    (symbol count l : ℕ)
    → symbol < l
    → count ≡ l
    → (if ltb (symbol + 1) count then symbol + 1 else 0) < l
next_below symbol count l h e = ground arith

-- The next symbol of the key that waits is one of it.
abbrev SymbolOf : ℕ → ℕ → ℕ → Type 0
SymbolOf key count symbol =
    (key ≡ key_unknown)
    ⊎ ((key ≤ key_ok) × (symbol < length (symbols key)) × (count ≡ length (symbols key)))

symbol_again :
    (m : KeysManager)
    → m.current_alpha_key ≤ key_ok
    → SymbolOf m.current_alpha_key m.num_alpha_syms m.current_sym
    → SymbolOf m.current_alpha_key m.num_alpha_syms
        (if ltb (m.current_sym + 1) m.num_alpha_syms then m.current_sym + 1 else 0)
symbol_again m h (inl u) = absurd (omega arith)
symbol_again m h (inr (a, b, c)) =
    inr (a, next_below m.current_sym m.num_alpha_syms (length (symbols m.current_alpha_key)) b c, c)

IsReady-process_alpha_key :
    (w : Widget) (key : ℕ) (m : KeysManager)
    → key ≤ key_ok
    → m.timer ≡ true
    → IsReady m
    → IsReady (process_alpha_key w key m)
unfolding process_alpha_key
IsReady-process_alpha_key w key m h t r = elim (Bool-cases m.fl_digits) [
  | inl d ↦
      rw (d, process_alpha_key)
        (record { symbol_of_key = inl refl; timer_runs = inl t; phone_keys = r.phone_keys })
  | inr d ↦
      rw (d, process_alpha_key)
        (elim (Bool-cases (key == m.current_alpha_key)) [
          | inl k ↦ rw k (record {
            symbol_of_key = symbol_again m (ground arith) r.symbol_of_key;
            timer_runs = inl t;
            phone_keys = r.phone_keys;
          })
          | inr k ↦ rw k (record {
            symbol_of_key = inr (h, symbols_some key h, refl);
            timer_runs = inl t;
            phone_keys = r.phone_keys;
          })
        ])
]

IsReady-process_plain_key :
    (slave : Bool) (key : ℕ) (auto_repeat : Bool) (m : KeysManager)
    → IsReady m
    → IsReady (process_plain_key slave key auto_repeat m)
IsReady-process_plain_key slave key auto_repeat m r =
    if_both IsReady auto_repeat r (if_both IsReady slave r r)

IsReady-process_edit_key :
    (w : Widget) (key : ℕ) (m : KeysManager) → IsReady m → IsReady (process_edit_key w key m)
unfolding process_edit_key
IsReady-process_edit_key w key m r =
    let toggled : IsReady (if m.fl_digits then m else do_toggle_shift m) =
      if_both IsReady m.fl_digits r r in
    if_both IsReady (key == key_k1) (IsReady-stop_edit true m r) (
      if_both IsReady (key == key_k2) (IsReady-stop_edit false m r) (
        if_both IsReady (key == key_k3) (if_both IsReady w.spin_box toggled toggled)
          (if_both IsReady (key == key_k4) (if_both IsReady w.spin_box r r) r)))

IsReady-dispatch_key :
    (ed : Option Widget) (slaves : ℕ → Bool) (key : ℕ) (auto_repeat : Bool) (m : KeysManager)
    → m.timer ≡ true
    → IsReady m
    → IsReady (dispatch_key ed slaves key auto_repeat m)
unfolding dispatch_key
IsReady-dispatch_key none slaves key auto_repeat m t r =
    IsReady-process_plain_key (slaves key) key auto_repeat m r
IsReady-dispatch_key (some w) slaves key auto_repeat m t r =
    let alpha : IsReady (
        if leb key key_ok
        then process_alpha_key w key m
        else if auto_repeat
        then m
        else process_edit_key w key m) =
      elim (Bool-cases (leb key key_ok)) [
        | inl k ↦ rw k (IsReady-process_alpha_key w key m (ground arith) t r)
        | inr k ↦ rw k (if_both IsReady auto_repeat r (IsReady-process_edit_key w key m r))
      ] in
    if_both IsReady (leb key key_k5) alpha
      (IsReady-process_plain_key (slaves key) key auto_repeat m r)

pub IsReady-process_key_press :
    (slaves : ℕ → Bool) (key : ℕ) (auto_repeat : Bool) (m : KeysManager)
    → key < key_unknown
    → IsReady m
    → IsReady (process_key_press slaves key auto_repeat m)
unfolding process_key_press
IsReady-process_key_press slaves key auto_repeat m h r =
    IsReady-dispatch_key m.editor slaves key auto_repeat
      (record m { timer = true; keys_pressed = assign m.keys_pressed key true }) refl
      (press_begun key m h r)
