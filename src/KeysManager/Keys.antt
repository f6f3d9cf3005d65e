-- ===== src/KeysManager/Keys.antt =====
-- processKeyEvent, processKeyPress, processKeyRelease, processAlphaKey and timerEvent.
pub mod Release
pub mod Taps
pub mod Commits
pub mod Waits
use testings.Prelude.{
  ℕ, zero, suc, ◌+◌, Bool, true, false, not, ◌&&◌, Option, none, some, List, [], ◌∷◌, length,
  get_or, ltb, leb, ◌==◌, assign, if◌then◌else◌,
}
use testings.KeysManager.Symbols.{
  key_9, key_ok, key_k1, key_k2, key_k3, key_k4, key_k5, key_ptt, key_unknown, key_max, symbols,
}
use testings.KeysManager.State.{
  Widget, commits, on_key, on_release, clicks, steps_up, steps_down, KeysManager, emit,
}
use testings.KeysManager.Edit.{do_toggle_shift, stop_edit}

-- `event.key` is the value of KeysCodeIdx for the key, which is `key_unknown` if it has none.
pub record KeyEvent : Type 0 where
  pub press : Bool
  pub key : ℕ
  pub auto_repeat : Bool

-- processAlphaKey where a widget is edited
unfoldable pub process_alpha_key : Widget → ℕ → KeysManager → KeysManager
process_alpha_key w key m =
    let syms = symbols key in
    let again = if ltb (m.current_sym + 1) m.num_alpha_syms then m.current_sym + 1 else 0 in
    if m.fl_digits
    then emit (commits w (get_or syms 0 0)) (record m { current_alpha_key = key_unknown })
    else if key == m.current_alpha_key
    then record m { current_sym = again }
    else record m { num_alpha_syms = length syms; current_sym = 0; current_alpha_key = key }

-- `switch (key)` of processKeyPress
unfoldable pub process_edit_key : Widget → ℕ → KeysManager → KeysManager
unfolding stop_edit
process_edit_key w key m =
    let toggled = if m.fl_digits then m else do_toggle_shift m in
    if key == key_k1
    then stop_edit true m
    else if key == key_k2
    then stop_edit false m
    else if key == key_k3
    then (if w.spin_box then emit (steps_down w) toggled else toggled)
    else if key == key_k4
    then (if w.spin_box then emit (steps_up w) m else m)
    else m

-- processKeyPress where the key is not one for the editor; `slave` says whether the key has a button
-- that is enabled and visible.
abbrev pub process_plain_key : Bool → ℕ → Bool → KeysManager → KeysManager
process_plain_key slave key auto_repeat m =
    if auto_repeat then m else if slave then emit (clicks key) m else emit (on_key key) m

-- processKeyPress from the test of the editor on
unfoldable pub dispatch_key : Option Widget → (ℕ → Bool) → ℕ → Bool → KeysManager → KeysManager
unfolding process_alpha_key process_edit_key
dispatch_key none slaves key auto_repeat m = process_plain_key (slaves key) key auto_repeat m
dispatch_key (some w) slaves key auto_repeat m =
    if leb key key_k5
    then (if leb key key_ok
        then process_alpha_key w key m
        else if auto_repeat
        then m
        else process_edit_key w key m)
    else process_plain_key (slaves key) key auto_repeat m

unfoldable pub process_key_press : (ℕ → Bool) → ℕ → Bool → KeysManager → KeysManager
unfolding dispatch_key
process_key_press slaves key auto_repeat m =
    dispatch_key m.editor slaves key auto_repeat
      (record m { timer = true; keys_pressed = assign m.keys_pressed key true })

unfoldable pub is_edited : KeysManager → Bool
is_edited m = elim m.editor [ none ↦ false | some w ↦ true ]

unfoldable pub process_key_release : ℕ → Bool → KeysManager → KeysManager
unfolding is_edited
process_key_release key auto_repeat m =
    let released = record m { keys_pressed = assign m.keys_pressed key false } in
    if auto_repeat
    then m
    else if is_edited m && ltb key key_k1
    then released
    else emit (on_release key) released

unfoldable pub process_key_event : (ℕ → Bool) → KeyEvent → KeysManager → KeysManager
unfolding process_key_press process_key_release
process_key_event slaves e m =
    if ltb e.key key_unknown
    then (if e.press
        then process_key_press slaves e.key e.auto_repeat m
        else process_key_release e.key e.auto_repeat m)
    else m

-- The loop of timerEvent over the `n` keys from `key` on.
unfoldable pub release_from : ℕ → ℕ → KeysManager → KeysManager
unfolding process_key_release
release_from zero key m = m
release_from (suc n) key m =
    release_from n (key + 1) (if m.keys_pressed key then process_key_release key false m else m)

-- The symbol that is committed; `to_lower` is that of QString.
abbrev pub current_symbol : (ℕ → ℕ) → KeysManager → ℕ
current_symbol to_lower m =
    let sym = get_or (symbols m.current_alpha_key) m.current_sym 0 in
    if m.fl_shift then sym else to_lower sym

unfoldable pub commit_symbol : Option Widget → (ℕ → ℕ) → KeysManager → KeysManager
unfolding symbols
commit_symbol none to_lower m = m
commit_symbol (some w) to_lower m =
    if leb m.current_alpha_key key_9 then emit (commits w (current_symbol to_lower m)) m else m

unfoldable pub timer_event : (ℕ → ℕ) → KeysManager → KeysManager
unfolding release_from commit_symbol
timer_event to_lower m =
    let released = release_from key_max 0 (record m { timer = false }) in
    record (commit_symbol released.editor to_lower released) {
      current_alpha_key = key_unknown;
      current_sym = 0;
    }
