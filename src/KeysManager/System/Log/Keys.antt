-- ===== src/KeysManager/System/Log/Keys.antt =====
-- The log of a KeysManager when keys are pressed and released and the timer expires.
use testings.Prelude.{
  ℕ, zero, suc, ◌+◌, ◌≤◌, ◌<◌, ◌≡◌, ◌⊎◌, refl, ◌∙◌, Bool, true, false, not, ◌&&◌, Option, none,
  some, ◌∷◌, assign, ltb, leb, ◌==◌, if◌then◌else◌, Bool-cases, if_both, inl, inr, arith,
}
use testings.KeysManager.State.{
  Widget, Effect, commits, on_shift, steps_up, steps_down, KeysManager, emit,
}
use testings.KeysManager.Symbols.{
  key_9, key_ok, key_k1, key_k2, key_k3, key_k4, key_k5, key_unknown, key_max,
}
use testings.KeysManager.Edit.{do_toggle_shift}
use testings.KeysManager.Keys.{
  process_alpha_key, process_edit_key, dispatch_key, process_plain_key, process_key_press,
  is_edited, process_key_release, process_key_event, release_from, current_symbol, commit_symbol,
  timer_event, KeyEvent,
}
use testings.KeysManager.System.{
  Reach, new, buttons_set, starts, stops, shifts, toggles, receives, expires,
}
use testings.KeysManager.System.Log.{
  session, InPlace, IsLogged, IsLogged-start_edit, IsLogged-stop_edit, IsLogged-set_edit_buttons,
}

IsLogged-process_alpha_key :
    (w : Widget) (key : ℕ) (m : KeysManager)
    → m.editor ≡ some w
    → IsLogged m
    → IsLogged (process_alpha_key w key m)
unfolding process_alpha_key
IsLogged-process_alpha_key w key m e l = elim (Bool-cases m.fl_digits) [
  | inl d ↦
      rw (d, process_alpha_key)
        (record { session_is = l.session_is; in_place = (l.session_is ∙ e, l.in_place) })
  | inr d ↦
      rw (d, process_alpha_key)
        (elim (Bool-cases (key == m.current_alpha_key)) [ inl k ↦ rw k l | inr k ↦ rw k l ])
]

IsLogged-process_plain_key :
    (slave : Bool) (key : ℕ) (auto_repeat : Bool) (m : KeysManager)
    → (m.editor ≡ none) ⊎ (key_k5 < key)
    → IsLogged m
    → IsLogged (process_plain_key slave key auto_repeat m)
IsLogged-process_plain_key slave key true m h l = l
IsLogged-process_plain_key true key false m (inl n) l = record {
  session_is = l.session_is;
  in_place = (inl (l.session_is ∙ n), l.in_place);
}
IsLogged-process_plain_key false key false m (inl n) l = record {
  session_is = l.session_is;
  in_place = (inl (l.session_is ∙ n), l.in_place);
}
IsLogged-process_plain_key true key false m (inr k) l = record {
  session_is = l.session_is;
  in_place = (inr k, l.in_place);
}
IsLogged-process_plain_key false key false m (inr k) l = record {
  session_is = l.session_is;
  in_place = (inr k, l.in_place);
}

-- A step of the widget that is edited.
edit_effect :
    (w : Widget) (e : Effect) (m : KeysManager)
    → session (e ∷ m.effects) ≡ session m.effects
    → InPlace e m.effects
    → IsLogged m
    → IsLogged (emit e m)
edit_effect w e m s h l = record { session_is = s ∙ l.session_is; in_place = (h, l.in_place) }

IsLogged-process_edit_key :
    (w : Widget) (key : ℕ) (m : KeysManager)
    → m.editor ≡ some w
    → IsLogged m
    → IsLogged (process_edit_key w key m)
unfolding process_edit_key
IsLogged-process_edit_key w key m e l =
    let toggled = if m.fl_digits then m else do_toggle_shift m in
    let toggled_logged : IsLogged toggled = if_both IsLogged m.fl_digits l (
      edit_effect w (on_shift (not m.fl_shift)) (record m { fl_shift = not m.fl_shift }) refl tt
        l) in
    let toggled_editor : toggled.editor ≡ some w =
      if_both (λ (m' : KeysManager). m'.editor ≡ some w) m.fl_digits e e in
    if_both IsLogged (key == key_k1) (IsLogged-stop_edit true m l) (
      if_both IsLogged (key == key_k2) (IsLogged-stop_edit false m l) (
        if_both IsLogged (key == key_k3)
          (if_both IsLogged w.spin_box
            (edit_effect w (steps_down w) toggled refl (toggled_logged.session_is ∙ toggled_editor)
              toggled_logged)
            toggled_logged)
          (if_both IsLogged (key == key_k4)
            (if_both IsLogged w.spin_box (edit_effect w (steps_up w) m refl (l.session_is ∙ e) l) l)
            l)))

IsLogged-dispatch_key :
    (ed : Option Widget) (slaves : ℕ → Bool) (key : ℕ) (auto_repeat : Bool) (m : KeysManager)
    → m.editor ≡ ed
    → IsLogged m
    → IsLogged (dispatch_key ed slaves key auto_repeat m)
unfolding dispatch_key
IsLogged-dispatch_key none slaves key auto_repeat m e l =
    IsLogged-process_plain_key (slaves key) key auto_repeat m (inl e) l
IsLogged-dispatch_key (some w) slaves key auto_repeat m e l = elim (Bool-cases (leb key key_k5)) [
  | inl k ↦ rw k (
      if_both IsLogged (leb key key_ok) (IsLogged-process_alpha_key w key m e l)
        (if_both IsLogged auto_repeat l (IsLogged-process_edit_key w key m e l)))
  | inr k ↦ rw k (IsLogged-process_plain_key (slaves key) key auto_repeat m (inr (ground arith)) l)
]

IsLogged-process_key_press :
    (slaves : ℕ → Bool) (key : ℕ) (auto_repeat : Bool) (m : KeysManager)
    → IsLogged m
    → IsLogged (process_key_press slaves key auto_repeat m)
unfolding process_key_press
IsLogged-process_key_press slaves key auto_repeat m l =
    IsLogged-dispatch_key m.editor slaves key auto_repeat
      (record m { timer = true; keys_pressed = assign m.keys_pressed key true }) refl l

-- Nothing is edited, or something is.
is_edited-cases : (m : KeysManager) → (m.editor ≡ none) ⊎ (is_edited m ≡ true)
unfolding is_edited
is_edited-cases m = ground arith

IsLogged-process_key_release :
    (key : ℕ) (auto_repeat : Bool) (m : KeysManager)
    → IsLogged m
    → IsLogged (process_key_release key auto_repeat m)
unfolding process_key_release
IsLogged-process_key_release key true m l = l
IsLogged-process_key_release key false m l = elim (Bool-cases (is_edited m && ltb key key_k1)) [
  | inl c ↦ rw c l
  | inr c ↦
      let placed : (session m.effects ≡ none) ⊎ (key_k1 ≤ key) = elim (is_edited-cases m) [
        | inl n ↦ inl (l.session_is ∙ n)
        | inr t ↦ inr (ground (arith, t, c))
      ] in
      rw c (record { session_is = l.session_is; in_place = (placed, l.in_place) })
]

IsLogged-process_key_event :
    (slaves : ℕ → Bool) (e : KeyEvent) (m : KeysManager)
    → IsLogged m
    → IsLogged (process_key_event slaves e m)
unfolding process_key_event
IsLogged-process_key_event slaves e m l =
    if_both IsLogged (ltb e.key key_unknown)
      (if_both IsLogged e.press (IsLogged-process_key_press slaves e.key e.auto_repeat m l)
        (IsLogged-process_key_release e.key e.auto_repeat m l))
      l

IsLogged-release_from : (n key : ℕ) (m : KeysManager) → IsLogged m → IsLogged (release_from n key m)
unfolding release_from
IsLogged-release_from zero key m l = l
IsLogged-release_from (suc n) key m l =
    let released = if m.keys_pressed key then process_key_release key false m else m in
    IsLogged-release_from n (key + 1) released
      (if_both IsLogged (m.keys_pressed key) (IsLogged-process_key_release key false m l) l)

IsLogged-commit_symbol :
    (ed : Option Widget) (to_lower : ℕ → ℕ) (m : KeysManager)
    → m.editor ≡ ed
    → IsLogged m
    → IsLogged (commit_symbol ed to_lower m)
unfolding commit_symbol
IsLogged-commit_symbol none to_lower m e l = l
IsLogged-commit_symbol (some w) to_lower m e l =
    if_both IsLogged (leb m.current_alpha_key key_9)
      (edit_effect w (commits w (current_symbol to_lower m)) m refl (l.session_is ∙ e) l) l

IsLogged-timer_event :
    (to_lower : ℕ → ℕ) (m : KeysManager) → IsLogged m → IsLogged (timer_event to_lower m)
unfolding timer_event
IsLogged-timer_event to_lower m l =
    let released = release_from key_max 0 (record m { timer = false }) in
    IsLogged-commit_symbol released.editor to_lower released refl
      (IsLogged-release_from key_max 0 (record m { timer = false }) l)

-- In what a KeysManager does from its creation on, the edits are announced one after the other, each
-- ended before the next one starts, and the widget between the announcement and the end is the editor.
-- Text, steps and the end of an edit go to that widget alone, and while there is one neither the
-- presses of the keys up to K5 nor the releases of the keys below K1 are announced.
pub Reach-IsLogged : (to_lower : ℕ → ℕ) (m : KeysManager) → Reach to_lower m → IsLogged m
Reach-IsLogged to_lower m new = record { session_is = refl; in_place = tt }
Reach-IsLogged to_lower m (buttons_set given {m = m'} r) =
    IsLogged-set_edit_buttons given m' (Reach-IsLogged to_lower m' r)
Reach-IsLogged to_lower m (starts w focus {m = m'} r) =
    IsLogged-start_edit w focus m' (Reach-IsLogged to_lower m' r)
Reach-IsLogged to_lower m (stops fine {m = m'} r) =
    IsLogged-stop_edit fine m' (Reach-IsLogged to_lower m' r)
Reach-IsLogged to_lower m (shifts fl {m = m'} r) =
    let l = Reach-IsLogged to_lower m' r in
    record { session_is = l.session_is; in_place = (tt, l.in_place) }
Reach-IsLogged to_lower m (toggles {m = m'} r) =
    let l = Reach-IsLogged to_lower m' r in
    record { session_is = l.session_is; in_place = (tt, l.in_place) }
Reach-IsLogged to_lower m (receives slaves e {m = m'} r) =
    IsLogged-process_key_event slaves e m' (Reach-IsLogged to_lower m' r)
Reach-IsLogged to_lower m (expires {m = m'} t r) =
    IsLogged-timer_event to_lower m' (Reach-IsLogged to_lower m' r)
