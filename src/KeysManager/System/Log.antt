-- ===== src/KeysManager/System/Log.antt =====
-- What the log of a KeysManager says, and what startEdit, stopEdit and setEditButtons write in it.
pub mod Keys
use testings.Prelude.{
  ℕ, zero, suc, ◌+◌, ◌≤◌, ◌<◌, ◌≡◌, ◌⊎◌, refl, sym, ap, subst, ◌∙◌, Bool, true, false, not, ◌&&◌,
  Option, none, some, List, [], ◌∷◌, assign, ltb, leb, ◌==◌, if◌then◌else◌, Bool-cases, if_both,
  inl, inr, arith,
}
use testings.KeysManager.State.{
  Widget, Button, ok, cancel, shift, up, down, Effect, commits, on_key, on_release, clicks,
  on_start_edit, on_edit_ok, on_edit_cancel, on_edit_done, on_shift, steps_up, steps_down,
  set_read_only, set_visible, KeysManager, emit, show_button,
}
use testings.KeysManager.Symbols.{
  key_9, key_ok, key_k1, key_k2, key_k3, key_k4, key_k5, key_unknown, key_max,
}
use testings.KeysManager.Edit.{
  set_shift, do_toggle_shift, start_widget, start_editor, start_edit, hide_steps, stop_widget,
  stop_editor, stop_edit, set_edit_buttons,
}
use testings.KeysManager.Keys.{
  process_alpha_key, process_edit_key, dispatch_key, process_plain_key, process_key_press,
  is_edited, process_key_release, process_key_event, release_from, current_symbol, commit_symbol,
  timer_event, KeyEvent,
}
use testings.KeysManager.Keys.Waits.{
  editing, editing-show_button, editing-start_widget, editor-stop_edit,
}
use testings.KeysManager.System.{
  Reach, new, buttons_set, starts, stops, shifts, toggles, receives, expires,
}

-- The widget whose edit has been announced and not yet ended.
abbrev pub session : List Effect → Option Widget
session [] = none
session (on_start_edit w ∷ es) = some w
session (on_edit_done w fine ∷ es) = none
session (e ∷ es) = session es

-- An effect that is in place after the effects `es`: text, steps and the end of an edit go to the widget
-- of the session, an edit starts when none is under way, and the keys of the editor are not announced
-- during an edit.
abbrev pub InPlace : Effect → List Effect → Type 0
InPlace (commits w c) es = session es ≡ some w
InPlace (on_key key) es = (session es ≡ none) ⊎ (key_k5 < key)
InPlace (clicks key) es = (session es ≡ none) ⊎ (key_k5 < key)
InPlace (on_release key) es = (session es ≡ none) ⊎ (key_k1 ≤ key)
InPlace (on_start_edit w) es = session es ≡ none
InPlace (on_edit_ok w) es = session es ≡ some w
InPlace (on_edit_cancel w) es = session es ≡ some w
InPlace (on_edit_done w fine) es = session es ≡ some w
InPlace (steps_up w) es = session es ≡ some w
InPlace (steps_down w) es = session es ≡ some w
InPlace (on_shift fl) es = Unit
InPlace (set_read_only w fl) es = Unit
InPlace (set_visible b v) es = Unit

abbrev pub AllInPlace : List Effect → Type 0
AllInPlace [] = Unit
AllInPlace (e ∷ es) = InPlace e es × AllInPlace es

-- The log is in place, and its session is `ed`.
pub record Logged (ed : Option Widget) (es : List Effect) : Type 0 where
  pub session_is : session es ≡ ed
  pub in_place : AllInPlace es

show_button-Logged :
    (b : Button) (v : Bool) (ed : Option Widget) (m : KeysManager)
    → Logged ed m.effects
    → Logged ed (show_button b v m).effects
unfolding show_button
show_button-Logged b v ed m l = elim (Bool-cases (m.edit_buttons b)) [
  | inl e ↦ rw (e, show_button) (record { session_is = l.session_is; in_place = (tt, l.in_place) })
  | inr e ↦ rw (e, show_button) l
]

start_widget-Logged :
    (w : Widget) (m : KeysManager)
    → Logged none m.effects
    → Logged (some w) (start_widget w m).effects
unfolding start_widget
start_widget-Logged w m l =
    let first = show_button ok true m in
    let buttons = show_button cancel true first in
    let open_editor = record (set_shift false (emit (set_read_only w false) buttons)) {
      fl_digits = w.digits;
      editor = some w;
    } in
    let shift_shown = show_button shift (not w.digits) open_editor in
    let up_shown = show_button up w.spin_box shift_shown in
    let before = show_button-Logged cancel true none first (show_button-Logged ok true none m l) in
    let opened : Logged none open_editor.effects = record {
      session_is = before.session_is;
      in_place = (tt, (tt, before.in_place));
    } in
    let shown = show_button-Logged down w.spin_box none up_shown (
      show_button-Logged up w.spin_box none shift_shown
        (show_button-Logged shift (not w.digits) none open_editor opened)) in
    record { session_is = refl; in_place = (shown.session_is, shown.in_place) }

hide_steps-Logged :
    (w : Widget) (ed : Option Widget) (m : KeysManager)
    → Logged ed m.effects
    → Logged ed (hide_steps w m).effects
hide_steps-Logged w ed m l = elim (Bool-cases w.spin_box) [
  | inl e ↦ rw e (
      show_button-Logged down false ed (show_button up false m)
        (show_button-Logged up false ed m l))
  | inr e ↦ rw e l
]

stop_widget-Logged :
    (w : Widget) (fine : Bool) (m : KeysManager)
    → Logged (some w) m.effects
    → Logged none (stop_widget w fine m).effects
unfolding stop_widget
stop_widget-Logged w true m l =
    let h = hide_steps-Logged w (some w) m l in
    record { session_is = refl; in_place = (tt, (h.session_is, (h.session_is, h.in_place))) }
stop_widget-Logged w false m l =
    let h = hide_steps-Logged w (some w) m l in
    record { session_is = refl; in_place = (tt, (h.session_is, (h.session_is, h.in_place))) }

-- The buttons that startEdit, stopEdit and setEditButtons hide.
hide_first-Logged :
    (ed : Option Widget) (m : KeysManager)
    → Logged ed m.effects
    → Logged ed
        (show_button shift false (show_button cancel false (show_button ok false m))).effects
hide_first-Logged ed m l =
    let one = show_button ok false m in
    show_button-Logged shift false ed (show_button cancel false one)
      (show_button-Logged cancel false ed one (show_button-Logged ok false ed m l))

-- The log is in place, and its session is the editor.
abbrev pub IsLogged : KeysManager → Type 0
IsLogged m = Logged m.editor m.effects

IsLogged-start_widget :
    (w : Widget) (m : KeysManager) → Logged none m.effects → IsLogged (start_widget w m)
IsLogged-start_widget w m l =
    rw (ap (λ p. p.0) (editing-start_widget w m)) (start_widget-Logged w m l)

IsLogged-start_editor :
    (ed w focus : Option Widget) (m : KeysManager)
    → m.editor ≡ ed
    → IsLogged m
    → IsLogged (start_editor ed w focus m)
IsLogged-start_editor (some x) w focus m e l = l
IsLogged-start_editor none (some w) focus m e l =
    IsLogged-start_widget w m (subst (λ ed. Logged ed m.effects) e l)
IsLogged-start_editor none none none m e l = l
IsLogged-start_editor none none (some w) m e l =
    IsLogged-start_widget w m (subst (λ ed. Logged ed m.effects) e l)

pub IsLogged-start_edit :
    (w focus : Option Widget) (m : KeysManager) → IsLogged m → IsLogged (start_edit w focus m)
unfolding start_edit
IsLogged-start_edit w focus m l = IsLogged-start_editor m.editor w focus m refl l

stop_editor-Logged :
    (ed : Option Widget) (fine : Bool) (m : KeysManager)
    → Logged ed m.effects
    → Logged none (stop_editor ed fine m).effects
stop_editor-Logged none fine m l = l
stop_editor-Logged (some w) fine m l = stop_widget-Logged w fine m l

pub IsLogged-stop_edit : (fine : Bool) (m : KeysManager) → IsLogged m → IsLogged (stop_edit fine m)
unfolding stop_edit
IsLogged-stop_edit fine m l =
    let m' = set_shift false m in
    let l' : Logged m.editor m'.effects = record {
      session_is = l.session_is;
      in_place = (tt, l.in_place);
    } in
    let three = show_button shift false (show_button cancel false (show_button ok false m')) in
    rw (editor-stop_edit fine m)
      (stop_editor-Logged m.editor fine three (hide_first-Logged m.editor m' l'))

editing-hide_first :
    (m : KeysManager)
    → editing (show_button shift false (show_button cancel false (show_button ok false m)))
      ≡ editing m
editing-hide_first m =
    let one = show_button ok false m in
    editing-show_button shift false (show_button cancel false one)
    ∙ editing-show_button cancel false one
    ∙ editing-show_button ok false m

pub IsLogged-set_edit_buttons :
    (given : Button → Bool) (m : KeysManager) → IsLogged m → IsLogged (set_edit_buttons given m)
unfolding set_edit_buttons
IsLogged-set_edit_buttons given m l =
    let set = record m { edit_buttons = given } in
    let first = show_button shift false (show_button cancel false (show_button ok false set)) in
    let kept =
      editing-show_button down false (show_button up false first)
      ∙ editing-show_button up false first
      ∙ editing-hide_first set in
    rw (ap (λ p. p.0) kept) (
      show_button-Logged down false m.editor (show_button up false first)
        (show_button-Logged up false m.editor first (hide_first-Logged m.editor set l)))
