-- ===== src/KeysManager/Keys/Waits.antt =====
-- What startEdit and stopEdit leave of a symbol that waits for the timer.
use testings.Prelude.{
  ℕ, ◌≡◌, refl, sym, ap, subst, ◌∙◌, Bool, true, false, not, Option, none, some, List, arith, ◌≤◌,
}
use testings.KeysManager.State.{
  Widget, Button, ok, cancel, shift, up, down, set_read_only, KeysManager, emit, show_button,
}
use testings.KeysManager.Symbols.{key_9}
use testings.KeysManager.Edit.{
  set_shift, start_widget, start_edit, start_editor, stop_editor, stop_widget, stop_edit,
}
use testings.KeysManager.Keys.{timer_event}
use testings.KeysManager.Keys.Release.{committed}
use testings.KeysManager.Keys.Taps.{Tapping}
use testings.KeysManager.Keys.Commits.{Committed, typed, timer-Committed}

-- The symbol that waits, the text, the timer and the keys that are pressed.
abbrev pub waiting : KeysManager → ℕ × ℕ × ℕ × List (Widget × ℕ) × Bool × (ℕ → Bool)
waiting m = (
  m.current_alpha_key,
  m.num_alpha_syms,
  m.current_sym,
  committed m.effects,
  m.timer,
  m.keys_pressed,
)

pub waiting-show_button :
    (b : Button) (v : Bool) (m : KeysManager) → waiting (show_button b v m) ≡ waiting m
unfolding show_button
waiting-show_button b v m = ground arith

pub waiting-start_widget : (w : Widget) (m : KeysManager) → waiting (start_widget w m) ≡ waiting m
unfolding start_widget
waiting-start_widget w m =
    let buttons = show_button cancel true (show_button ok true m) in
    let open_editor = record (set_shift false (emit (set_read_only w false) buttons)) {
      fl_digits = w.digits;
      editor = some w;
    } in
    let shift_shown = show_button shift (not w.digits) open_editor in
    waiting-show_button down w.spin_box (show_button up w.spin_box shift_shown)
    ∙ waiting-show_button up w.spin_box shift_shown
    ∙ waiting-show_button shift (not w.digits) open_editor
    ∙ waiting-show_button cancel true (show_button ok true m)
    ∙ waiting-show_button ok true m

waiting-stop_widget :
    (w : Widget) (fine : Bool) (m : KeysManager) → waiting (stop_widget w fine m) ≡ waiting m
unfolding stop_widget
waiting-stop_widget w fine m =
    ground (
      arith,
      waiting-show_button up false m,
      waiting-show_button down false (show_button up false m),
    )

-- What is edited.
abbrev pub editing : KeysManager → Option Widget × Bool × Bool
editing m = (m.editor, m.fl_digits, m.fl_shift)

pub editing-show_button :
    (b : Button) (v : Bool) (m : KeysManager) → editing (show_button b v m) ≡ editing m
unfolding show_button
editing-show_button b v m = ground arith

pub editing-start_widget :
    (w : Widget) (m : KeysManager) → editing (start_widget w m) ≡ (some w, w.digits, false)
unfolding start_widget
editing-start_widget w m =
    let buttons = show_button cancel true (show_button ok true m) in
    let open_editor = record (set_shift false (emit (set_read_only w false) buttons)) {
      fl_digits = w.digits;
      editor = some w;
    } in
    let shift_shown = show_button shift (not w.digits) open_editor in
    editing-show_button down w.spin_box (show_button up w.spin_box shift_shown)
    ∙ editing-show_button up w.spin_box shift_shown
    ∙ editing-show_button shift (not w.digits) open_editor

-- stopEdit of the editor `ed`, after the buttons are hidden
pub waiting-stop_edit : (fine : Bool) (m : KeysManager) → waiting (stop_edit fine m) ≡ waiting m
unfolding stop_edit
waiting-stop_edit fine m =
    let one = show_button ok false (set_shift false m) in
    let two = show_button cancel false one in
    let three = show_button shift false two in
    let hidden : waiting three ≡ waiting m =
      waiting-show_button shift false two
      ∙ waiting-show_button cancel false one
      ∙ waiting-show_button ok false (set_shift false m) in
    elim m.editor as (λ ed. waiting (stop_editor ed fine three) ≡ waiting m) [
      | none ↦ hidden
      | some w ↦ waiting-stop_widget w fine three ∙ hidden
    ]

pub editor-stop_edit : (fine : Bool) (m : KeysManager) → (stop_edit fine m).editor ≡ none
unfolding stop_edit stop_widget
editor-stop_edit fine m =
    let one = show_button ok false (set_shift false m) in
    let two = show_button cancel false one in
    let three = show_button shift false two in
    let hidden : three.editor ≡ m.editor =
      ap (λ p. p.0)
        (editing-show_button shift false two
          ∙ editing-show_button cancel false one
          ∙ editing-show_button ok false (set_shift false m)) in
    let chosen =
      elim m.editor as (λ ed. three.editor ≡ ed → (stop_editor ed fine three).editor ≡ none) [
        | none ↦ λ h. h
        | some w ↦ λ h. refl
      ] in
    chosen hidden

start_edit-none :
    (v : Widget) (focus : Option Widget) (m : KeysManager)
    → m.editor ≡ none
    → start_edit (some v) focus m ≡ start_widget v m
unfolding start_edit
start_edit-none v focus m e = ap (λ ed. start_editor ed (some v) focus m) e

-- A symbol waits in a widget, its edit is stopped and another widget that takes more than digits is
-- edited, before the timer expires. Then the timer commits the symbol to the other widget, in lower case
-- as the shift is reset.
pub pending_moves :
    (to_lower : ℕ → ℕ) (w v : Widget) (focus : Option Widget) (fine : Bool) (key n : ℕ)
    (shifted : Bool) (text : List (Widget × ℕ)) (m : KeysManager)
    → key ≤ key_9
    → v.digits ≡ false
    → Tapping w key n shifted text m
    → Committed v
        (typed to_lower key n false)
        text
        (timer_event to_lower (start_edit (some v) focus (stop_edit fine m)))
pending_moves to_lower w v focus fine key n shifted text m h d t =
    let stopped = stop_edit fine m in
    let kept : waiting (start_widget v stopped) ≡ waiting m =
      waiting-start_widget v stopped ∙ waiting-stop_edit fine m in
    let edited = editing-start_widget v stopped in
    let there : Tapping v key n false text (start_widget v stopped) = record {
      editor = ap (λ p. p.0) edited;
      fl_digits = ap (λ p. p.1) edited ∙ d;
      fl_shift = ap (λ p. p.2) edited;
      current_alpha_key = ap (λ p. p.0) kept ∙ t.current_alpha_key;
      num_alpha_syms = ap (λ p. p.1) kept ∙ t.num_alpha_syms;
      current_sym = ap (λ p. p.2) kept ∙ t.current_sym;
      text_kept = ap (λ p. p.3) kept ∙ t.text_kept;
    } in
    subst (λ s. Committed v (typed to_lower key n false) text (timer_event to_lower s))
      (sym (start_edit-none v focus stopped (editor-stop_edit fine m)))
      (timer-Committed to_lower v key n false text (start_widget v stopped) h there)
