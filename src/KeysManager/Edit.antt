-- ===== src/KeysManager/Edit.antt =====
-- setShift, doToggleShift, startEdit, stopEdit and setEditButtons. The connections of the buttons up and down to a
-- spin box, and the text of the label, are left out.
use testings.Prelude.{Bool, true, false, not, Option, none, some, if◌then◌else◌}
use testings.KeysManager.State.{
  Widget, Button, ok, cancel, shift, up, down, on_start_edit, on_edit_ok, on_edit_cancel,
  on_edit_done, on_shift, set_read_only, KeysManager, emit, show_button,
}

abbrev pub set_shift : Bool → KeysManager → KeysManager
set_shift fl m = emit (on_shift fl) (record m { fl_shift = fl })

abbrev pub do_toggle_shift : KeysManager → KeysManager
do_toggle_shift m = set_shift (not m.fl_shift) m

-- startEdit with a widget, while nothing is edited
unfoldable pub start_widget : Widget → KeysManager → KeysManager
start_widget w m =
    let buttons = show_button cancel true (show_button ok true m) in
    let open_editor = set_shift false (emit (set_read_only w false) buttons) in
    let edited = record open_editor { fl_digits = w.digits; editor = some w } in
    let shift_shown = show_button shift (not w.digits) edited in
    emit (on_start_edit w) (show_button down w.spin_box (show_button up w.spin_box shift_shown))

-- startEdit, from the test of the editor on; `focus` is QApplication::focusWidget.
abbrev pub start_editor : Option Widget → Option Widget → Option Widget → KeysManager → KeysManager
start_editor (some e) w focus m = m
start_editor none (some w) focus m = start_widget w m
start_editor none none none m = m
start_editor none none (some w) m = start_widget w m

unfoldable pub start_edit : Option Widget → Option Widget → KeysManager → KeysManager
unfolding start_widget
start_edit w focus m = start_editor m.editor w focus m

abbrev pub hide_steps : Widget → KeysManager → KeysManager
hide_steps w m = if w.spin_box then show_button down false (show_button up false m) else m

-- stopEdit of a widget, the edit buttons being hidden
unfoldable pub stop_widget : Widget → Bool → KeysManager → KeysManager
stop_widget w fine m =
    let hidden = hide_steps w m in
    let told = emit (if fine then on_edit_ok w else on_edit_cancel w) hidden in
    record (emit (set_read_only w true) (emit (on_edit_done w fine) told)) { editor = none }

abbrev pub stop_editor : Option Widget → Bool → KeysManager → KeysManager
stop_editor none fine m = m
stop_editor (some w) fine m = stop_widget w fine m

unfoldable pub stop_edit : Bool → KeysManager → KeysManager
unfolding stop_widget
stop_edit fine m =
    stop_editor m.editor fine (
      show_button shift false (show_button cancel false (show_button ok false (set_shift false m))))

-- setEditButtons, which hides the buttons that it is given.
unfoldable pub set_edit_buttons : (Button → Bool) → KeysManager → KeysManager
set_edit_buttons given m =
    let set = record m { edit_buttons = given } in
    let first = show_button shift false (show_button cancel false (show_button ok false set)) in
    show_button down false (show_button up false first)
