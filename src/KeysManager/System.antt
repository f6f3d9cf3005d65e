-- ===== src/KeysManager/System.antt =====
-- The life of a KeysManager: its slots, the key events and the timer. A call from a listener of a
-- signal is a step of its own, after the step that emits the signal.
pub mod Waiting
pub mod Log
use testings.Prelude.{ℕ, Bool, true, false, Option, none, [], ◌≡◌}
use testings.KeysManager.Symbols.{key_unknown}
use testings.KeysManager.State.{Widget, Button, KeysManager}
use testings.KeysManager.Edit.{set_shift, do_toggle_shift, start_edit, stop_edit, set_edit_buttons}
use testings.KeysManager.Keys.{KeyEvent, process_key_event, timer_event}

-- The constructor.
abbrev pub new_manager : KeysManager
new_manager = record {
  keys_pressed = λ key. false;
  editor = none;
  fl_shift = false;
  current_alpha_key = key_unknown;
  num_alpha_syms = 0;
  current_sym = 0;
  timer = false;
  fl_digits = false;
  edit_buttons = λ b. false;
  effects = [];
}

-- What can become of it; `to_lower` is that of QString.
pub data Reach (to_lower : ℕ → ℕ) : KeysManager → Type 0 where
  new : Reach to_lower new_manager
  buttons_set :
      (given : Button → Bool) {m : KeysManager}
      → Reach to_lower m
      → Reach to_lower (set_edit_buttons given m)
  starts :
      (w focus : Option Widget) {m : KeysManager}
      → Reach to_lower m
      → Reach to_lower (start_edit w focus m)
  stops : (fine : Bool) {m : KeysManager} → Reach to_lower m → Reach to_lower (stop_edit fine m)
  shifts : (fl : Bool) {m : KeysManager} → Reach to_lower m → Reach to_lower (set_shift fl m)
  toggles : {m : KeysManager} → Reach to_lower m → Reach to_lower (do_toggle_shift m)
  receives :
      (slaves : ℕ → Bool) (e : KeyEvent) {m : KeysManager}
      → Reach to_lower m
      → Reach to_lower (process_key_event slaves e m)
  expires :
      {m : KeysManager}
      → m.timer ≡ true
      → Reach to_lower m
      → Reach to_lower (timer_event to_lower m)
