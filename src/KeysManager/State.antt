-- ===== src/KeysManager/State.antt =====
-- The state of a KeysManager, and what it does to the widgets and to its listeners.
use testings.Prelude.{ℕ, Bool, Option, List, ◌∷◌, if◌then◌else◌}

-- A widget: whether it is a QAbstractSpinBox, and its property "digits".
pub record Widget : Type 0 where
  pub name : ℕ
  pub spin_box : Bool
  pub digits : Bool

pub data Button : Type 0 where
  ok cancel shift up down : Button

-- The signals, the text that is committed to a widget, and the calls of the widgets.
pub data Effect : Type 0 where
  commits : Widget → ℕ → Effect
  on_key on_release clicks : ℕ → Effect
  on_start_edit on_edit_ok on_edit_cancel : Widget → Effect
  on_edit_done : Widget → Bool → Effect
  on_shift : Bool → Effect
  steps_up steps_down : Widget → Effect
  set_read_only : Widget → Bool → Effect
  set_visible : Button → Bool → Effect

-- `edit_buttons` says which of them are not null, `timer` whether `timerId` is a timer that runs;
-- the effects are listed from the last to the first.
pub record KeysManager : Type 0 where
  pub keys_pressed : ℕ → Bool
  pub editor : Option Widget
  pub fl_shift : Bool
  pub current_alpha_key : ℕ
  pub num_alpha_syms : ℕ
  pub current_sym : ℕ
  pub timer : Bool
  pub fl_digits : Bool
  pub edit_buttons : Button → Bool
  pub effects : List Effect

abbrev pub emit : Effect → KeysManager → KeysManager
emit e m = record m { effects = e ∷ m.effects }

-- `if (button) button->setVisible(v)`
unfoldable pub show_button : Button → Bool → KeysManager → KeysManager
show_button b v m = if m.edit_buttons b then emit (set_visible b v) m else m
