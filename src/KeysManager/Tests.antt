-- ===== src/KeysManager/Tests.antt =====
-- Texts that are typed.
use testings.Prelude.{
  ℕ, Bool, true, false, none, some, List, [], ◌∷◌, ◌≡◌, ◌+◌, refl, ◌≢◌, arith, if◌then◌else◌, leb,
  ◌&&◌,
}
use testings.KeysManager.State.{show_button, Widget, KeysManager, on_release, on_key}
use testings.KeysManager.Symbols.{key_ptt, symbols}
use testings.KeysManager.Edit.{start_edit, stop_edit}
use testings.KeysManager.Keys.{KeyEvent, process_key_event, timer_event}
use testings.KeysManager.Keys.Release.{committed}
use testings.KeysManager.Keys.Taps.{tap, Tapping}
use testings.KeysManager.Keys.Commits.{Committed, typed, multi_tap}
use testings.KeysManager.Keys.Waits.{pending_moves}
use testings.KeysManager.System.{new_manager, Reach, new, starts, receives, expires}
use testings.KeysManager.System.Log.{IsLogged}
use testings.KeysManager.System.Log.Keys.{Reach-IsLogged}
use testings.KeysManager.System.Waiting.{IsReady}
use testings.KeysManager.System.Waiting.Release.{Reach-IsReady}

abbrev to_lower : ℕ → ℕ
to_lower c = if leb 0x410 c && leb c 0x42F then c + 32 else c

abbrev no_slaves : ℕ → Bool
no_slaves key = false

abbrev line : Widget
line = record { name = 1; spin_box = false; digits = false }

abbrev other_line : Widget
other_line = record { name = 2; spin_box = false; digits = false }

abbrev line_edited : KeysManager
line_edited = start_edit (some line) none new_manager

-- Key 2 is pressed, repeats itself and is pressed once more.
abbrev key_events : List (Bool × Bool)
key_events = (false, true) ∷ (true, true) ∷ (false, false) ∷ (true, false) ∷ (false, false) ∷ []

abbrev tapped : KeysManager
tapped = tap no_slaves 2 ((true, false) ∷ key_events) line_edited

typed_run : committed (timer_event to_lower tapped).effects ≡ (line, 0x431) ∷ []
unfolding timer_event tap start_edit show_button
typed_run = refl

tapped_editor : line_edited.editor ≡ some line
unfolding start_edit show_button
tapped_editor = refl

tapped_letters : line_edited.fl_digits ≡ false
unfolding start_edit show_button
tapped_letters = refl

nothing_waits : line_edited.current_alpha_key ≢ 2
unfolding start_edit show_button
nothing_waits e = absurd (omega arith)

multi_tap_example :
    Committed line
      (typed to_lower 2 2 line_edited.fl_shift)
      (committed line_edited.effects)
      (timer_event to_lower (tap no_slaves 2 ((true, false) ∷ key_events) line_edited))
multi_tap_example =
    multi_tap no_slaves to_lower 2 line false key_events line_edited (omega arith) tapped_editor
      tapped_letters nothing_waits

tapped-Tapping : Tapping line 2 2 false [] tapped
unfolding tap start_edit show_button symbols
tapped-Tapping = record {
  editor = refl;
  fl_digits = refl;
  fl_shift = refl;
  current_alpha_key = refl;
  num_alpha_syms = refl;
  current_sym = refl;
  text_kept = refl;
}

pending_moves_example :
    Committed other_line
      (typed to_lower 2 2 false)
      []
      (timer_event to_lower (start_edit (some other_line) none (stop_edit true tapped)))
pending_moves_example =
    pending_moves to_lower line other_line none true 2 2 false [] tapped (omega arith) refl
      tapped-Tapping

-- A life: an edit, key 2, the timer, and the key that ends the edit.
abbrev key_event : Bool → ℕ → KeyEvent
key_event press key = record { press = press; key = key; auto_repeat = false }

abbrev key_down : KeysManager
key_down = process_key_event no_slaves (key_event true 2) line_edited

key_down-Reach : Reach to_lower key_down
key_down-Reach = receives no_slaves (key_event true 2) (starts (some line) none new)

timer_on : key_down.timer ≡ true
unfolding process_key_event start_edit show_button
timer_on = refl

abbrev edit_ended : KeysManager
edit_ended = process_key_event no_slaves (key_event true 12) (timer_event to_lower key_down)

edit_ended-Reach : Reach to_lower edit_ended
edit_ended-Reach = receives no_slaves (key_event true 12) (expires timer_on key_down-Reach)

Reach-IsLogged_example : IsLogged edit_ended
Reach-IsLogged_example = Reach-IsLogged to_lower edit_ended edit_ended-Reach

Reach-IsReady_example : IsReady edit_ended
Reach-IsReady_example = Reach-IsReady to_lower edit_ended edit_ended-Reach

-- A PTT that is held is released by the timer, and once more when it is let go.
abbrev ptt_events : KeysManager
ptt_events =
    process_key_event no_slaves (key_event false key_ptt)
      (timer_event to_lower (process_key_event no_slaves (key_event true key_ptt) new_manager))

ptt_twice : ptt_events.effects ≡ on_release key_ptt ∷ on_release key_ptt ∷ on_key key_ptt ∷ []
unfolding process_key_event timer_event show_button
ptt_twice = refl
