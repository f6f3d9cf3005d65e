-- ===== src/KeysManager/Keys/Commits.antt =====
-- What the timer commits, and what becomes of a symbol that waits.
use testings.Prelude.{
  ℕ, ◌%◌, ◌≤◌, ◌≡◌, ◌≢◌, refl, sym, ap, subst, Bool, true, false, some, List, ◌∷◌, length, get_or,
  leb, if◌then◌else◌, arith,
}
use testings.KeysManager.State.{Widget, KeysManager}
use testings.KeysManager.Symbols.{key_9, key_max, key_unknown, symbols}
use testings.KeysManager.Keys.{release_from, commit_symbol, timer_event}
use testings.KeysManager.Keys.Release.{committed, release_from-SameInput}
use testings.KeysManager.Keys.Taps.{
  Tapping, Tapping-SameInput, Tapping-quiet, tap, presses, tap_first,
}

-- The symbol that the widget gets.
abbrev pub typed : (ℕ → ℕ) → ℕ → ℕ → Bool → ℕ
typed to_lower key n shifted =
    let c = get_or (symbols key) (n % length (symbols key)) 0 in if shifted then c else to_lower c

-- What is committed and kept.
pub record Committed (w : Widget) (c : ℕ) (text : List (Widget × ℕ)) (m : KeysManager)
    : Type 0 where
  pub editor : m.editor ≡ some w
  pub nothing_waits : m.current_alpha_key ≡ key_unknown
  pub text_grown : committed m.effects ≡ (w, c) ∷ text

commit-typed :
    (to_lower : ℕ → ℕ) (w : Widget) (key n : ℕ) (shifted : Bool) (text : List (Widget × ℕ))
    (m : KeysManager)
    → key ≤ key_9
    → Tapping w key n shifted text m
    → Committed w (typed to_lower key n shifted) text (record (commit_symbol (some w) to_lower m) {
      current_alpha_key = key_unknown;
      current_sym = 0;
    })
unfolding commit_symbol
commit-typed to_lower w key n shifted text m h t =
    let digit : leb m.current_alpha_key key_9 ≡ true = ground (arith, t.current_alpha_key) in
    rw (digit, t.current_alpha_key, t.current_sym, t.fl_shift)
      (record {
        editor = t.editor;
        nothing_waits = refl;
        text_grown = ap ((w, typed to_lower key n shifted) ∷◌) t.text_kept;
      })

pub timer-Committed :
    (to_lower : ℕ → ℕ) (w : Widget) (key n : ℕ) (shifted : Bool) (text : List (Widget × ℕ))
    (m : KeysManager)
    → key ≤ key_9
    → Tapping w key n shifted text m
    → Committed w (typed to_lower key n shifted) text (timer_event to_lower m)
unfolding timer_event
timer-Committed to_lower w key n shifted text m h t =
    let quiet = record m { timer = false } in
    let released = release_from key_max 0 quiet in
    let kept = release_from-SameInput key_max 0 quiet in
    let there : Tapping w key n shifted text released =
      Tapping-SameInput w key n shifted text quiet released kept
        (Tapping-quiet w key n shifted text m t) in
    let done = commit-typed to_lower w key n shifted text released h there in
    subst
      (λ ed.
        Committed w (typed to_lower key n shifted) text
          (record (commit_symbol ed to_lower released) {
            current_alpha_key = key_unknown;
            current_sym = 0;
          }))
      (sym there.editor) done

-- A digit key is pressed and released any number of times, each time with auto-repeat or without, the
-- first event being a press, while a widget `w` that takes more than digits is edited and the symbol
-- that waits, if any, is of another key. When the timer then expires, `w` gets one symbol, the one that
-- the number of the presses selects cyclically among those of the key, in lower case unless the shift is
-- on; so the symbol of the other key is lost. `w` is still edited and nothing waits.
pub multi_tap :
    (slaves : ℕ → Bool) (to_lower : ℕ → ℕ) (key : ℕ) (w : Widget) (r : Bool)
    (es : List (Bool × Bool)) (m : KeysManager)
    → key ≤ key_9
    → m.editor ≡ some w
    → m.fl_digits ≡ false
    → m.current_alpha_key ≢ key
    → Committed w
        (typed to_lower key (presses es) m.fl_shift)
        (committed m.effects)
        (timer_event to_lower (tap slaves key ((true, r) ∷ es) m))
multi_tap slaves to_lower key w r es m h e d n =
    timer-Committed to_lower w key (presses es) m.fl_shift (committed m.effects)
      (tap slaves key ((true, r) ∷ es) m) h (tap_first slaves key h w r es m e d n)
