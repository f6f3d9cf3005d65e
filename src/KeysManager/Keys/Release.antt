-- ===== src/KeysManager/Keys/Release.antt =====
-- What the releases of timerEvent leave: no key is pressed, and what is typed stays as it was.
use testings.Prelude.{
  ℕ, zero, suc, ◌+◌, ◌≡◌, refl, ◌∙◌, Bool, false, List, [], ◌∷◌, if◌then◌else◌, Bool-cases, inl,
  inr, arith,
}
use testings.KeysManager.State.{Widget, Effect, commits, KeysManager}
use testings.KeysManager.Keys.{process_key_release, release_from}

-- The text that is committed, the last first.
abbrev pub committed : List Effect → List (Widget × ℕ)
committed [] = []
committed (commits w c ∷ es) = (w, c) ∷ committed es
committed (e ∷ es) = committed es

-- Nothing of the input has changed.
pub record SameInput (m m' : KeysManager) : Type 0 where
  pub editor : m'.editor ≡ m.editor
  pub fl_shift : m'.fl_shift ≡ m.fl_shift
  pub current_alpha_key : m'.current_alpha_key ≡ m.current_alpha_key
  pub num_alpha_syms : m'.num_alpha_syms ≡ m.num_alpha_syms
  pub current_sym : m'.current_sym ≡ m.current_sym
  pub fl_digits : m'.fl_digits ≡ m.fl_digits
  pub text : committed m'.effects ≡ committed m.effects

input_refl : (m : KeysManager) → SameInput m m
input_refl m = record {
  editor = refl;
  fl_shift = refl;
  current_alpha_key = refl;
  num_alpha_syms = refl;
  current_sym = refl;
  fl_digits = refl;
  text = refl;
}

pub SameInput-trans : {m m' m'' : KeysManager} → SameInput m m' → SameInput m' m'' → SameInput m m''
SameInput-trans s t = record {
  editor = t.editor ∙ s.editor;
  fl_shift = t.fl_shift ∙ s.fl_shift;
  current_alpha_key = t.current_alpha_key ∙ s.current_alpha_key;
  num_alpha_syms = t.num_alpha_syms ∙ s.num_alpha_syms;
  current_sym = t.current_sym ∙ s.current_sym;
  fl_digits = t.fl_digits ∙ s.fl_digits;
  text = t.text ∙ s.text;
}

pub process_key_release-SameInput :
    (key : ℕ) (auto_repeat : Bool) (m : KeysManager)
    → SameInput m (process_key_release key auto_repeat m)
unfolding process_key_release
process_key_release-SameInput key auto_repeat m = ground arith

abbrev pub released_if : ℕ → KeysManager → KeysManager
released_if key m = if m.keys_pressed key then process_key_release key false m else m

released_if-SameInput : (key : ℕ) (m : KeysManager) → SameInput m (released_if key m)
released_if-SameInput key m = elim (Bool-cases (m.keys_pressed key)) [
  | inl e ↦ rw e (process_key_release-SameInput key false m)
  | inr e ↦ rw e (input_refl m)
]

pub release_from-SameInput : (n key : ℕ) (m : KeysManager) → SameInput m (release_from n key m)
unfolding release_from
release_from-SameInput zero key m = input_refl m
release_from-SameInput (suc n) key m =
    SameInput-trans (released_if-SameInput key m)
      (release_from-SameInput n (key + 1) (released_if key m))
