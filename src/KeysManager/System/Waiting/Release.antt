-- ===== src/KeysManager/System/Waiting/Release.antt =====
-- What the releases and the timer keep of what holds between two events.
use testings.Prelude.{
  ℕ, zero, suc, ◌+◌, ◌≤◌, ◌<◌, ◌≡◌, ◌⊎◌, refl, sym, ap, subst, ◌∙◌, Bool, true, false, ◌&&◌, Option,
  none, some, assign, ltb, leb, if◌then◌else◌, Bool-cases, if_both, inl, inr, arith, ℕ_discrete,
}
use testings.KeysManager.State.{Widget, KeysManager}
use testings.KeysManager.Symbols.{key_9, key_k1, key_unknown, key_max}
use testings.KeysManager.Keys.{
  is_edited, process_key_release, process_key_event, release_from, commit_symbol, timer_event,
  KeyEvent,
}
use testings.KeysManager.System.{
  Reach, new, buttons_set, starts, stops, shifts, toggles, receives, expires,
}
use testings.KeysManager.System.Waiting.{
  IsReady, IsReady-start_edit, IsReady-stop_edit, IsReady-set_edit_buttons,
  IsReady-process_key_press,
}

keys_pressed-process_key_release :
    (key k : ℕ) (m : KeysManager)
    → (k ≡ key) ⊎ (m.keys_pressed k ≡ false)
    → (process_key_release key false m).keys_pressed k ≡ false
unfolding process_key_release
keys_pressed-process_key_release key k m h =
    let off : assign m.keys_pressed key false k ≡ false = ground arith in
    if_both (λ (m' : KeysManager). m'.keys_pressed k ≡ false) (is_edited m && ltb key key_k1) off
      off

-- What the first pass of the loop leaves to the others.
rest_pressed :
    (n key k : ℕ) (m : KeysManager)
    → ((key ≤ k) × (k < key + suc n)) ⊎ (m.keys_pressed k ≡ false)
    → ((key + 1 ≤ k) × (k < key + 1 + n))
      ⊎ ((if m.keys_pressed key then process_key_release key false m else m).keys_pressed k ≡ false)
rest_pressed n key k m h = elim (ℕ_discrete k key) [
  | yes e ↦ inr (elim (Bool-cases (m.keys_pressed key)) [
    | inl p ↦ rw p (keys_pressed-process_key_release key k m (inl e))
    | inr p ↦ rw p (subst (λ i. m.keys_pressed i ≡ false) (sym e) p)
  ])
  | no n ↦ elim h [
    | inl (a, b) ↦ inl (omega arith, omega arith)
    | inr e ↦ inr (
        if_both (λ (m' : KeysManager). m'.keys_pressed k ≡ false) (m.keys_pressed key)
          (keys_pressed-process_key_release key k m (inr e)) e)
  ]
]

keys_pressed-release_from :
    (n key k : ℕ) (m : KeysManager)
    → ((key ≤ k) × (k < key + n)) ⊎ (m.keys_pressed k ≡ false)
    → (release_from n key m).keys_pressed k ≡ false
unfolding release_from
keys_pressed-release_from zero key k m (inl (a, b)) = absurd (omega arith)
keys_pressed-release_from zero key k m (inr e) = e
keys_pressed-release_from (suc n) key k m h =
    let released = if m.keys_pressed key then process_key_release key false m else m in
    keys_pressed-release_from n (key + 1) k released (rest_pressed n key k m h)

-- No key is pressed after the loop of timerEvent.
none_pressed :
    (m : KeysManager)
    → ((k : ℕ) → key_unknown ≤ k → m.keys_pressed k ≡ false)
    → (k : ℕ) → (release_from key_max 0 m).keys_pressed k ≡ false
none_pressed m h k = elim (Bool-cases (ltb k key_max)) [
  | inl small ↦ keys_pressed-release_from key_max 0 k m (inl (ground arith, ground arith))
  | inr big ↦ keys_pressed-release_from key_max 0 k m (inr (h k (ground arith)))
]

keys_pressed-commit_symbol :
    (ed : Option Widget) (to_lower : ℕ → ℕ) (m : KeysManager)
    → (commit_symbol ed to_lower m).keys_pressed ≡ m.keys_pressed
unfolding commit_symbol
keys_pressed-commit_symbol none to_lower m = refl
keys_pressed-commit_symbol (some w) to_lower m =
    if_both (λ (m' : KeysManager). m'.keys_pressed ≡ m.keys_pressed) (leb m.current_alpha_key key_9)
      refl refl

IsReady-timer_event :
    (to_lower : ℕ → ℕ) (m : KeysManager) → IsReady m → IsReady (timer_event to_lower m)
unfolding timer_event
IsReady-timer_event to_lower m r =
    let quiet = record m { timer = false } in
    let released = release_from key_max 0 quiet in
    let off : (k : ℕ) → (commit_symbol released.editor to_lower released).keys_pressed k ≡ false =
      λ k.
        ap (λ f. f k) (keys_pressed-commit_symbol released.editor to_lower released)
        ∙ none_pressed quiet r.phone_keys k in
    record { symbol_of_key = inl refl; timer_runs = inr (refl, off); phone_keys = λ k big. off k }

IsReady-process_key_release :
    (key : ℕ) (auto_repeat : Bool) (m : KeysManager)
    → IsReady m
    → IsReady (process_key_release key auto_repeat m)
unfolding process_key_release
IsReady-process_key_release key true m r = r
IsReady-process_key_release key false m r =
    let off : (k : ℕ) → m.keys_pressed k ≡ false → assign m.keys_pressed key false k ≡ false =
      λ k e. ground arith in
    let released : IsReady (record m { keys_pressed = assign m.keys_pressed key false }) = record {
      symbol_of_key = r.symbol_of_key;
      timer_runs = elim r.timer_runs [
        | inl t ↦ inl t
        | inr (u, quiet) ↦ inr (u, λ k. off k (quiet k))
      ];
      phone_keys = λ k big. off k (r.phone_keys k big);
    } in
    if_both IsReady (is_edited m && ltb key key_k1) released released

IsReady-process_key_event :
    (slaves : ℕ → Bool) (e : KeyEvent) (m : KeysManager)
    → IsReady m
    → IsReady (process_key_event slaves e m)
unfolding process_key_event
IsReady-process_key_event slaves e m r = elim (Bool-cases (ltb e.key key_unknown)) [
  | inl k ↦
      rw (k, process_key_event)
        (if_both IsReady e.press
          (IsReady-process_key_press slaves e.key e.auto_repeat m (ground arith) r)
          (IsReady-process_key_release e.key e.auto_repeat m r))
  | inr k ↦ rw (k, process_key_event) r
]

-- In what a KeysManager does from its creation on, the symbol that waits is always one of the symbols of
-- its key, so that the assertion of timerEvent holds; the timer runs whenever a symbol waits or a key is
-- marked as pressed; and only the keys of the phone are marked.
pub Reach-IsReady : (to_lower : ℕ → ℕ) (m : KeysManager) → Reach to_lower m → IsReady m
Reach-IsReady to_lower m new = record {
  symbol_of_key = inl refl;
  timer_runs = inr (refl, λ k. refl);
  phone_keys = λ k big. refl;
}
Reach-IsReady to_lower m (buttons_set given {m = m'} r) =
    IsReady-set_edit_buttons given m' (Reach-IsReady to_lower m' r)
Reach-IsReady to_lower m (starts w focus {m = m'} r) =
    IsReady-start_edit w focus m' (Reach-IsReady to_lower m' r)
Reach-IsReady to_lower m (stops fine {m = m'} r) =
    IsReady-stop_edit fine m' (Reach-IsReady to_lower m' r)
Reach-IsReady to_lower m (shifts fl {m = m'} r) = Reach-IsReady to_lower m' r
Reach-IsReady to_lower m (toggles {m = m'} r) = Reach-IsReady to_lower m' r
Reach-IsReady to_lower m (receives slaves e {m = m'} r) =
    IsReady-process_key_event slaves e m' (Reach-IsReady to_lower m' r)
Reach-IsReady to_lower m (expires {m = m'} t r) =
    IsReady-timer_event to_lower m' (Reach-IsReady to_lower m' r)
