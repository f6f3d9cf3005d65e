-- ===== src/UdpProxy/Arguments.antt =====
-- parse_hostport, the same in the three programs. Strings are lists of characters that are not 0.
use testings.Prelude.{
  ℕ, ◌≤◌, ◌<◌, ◌≡◌, ◌≢◌, ap, Bool, true, false, ◌&&◌, Option, none, some, List, [], ◌∷◌, ◌++◌,
  length, ltb, leb, ◌==◌, if◌then◌else◌, Bool-cases, inl, inr, arith,
}
use testings.Prelude.Int.{ℤ}

abbrev pub colon : ℕ
colon = 58

-- strchr: what is before the first colon, and what is behind it.
unfoldable pub split_colon : List ℕ → Option (List ℕ × List ℕ)
split_colon [] = none
split_colon (c ∷ s) =
    let rest = split_colon s in
    if c == colon
    then some ([], s)
    else elim rest [ none ↦ none | some (before, behind) ↦ some (c ∷ before, behind) ]

-- "127.0.0.1" and "0.0.0.0"
abbrev pub default_host : Bool → List ℕ
default_host true = 49 ∷ 50 ∷ 55 ∷ 46 ∷ 48 ∷ 46 ∷ 48 ∷ 46 ∷ 49 ∷ []
default_host false = 48 ∷ 46 ∷ 48 ∷ 46 ∷ 48 ∷ 46 ∷ 48 ∷ []

-- The size of the arrays that main gives for `host`.
abbrev pub host_size : ℕ
host_size = 64

-- What parse_hostport does: it sets the host, as a string, and the port; it writes behind the end of
-- the array; or it exits.
pub data Parsed : Type 0 where
  parsed : List ℕ → ℤ → Parsed
  overflows exits : Parsed

abbrev pub starts_with_digit : List ℕ → Bool
starts_with_digit [] = false
starts_with_digit (c ∷ s) = leb 48 c && leb c 57

-- `host[len] = '\0'` ends the string, the default too.
abbrev pub copy_host : List ℕ → ℤ → Parsed
copy_host before port = if ltb (length before) host_size then parsed before port else overflows

-- `atoi` is the C library's.
unfoldable pub parse_hostport : (List ℕ → ℤ) → List ℕ → Bool → Parsed
unfolding split_colon
parse_hostport atoi s is_remote = elim (split_colon s) [
  | some (before, behind) ↦ copy_host before (atoi behind)
  | none ↦ if starts_with_digit s then parsed (default_host is_remote) (atoi s) else exits
]

-- No character of the string is a colon.
abbrev pub NoColon : List ℕ → Type 0
NoColon [] = Unit
NoColon (c ∷ s) = (c ≢ colon) × NoColon s

abbrev Split : List ℕ → Option (List ℕ × List ℕ) → Type 0
Split s none = NoColon s
Split s (some (before, behind)) = (s ≡ before ++ colon ∷ behind) × NoColon before

abbrev after : ℕ → Option (List ℕ × List ℕ) → Option (List ℕ × List ℕ)
after c r = elim r [ none ↦ none | some (before, behind) ↦ some (c ∷ before, behind) ]

after-Split :
    (c : ℕ) (s : List ℕ) (r : Option (List ℕ × List ℕ))
    → c ≢ colon
    → Split s r
    → Split (c ∷ s) (after c r)
after-Split c s none n h = (n, h)
after-Split c s (some (before, behind)) n h = (ap (◌∷◌ c) h.0, (n, h.1))

split_colon-Split : (s : List ℕ) → Split s (split_colon s)
unfolding split_colon
split_colon-Split [] = tt
split_colon-Split (c ∷ s) = elim (Bool-cases (c == colon)) [
  | inl e ↦ let same : c ≡ colon = ground arith in rw e (ap (λ x. x ∷ s) same, tt)
  | inr e ↦
      let other : c ≢ colon = ground arith in
      rw e (after-Split c s (split_colon s) other (split_colon-Split s))
]

-- What parse_hostport does with a string.
pub data Reads (atoi : List ℕ → ℤ) (s : List ℕ) (is_remote : Bool) (r : Parsed) : Type 0 where
  takes :
      (host port : List ℕ)
      → s ≡ host ++ colon ∷ port
      → NoColon host
      → length host < host_size
      → r ≡ parsed host (atoi port)
      → Reads atoi s is_remote r
  overruns :
      (host port : List ℕ)
      → s ≡ host ++ colon ∷ port
      → NoColon host
      → host_size ≤ length host
      → r ≡ overflows
      → Reads atoi s is_remote r
  defaults :
      NoColon s
      → starts_with_digit s ≡ true
      → r ≡ parsed (default_host is_remote) (atoi s)
      → Reads atoi s is_remote r
  refuses : NoColon s → starts_with_digit s ≡ false → r ≡ exits → Reads atoi s is_remote r

-- parse_hostport after strchr.
abbrev finished : (List ℕ → ℤ) → List ℕ → Bool → Option (List ℕ × List ℕ) → Parsed
finished atoi s is_remote r = elim r [
  | some (before, behind) ↦ copy_host before (atoi behind)
  | none ↦ if starts_with_digit s then parsed (default_host is_remote) (atoi s) else exits
]

finished-Reads :
    (atoi : List ℕ → ℤ) (s : List ℕ) (is_remote : Bool) (r : Option (List ℕ × List ℕ))
    → Split s r
    → Reads atoi s is_remote (finished atoi s is_remote r)
finished-Reads atoi s is_remote none h = elim (Bool-cases (starts_with_digit s)) [
  | inl e ↦ defaults h e (ap (λ b. if b then parsed (default_host is_remote) (atoi s) else exits) e)
  | inr e ↦ refuses h e (ap (λ b. if b then parsed (default_host is_remote) (atoi s) else exits) e)
]
finished-Reads atoi s is_remote (some (host, port)) h =
    elim (Bool-cases (ltb (length host) host_size)) [
      | inl e ↦
          takes host port h.0 h.1 (ground arith)
            (ap (λ b. if b then parsed host (atoi port) else overflows) e)
      | inr e ↦
          overruns host port h.0 h.1 (ground arith)
            (ap (λ b. if b then parsed host (atoi port) else overflows) e)
    ]

-- Of a string with a colon, parse_hostport takes what is before the first as the host, also if it is
-- empty, in place of the default, and what is behind it as the port, if the host has up to 63
-- characters; a longer one overflows the array. Without a colon it takes the default host, if the
-- first character is a digit, with the string as the port, and else it exits.
pub parse_hostport-Reads :
    (atoi : List ℕ → ℤ) (s : List ℕ) (is_remote : Bool)
    → Reads atoi s is_remote (parse_hostport atoi s is_remote)
unfolding parse_hostport
parse_hostport-Reads atoi s is_remote =
    finished-Reads atoi s is_remote (split_colon s) (split_colon-Split s)
