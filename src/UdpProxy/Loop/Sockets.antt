-- ===== src/UdpProxy/Loop/Sockets.antt =====
-- The clients have an open socket each, and no other is open.
use testings.Prelude.{
  assign, assign_self, assign_ne, ℕ, ◌≡◌, ◌≢◌, refl, sym, ap, subst, ◌∙◌, Bool, true, false, not,
  Option, none, some, List, [], ◌∷◌, map, if◌then◌else◌, Bool-cases, inl, inr, arith,
}
use mathlib.Core.Bool.{false≢true}
use testings.Prelude.Int.{ℤ, pos, negsuc}
use testings.UdpProxy.Clients.{SockaddrIn, addr_equal, Client, Table, seen, joined, get_client}

-- The address and the socket of each client.
abbrev pub sockets : List Client → List (SockaddrIn × ℕ)
sockets = map (λ c. (c.addr, c.remote_fd))

abbrev pub NoFd : ℕ → List (SockaddrIn × ℕ) → Type 0
NoFd k [] = Unit
NoFd k (s ∷ ss) = (s.1 ≢ k) × NoFd k ss

abbrev pub NoAddr : SockaddrIn → List (SockaddrIn × ℕ) → Type 0
NoAddr a [] = Unit
NoAddr a (s ∷ ss) = (s.0 ≢ a) × NoAddr a ss

abbrev pub AreSeparate : List (SockaddrIn × ℕ) → Type 0
AreSeparate [] = Unit
AreSeparate (s ∷ ss) = NoAddr s.0 ss × NoFd s.1 ss × AreSeparate ss

abbrev pub AreOpen : (ℕ → Bool) → List (SockaddrIn × ℕ) → Type 0
AreOpen opened [] = Unit
AreOpen opened (s ∷ ss) = (opened s.1 ≡ true) × AreOpen opened ss

pub record IsValid (ss : List (SockaddrIn × ℕ)) (opened : ℕ → Bool) : Type 0 where
  pub separate : AreSeparate ss
  pub all_open : AreOpen opened ss
  pub no_other : (k : ℕ) → NoFd k ss → opened k ≡ false

abbrev pub IsTable : Table → Type 0
IsTable t = IsValid (sockets t.clients) t.opened

addr_equal-eq : (a b : SockaddrIn) → addr_equal a b ≡ true → a ≡ b
addr_equal-eq a b h =
    let family : a.sin_family ≡ b.sin_family = ground arith in
    let port : a.sin_port ≡ b.sin_port = ground arith in
    let address : a.s_addr ≡ b.s_addr = ground arith in cc

addr_equal-ne : (a b : SockaddrIn) → addr_equal a b ≡ false → a ≢ b
addr_equal-ne a b h e = ground arith

-- What the search in get_client finds.
abbrev pub Searched : SockaddrIn → List Client → Option (Client × List Client) → Type 0
Searched a cs none = NoAddr a (sockets cs)
Searched a cs (some (c, rest)) = (c.addr ≡ a) × (sockets rest ≡ sockets cs)

abbrev behind : Client → Option (Client × List Client) → Option (Client × List Client)
behind c r = elim r [ none ↦ none | some (found, rest) ↦ some (found, c ∷ rest) ]

behind-Searched :
    (a : SockaddrIn) (c : Client) (cs : List Client) (r : Option (Client × List Client))
    → c.addr ≢ a
    → Searched a cs r
    → Searched a (c ∷ cs) (behind c r)
behind-Searched a c cs none n s = (n, s)
behind-Searched a c cs (some (found, rest)) n s = (s.0, ap (λ ss. (c.addr, c.remote_fd) ∷ ss) s.1)

seen-cons :
    (a : SockaddrIn) (now : ℕ) (c : Client) (cs : List Client)
    → addr_equal c.addr a ≡ false
    → seen a now (c ∷ cs) ≡ behind c (seen a now cs)
unfolding seen
seen-cons a now c cs e = rw (e, seen) refl

seen_first :
    (a : SockaddrIn) (now : ℕ) (c : Client) (cs : List Client)
    → addr_equal c.addr a ≡ true
    → seen a now (c ∷ cs) ≡ some (record c { last_seen = now }, record c { last_seen = now } ∷ cs)
unfolding seen
seen_first a now c cs e = rw (e, seen) refl

pub seen-Searched : (a : SockaddrIn) (now : ℕ) (cs : List Client) → Searched a cs (seen a now cs)
unfolding seen
seen-Searched a now [] = tt
seen-Searched a now (c ∷ cs) = elim (Bool-cases (addr_equal c.addr a)) [
  | inl e ↦
      subst (Searched a (c ∷ cs)) (sym (seen_first a now c cs e)) (addr_equal-eq c.addr a e, refl)
  | inr e ↦
      subst (Searched a (c ∷ cs)) (sym (seen-cons a now c cs e))
        (behind-Searched a c cs (seen a now cs) (addr_equal-ne c.addr a e) (seen-Searched a now cs))
]

-- A change at a socket that no client has.
pub AreOpen-at :
    (opened : ℕ → Bool) (k : ℕ) (v : Bool) (ss : List (SockaddrIn × ℕ))
    → NoFd k ss
    → AreOpen opened ss
    → AreOpen (assign opened k v) ss
AreOpen-at opened k v [] n o = tt
AreOpen-at opened k v (s ∷ ss) n o =
    (assign_ne opened k s.1 v n.0 ∙ o.0, AreOpen-at opened k v ss n.1 o.1)

-- A socket that is not open is no client's.
closed-NoFd :
    (opened : ℕ → Bool) (k : ℕ) (ss : List (SockaddrIn × ℕ))
    → opened k ≡ false
    → AreOpen opened ss
    → NoFd k ss
closed-NoFd opened k [] c o = tt
closed-NoFd opened k (s ∷ ss) c o =
    (λ e. absurd (false≢true (sym c ∙ ap opened (sym e) ∙ o.0)), closed-NoFd opened k ss c o.1)

joined-IsTable :
    (a : SockaddrIn) (k now : ℕ) (t : Table)
    → t.opened k ≡ false
    → NoAddr a (sockets t.clients)
    → IsTable t
    → IsTable (joined a k now t).1
joined-IsTable a k now t closed fresh v =
    let none_has = closed-NoFd t.opened k (sockets t.clients) closed v.all_open in
    record {
      separate = (fresh, none_has, v.separate);
      all_open = (
        assign_self t.opened k true,
        AreOpen-at t.opened k true (sockets t.clients) none_has v.all_open,
      );
      no_other = λ j n. assign_ne t.opened k j true (λ e. n.0 (sym e)) ∙ v.no_other j n.1;
    }

-- The socket that the kernel gives is not open.
abbrev pub IsFresh : ℤ → Table → Type 0
IsFresh (pos k) t = t.opened k ≡ false
IsFresh (negsuc n) t = Unit

-- get_client after the search.
abbrev pub chosen :
    Bool → ℤ → ℕ → SockaddrIn → Table → Option (Client × List Client) → Option Client × Table
chosen alloc fd now a t r = elim r [
  | some (c, rest) ↦ (some c, record t { clients = rest })
  | none ↦ if not alloc then (none, t) else elim fd [
    | negsuc n ↦ (none, t)
    | pos k ↦ (some (joined a k now t).0, (joined a k now t).1)
  ]
]

chosen-IsTable :
    (alloc : Bool) (fd : ℤ) (now : ℕ) (a : SockaddrIn) (t : Table)
    (r : Option (Client × List Client))
    → IsFresh fd t
    → Searched a t.clients r
    → IsTable t
    → IsTable (chosen alloc fd now a t r).1
chosen-IsTable alloc fd now a t (some (c, rest)) f s v =
    subst (λ ss. IsValid ss t.opened) (sym s.1) v
chosen-IsTable false fd now a t none f s v = v
chosen-IsTable true (negsuc n) now a t none f s v = v
chosen-IsTable true (pos k) now a t none f s v = joined-IsTable a k now t f s v

pub get_client-IsTable :
    (alloc : Bool) (fd : ℤ) (now : ℕ) (a : SockaddrIn) (t : Table)
    → IsFresh fd t
    → IsTable t
    → IsTable (get_client alloc fd now a t).1
unfolding get_client
get_client-IsTable alloc fd now a t f v =
    chosen-IsTable alloc fd now a t (seen a now t.clients) f (seen-Searched a now t.clients) v
