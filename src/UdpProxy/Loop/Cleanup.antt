-- ===== src/UdpProxy/Loop/Cleanup.antt =====
-- What a round of cleanup_thread leaves.
use testings.Prelude.{
  assign, assign_self, assign_ne, ℕ, ◌-◌, ◌≡◌, ◌≢◌, refl, sym, ap, subst, ◌∙◌, Bool, false, List,
  [], ◌∷◌, ltb, if◌then◌else◌, Bool-cases, inl, inr,
}
use native.Mathlib.Decide.{ℕ_discrete}
use testings.UdpProxy.Clients.{SockaddrIn, Client, Table, client_timeout, sweep, cleanup}
use testings.UdpProxy.Loop.Sockets.{
  sockets, NoFd, NoAddr, AreSeparate, AreOpen, IsValid, IsTable, AreOpen-at,
}

-- The clients that were seen in the last 60 seconds.
abbrev pub active : ℕ → List Client → List Client
active now [] = []
active now (c ∷ cs) =
    let rest = active now cs in if ltb client_timeout (now - c.last_seen) then rest else c ∷ rest

abbrev is_idle : ℕ → Client → Bool
is_idle now c = ltb client_timeout (now - c.last_seen)

sweep-active :
    (now : ℕ) (cs : List Client) (opened : ℕ → Bool) → (sweep now cs opened).0 ≡ active now cs
unfolding sweep
sweep-active now [] opened = refl
sweep-active now (c ∷ cs) opened = elim (Bool-cases (is_idle now c)) [
  | inl e ↦ rw e (sweep-active now cs (assign opened c.remote_fd false))
  | inr e ↦ rw e (ap (◌∷◌ c) (sweep-active now cs opened))
]

active-NoFd :
    (now k : ℕ) (cs : List Client) → NoFd k (sockets cs) → NoFd k (sockets (active now cs))
active-NoFd now k [] n = tt
active-NoFd now k (c ∷ cs) n = elim (Bool-cases (is_idle now c)) [
  | inl e ↦ rw e (active-NoFd now k cs n.1)
  | inr e ↦ rw e (n.0, active-NoFd now k cs n.1)
]

active-NoAddr :
    (now : ℕ) (a : SockaddrIn) (cs : List Client)
    → NoAddr a (sockets cs)
    → NoAddr a (sockets (active now cs))
active-NoAddr now a [] n = tt
active-NoAddr now a (c ∷ cs) n = elim (Bool-cases (is_idle now c)) [
  | inl e ↦ rw e (active-NoAddr now a cs n.1)
  | inr e ↦ rw e (n.0, active-NoAddr now a cs n.1)
]

active-AreSeparate :
    (now : ℕ) (cs : List Client) → AreSeparate (sockets cs) → AreSeparate (sockets (active now cs))
active-AreSeparate now [] s = tt
active-AreSeparate now (c ∷ cs) s = elim (Bool-cases (is_idle now c)) [
  | inl e ↦ rw e (active-AreSeparate now cs s.2)
  | inr e ↦ rw e (
    active-NoAddr now c.addr cs s.0,
    active-NoFd now c.remote_fd cs s.1,
    active-AreSeparate now cs s.2,
  )
]

-- The sockets that no client has stay as they are.
sweep-NoFd :
    (now k : ℕ) (cs : List Client) (opened : ℕ → Bool)
    → NoFd k (sockets cs)
    → (sweep now cs opened).1 k ≡ opened k
unfolding sweep
sweep-NoFd now k [] opened n = refl
sweep-NoFd now k (c ∷ cs) opened n = elim (Bool-cases (is_idle now c)) [
  | inl e ↦ rw e (
      sweep-NoFd now k cs (assign opened c.remote_fd false) n.1
      ∙ assign_ne opened c.remote_fd k false (λ h. n.0 (sym h)))
  | inr e ↦ rw e (sweep-NoFd now k cs opened n.1)
]

sweep-closed :
    (now k : ℕ) (cs : List Client) (opened : ℕ → Bool)
    → (NoFd k (sockets cs) → opened k ≡ false)
    → NoFd k (sockets (active now cs))
    → (sweep now cs opened).1 k ≡ false
unfolding sweep
sweep-closed now k [] opened h n = h tt
sweep-closed now k (c ∷ cs) opened h n = elim (Bool-cases (is_idle now c)) [
  | inl e ↦ rw e (
      sweep-closed now k cs (assign opened c.remote_fd false)
        (λ m. elim (ℕ_discrete k c.remote_fd) [
          | yes same ↦
              ap (assign opened c.remote_fd false) same ∙ assign_self opened c.remote_fd false
          | no other ↦ assign_ne opened c.remote_fd k false other ∙ h (λ s. other (sym s), m)
        ])
        (rw e at n))
  | inr e ↦
      let n' : (c.remote_fd ≢ k) × NoFd k (sockets (active now cs)) = rw e at n in
      rw e (sweep-closed now k cs opened (λ m. h (n'.0, m)) n'.1)
]

sweep-AreOpen :
    (now : ℕ) (cs : List Client) (opened : ℕ → Bool)
    → AreSeparate (sockets cs)
    → AreOpen opened (sockets cs)
    → AreOpen (sweep now cs opened).1 (sockets (active now cs))
unfolding sweep
sweep-AreOpen now [] opened s o = tt
sweep-AreOpen now (c ∷ cs) opened s o = elim (Bool-cases (is_idle now c)) [
  | inl e ↦ rw e (
      sweep-AreOpen now cs (assign opened c.remote_fd false) s.2
        (AreOpen-at opened c.remote_fd false (sockets cs) s.1 o.1))
  | inr e ↦
      rw e (sweep-NoFd now c.remote_fd cs opened s.1 ∙ o.0, sweep-AreOpen now cs opened s.2 o.1)
]

-- A cleanup keeps the clients that were seen in the last 60 seconds, in their order.
pub cleanup-active : (now : ℕ) (t : Table) → (cleanup now t).clients ≡ active now t.clients
unfolding cleanup
cleanup-active now t = sweep-active now t.clients t.opened

pub cleanup-IsTable : (now : ℕ) (t : Table) → IsTable t → IsTable (cleanup now t)
unfolding cleanup
cleanup-IsTable now t v =
    subst (λ cs. IsValid (sockets cs) (sweep now t.clients t.opened).1)
      (sym (sweep-active now t.clients t.opened))
      (record {
        separate = active-AreSeparate now t.clients v.separate;
        all_open = sweep-AreOpen now t.clients t.opened v.separate v.all_open;
        no_other = λ k n. sweep-closed now k t.clients t.opened (v.no_other k) n;
      })
