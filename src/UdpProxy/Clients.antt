-- ===== src/UdpProxy/Clients.antt =====
-- get_client and cleanup_thread of udp_xor_proxy_multi_cleanup.c.
use testings.Prelude.{
  assign, ℕ, ◌-◌, Bool, true, false, not, ◌&&◌, Option, none, some, List, [], ◌∷◌, ltb, ◌==◌,
  if◌then◌else◌,
}
use testings.Prelude.Int.{ℤ, pos, negsuc}

pub record SockaddrIn : Type 0 where
  pub sin_family : ℕ
  pub sin_port : ℕ
  pub s_addr : ℕ

abbrev pub addr_equal : SockaddrIn → SockaddrIn → Bool
addr_equal a b =
    (a.sin_family == b.sin_family) && (a.sin_port == b.sin_port) && (a.s_addr == b.s_addr)

-- `struct client`; the list that `next` makes is a List.
pub record Client : Type 0 where
  pub addr : SockaddrIn
  pub remote_fd : ℕ
  pub last_seen : ℕ

abbrev pub client_timeout : ℕ
client_timeout = 60

-- The loop of get_client: the first client with this address has been seen now.
unfoldable pub seen : SockaddrIn → ℕ → List Client → Option (Client × List Client)
seen a now [] = none
seen a now (c ∷ cs) =
    let c' = record c { last_seen = now } in
    elim (addr_equal c.addr a) [
      | true ↦ some (c', c' ∷ cs)
      | false ↦ elim (seen a now cs) [ none ↦ none | some (found, rest) ↦ some (found, c ∷ rest) ]
    ]

-- `clients` of `struct proxy`, with the upstream sockets: which are open, and the datagrams that wait
-- in each.
pub record Table : Type 0 where
  pub clients : List Client
  pub opened : ℕ → Bool
  pub inbox : ℕ → List (List ℕ)

-- A new socket has nothing to receive.
abbrev pub joined : SockaddrIn → ℕ → ℕ → Table → Client × Table
joined a k now t =
    let c : Client = record { addr = a; remote_fd = k; last_seen = now } in
    (
      c,
      record {
        clients = c ∷ t.clients;
        opened = assign t.opened k true;
        inbox = assign t.inbox k [];
      },
    )

-- `alloc` says whether calloc succeeds, `fd` is what socket returns, and `now` the time.
unfoldable pub get_client : Bool → ℤ → ℕ → SockaddrIn → Table → Option Client × Table
unfolding seen
get_client alloc fd now a t = elim (seen a now t.clients) [
  | some (c, rest) ↦ (some c, record t { clients = rest })
  | none ↦ if not alloc then (none, t) else elim fd [
    | negsuc n ↦ (none, t)
    | pos k ↦ (some (joined a k now t).0, (joined a k now t).1)
  ]
]

-- The loop of cleanup_thread: the clients that stay, and the sockets that are still open.
unfoldable pub sweep : ℕ → List Client → (ℕ → Bool) → List Client × (ℕ → Bool)
sweep now [] opened = ([], opened)
sweep now (c ∷ cs) opened =
    let idle = sweep now cs (assign opened c.remote_fd false) in
    let active = sweep now cs opened in
    if ltb client_timeout (now - c.last_seen) then idle else (c ∷ active.0, active.1)

-- A round of cleanup_thread.
unfoldable pub cleanup : ℕ → Table → Table
unfolding sweep
cleanup now t = let r = sweep now t.clients t.opened in record t { clients = r.0; opened = r.1 }
