-- ===== src/UdpProxy/Loop.antt =====
-- The loop of main of udp_xor_proxy_multi_cleanup.c. A round runs at once, though it holds the lock in
-- get_client only.
pub mod Sockets
pub mod Cleanup
pub mod Steps
pub mod Replies
use testings.Prelude.{
  assign, ℕ, zero, suc, ◌+◌, ◌≡◌, ◌≢◌, refl, Bool, true, false, Option, none, some, List, [], ◌∷◌,
  ◌++◌, pop, ◌==◌, if◌then◌else◌,
}
use testings.Prelude.Int.{ℤ, pos, negsuc}
use testings.UdpProxy.Xor.{Outcome, done, divides_by_zero, outside, ◌>>=◌, xor_buffer}
use testings.UdpProxy.Clients.{SockaddrIn, Client, Table, get_client, cleanup}

-- `struct proxy`
pub record Proxy : Type 0 where
  pub key : List ℕ
  pub key_len : ℕ
  pub table : Table

-- A packet that comes in: from where, what, what calloc and socket answer, the time, and the
-- datagrams that come back before the test for a response. It has no bytes if recvfrom fails.
pub record Incoming : Type 0 where
  pub client_addr : SockaddrIn
  pub buf : List ℕ
  pub alloc : Bool
  pub fd : ℤ
  pub now : ℕ
  pub answers : List (List ℕ)

pub data Sent : Type 0 where
  to_remote : ℕ → List ℕ → Sent
  to_client : SockaddrIn → List ℕ → Sent

-- The nonblocking test for a response of the socket `fd`: the oldest datagram, none without bytes.
abbrev pub response : Table → ℕ → List ℕ
response t fd = elim (t.inbox fd) [ [] ↦ [] | r ∷ rs ↦ r ]

abbrev pub received : Table → ℕ → Table
received t fd = record t { inbox = assign t.inbox fd (pop (t.inbox fd)).1 }

-- Datagrams that come back to a socket.
abbrev pub arrived : ℕ → List (List ℕ) → Table → Table
arrived fd rs t = record t { inbox = assign t.inbox fd (t.inbox fd ++ rs) }

-- A round of the loop from sendto on.
unfoldable pub exchange : Proxy → Client → List ℕ → List (List ℕ) → Outcome (List Sent × Proxy)
exchange p c packet answers =
    let t = arrived c.remote_fd answers p.table in
    let next = record p { table = received t c.remote_fd } in
    let sent = to_remote c.remote_fd packet in
    elim (response t c.remote_fd) [
      | [] ↦ done (sent ∷ [], next)
      | b ∷ bs ↦ do
        reply ← xor_buffer (b ∷ bs) p.key p.key_len
        done (sent ∷ to_client c.addr reply ∷ [], next)
    ]

-- A round of the loop.
unfoldable pub serve : Proxy → Incoming → Outcome (List Sent × Proxy)
unfolding exchange get_client
serve p i = elim i.buf [
  | [] ↦ done ([], p)
  | b ∷ bs ↦ do
    packet ← xor_buffer (b ∷ bs) p.key p.key_len
    let g = get_client i.alloc i.fd i.now i.client_addr p.table
    elim g.0 [
      | none ↦ done ([], record p { table = g.1 })
      | some c ↦ exchange (record p { table = g.1 }) c packet i.answers
    ]
]
