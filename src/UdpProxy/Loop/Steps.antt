-- ===== src/UdpProxy/Loop/Steps.antt =====
-- The rounds of main and of cleanup_thread in any order.
use testings.Prelude.{ℕ, ◌≡◌, refl, subst, false, Option, none, some, List, [], ◌∷◌}
use testings.UdpProxy.Xor.{Outcome, done, divides_by_zero, outside, ◌>>=◌, xor_buffer}
use testings.UdpProxy.Clients.{Client, Table, get_client, cleanup}
use testings.UdpProxy.Loop.{
  Proxy, Incoming, Sent, to_remote, to_client, response, received, arrived, exchange, serve,
}
use testings.UdpProxy.Loop.Sockets.{IsTable, IsFresh, get_client-IsTable}
use testings.UdpProxy.Loop.Cleanup.{cleanup-IsTable}

-- No clients.
abbrev pub empty : Table
empty = record { clients = []; opened = λ k. false; inbox = λ k. [] }

pub data Reach : Proxy → Type 0 where
  start :
      (key : List ℕ) (key_len : ℕ) → Reach (record { key = key; key_len = key_len; table = empty })
  serves :
      {p q : Proxy} {sent : List Sent} (i : Incoming)
      → IsFresh i.fd p.table
      → serve p i ≡ done (sent, q)
      → Reach p
      → Reach q
  cleans : {p : Proxy} (now : ℕ) → Reach p → Reach (record p { table = cleanup now p.table })
  comes :
      {p : Proxy} (fd : ℕ) (rs : List (List ℕ))
      → Reach p
      → Reach (record p { table = arrived fd rs p.table })

-- Where a round ends without an error, the table is fine.
abbrev Leaves : Outcome (List Sent × Proxy) → Type 0
Leaves (done r) = IsTable r.1.table
Leaves divides_by_zero = Unit
Leaves outside = Unit

bind-Leaves :
    {A : Type 0} (m : Outcome A) (f : A → Outcome (List Sent × Proxy))
    → ((a : A) → Leaves (f a))
    → Leaves (m >>= f)
bind-Leaves (done a) f h = h a
bind-Leaves divides_by_zero f h = tt
bind-Leaves outside f h = tt

-- exchange after the test for a response.
abbrev pub replied : Proxy → Client → Sent → Proxy → List ℕ → Outcome (List Sent × Proxy)
replied p c sent next resp = elim resp [
  | [] ↦ done (sent ∷ [], next)
  | b ∷ bs ↦ do
    reply ← xor_buffer (b ∷ bs) p.key p.key_len
    done (sent ∷ to_client c.addr reply ∷ [], next)
]

replied-Leaves :
    (p : Proxy) (c : Client) (sent : Sent) (next : Proxy) (resp : List ℕ)
    → IsTable next.table
    → Leaves (replied p c sent next resp)
replied-Leaves p c sent next [] v = v
replied-Leaves p c sent next (b ∷ bs) v =
    bind-Leaves (xor_buffer (b ∷ bs) p.key p.key_len) _ (λ reply. v)

exchange-Leaves :
    (p : Proxy) (c : Client) (packet : List ℕ) (answers : List (List ℕ))
    → IsTable p.table
    → Leaves (exchange p c packet answers)
unfolding exchange
exchange-Leaves p c packet answers v =
    let t = arrived c.remote_fd answers p.table in
    replied-Leaves p c (to_remote c.remote_fd packet) (record p { table = received t c.remote_fd })
      (response t c.remote_fd) v

-- serve after get_client.
abbrev pub served :
    Proxy → List ℕ → List (List ℕ) → Option Client × Table → Outcome (List Sent × Proxy)
served p packet answers g = elim g.0 [
  | none ↦ done ([], record p { table = g.1 })
  | some c ↦ exchange (record p { table = g.1 }) c packet answers
]

served-Leaves :
    (p : Proxy) (packet : List ℕ) (answers : List (List ℕ)) (g : Option Client × Table)
    → IsTable g.1
    → Leaves (served p packet answers g)
served-Leaves p packet answers (none, t) v = v
served-Leaves p packet answers (some c, t) v =
    exchange-Leaves (record p { table = t }) c packet answers v

-- serve with the bytes that came in.
abbrev pub taken : Proxy → Incoming → List ℕ → Outcome (List Sent × Proxy)
taken p i buf = elim buf [
  | [] ↦ done ([], p)
  | b ∷ bs ↦ do
    packet ← xor_buffer (b ∷ bs) p.key p.key_len
    served p packet i.answers (get_client i.alloc i.fd i.now i.client_addr p.table)
]

taken-Leaves :
    (p : Proxy) (i : Incoming) (buf : List ℕ)
    → IsFresh i.fd p.table
    → IsTable p.table
    → Leaves (taken p i buf)
taken-Leaves p i [] f v = v
taken-Leaves p i (b ∷ bs) f v =
    let g = get_client i.alloc i.fd i.now i.client_addr p.table in
    bind-Leaves (xor_buffer (b ∷ bs) p.key p.key_len) _ (λ packet.
      served-Leaves p packet i.answers g
        (get_client-IsTable i.alloc i.fd i.now i.client_addr p.table f v))

serve-Leaves :
    (p : Proxy) (i : Incoming) → IsFresh i.fd p.table → IsTable p.table → Leaves (serve p i)
unfolding serve
serve-Leaves p i f v = taken-Leaves p i i.buf f v

-- In every state that rounds of the loop, cleanups and datagrams from the remote side reach from no
-- clients, in any order, where socket gives a socket that is not open: no two clients have the same
-- address or the same socket, the socket of each client is open, and no other is.
pub Reach-IsTable : {p : Proxy} → Reach p → IsTable p.table
Reach-IsTable (start key key_len) = record { separate = tt; all_open = tt; no_other = λ k n. refl }
Reach-IsTable (serves {p} i f e r) = subst Leaves e (serve-Leaves p i f (Reach-IsTable r))
Reach-IsTable (cleans {p} now r) = cleanup-IsTable now p.table (Reach-IsTable r)
Reach-IsTable (comes fd rs r) = Reach-IsTable r
