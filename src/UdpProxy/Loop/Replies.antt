-- ===== src/UdpProxy/Loop/Replies.antt =====
-- What a round of the loop sends.
use testings.Prelude.{
  ℕ, ◌≤◌, ◌<◌, ◌≡◌, ◌⊎◌, inl, inr, refl, sym, ap, subst, ◌∙◌, true, Option, none, some, List, [],
  ◌∷◌, ◌++◌, ◌≢◌, length, get_or, drop, pop, assign_self, assign_ne, arith,
}
use testings.Prelude.Int.{pos}
use testings.UdpProxy.Xor.{Outcome, done, ◌>>=◌, xor_buffer}
use testings.UdpProxy.Xor.Twice.{AreChars, coded, xor_buffer_made, xor_buffer_twice}
use testings.UdpProxy.Clients.{SockaddrIn, Client, Table, seen, joined, get_client}
use testings.UdpProxy.Loop.{
  Proxy, Incoming, Sent, to_remote, to_client, response, received, arrived, exchange, serve,
}
use testings.UdpProxy.Loop.Sockets.{Searched, seen-Searched, chosen}
use testings.UdpProxy.Loop.Steps.{replied, served, taken}

-- The client that get_client gives, with the table that it leaves.
pub record Found (a : SockaddrIn) (g : Option Client × Table) : Type 0 where
  pub client : Client
  pub table : Table
  pub given : g ≡ (some client, table)
  pub addr : client.addr ≡ a

chosen-Found :
    (k now : ℕ) (a : SockaddrIn) (t : Table) (r : Option (Client × List Client))
    → Searched a t.clients r
    → Found a (chosen true (pos k) now a t r)
chosen-Found k now a t none s = record {
  client = (joined a k now t).0;
  table = (joined a k now t).1;
  given = refl;
  addr = refl;
}
chosen-Found k now a t (some (c, rest)) s = record {
  client = c;
  table = record t { clients = rest };
  given = refl;
  addr = s.0;
}

get_client-Found :
    (k now : ℕ) (a : SockaddrIn) (t : Table) → Found a (get_client true (pos k) now a t)
unfolding get_client
get_client-Found k now a t =
    chosen-Found k now a t (seen a now t.clients) (seen-Searched a now t.clients)

-- What a round sends and leaves, with the response `resp` that it finds: nothing more if it is empty, and
-- else the response, made with the key, to the client.
abbrev pub Back : Proxy → SockaddrIn → Sent → Proxy → List ℕ → Outcome (List Sent × Proxy) → Type 0
Back p a sent q resp out =
    (resp ≡ []) × (out ≡ done (sent ∷ [], q))
    ⊎ (reply : List ℕ) × (0 < length resp)
      × (xor_buffer resp p.key p.key_len ≡ done reply)
      × (out ≡ done (sent ∷ to_client a reply ∷ [], q))

replied-Back :
    (p : Proxy) (c : Client) (sent : Sent) (q : Proxy) (resp : List ℕ)
    → 0 < p.key_len
    → p.key_len ≤ length p.key
    → Back p c.addr sent q resp (replied p c sent q resp)
replied-Back p c sent q [] h l = inl (refl, refl)
replied-Back p c sent q (b ∷ bs) h l =
    let made : xor_buffer (b ∷ bs) p.key p.key_len ≡ done (coded p.key p.key_len 0 (b ∷ bs)) =
      xor_buffer_made p.key p.key_len (b ∷ bs) h l in
    inr (
      coded p.key p.key_len 0 (b ∷ bs),
      omega arith,
      made,
      ap (λ m. m >>= (λ reply. done (sent ∷ to_client c.addr reply ∷ [], q))) made,
    )

head-response : (rs : List (List ℕ)) → elim rs [ [] ↦ [] | r ∷ more ↦ r ] ≡ get_or rs 0 []
head-response [] = refl
head-response (r ∷ rs) = refl

tail-pop : (rs : List (List ℕ)) → (pop rs).1 ≡ drop 1 rs
tail-pop [] = refl
tail-pop (r ∷ rs) = refl

-- What a round finds in the socket of its client, and what it leaves there: it takes the oldest of the
-- datagrams that wait, behind which those stand that come before the test; of other sockets nothing.
pub record Taken (t : Table) (fd : ℕ) (answers : List (List ℕ)) : Type 0 where
  pub oldest : response (arrived fd answers t) fd ≡ get_or (t.inbox fd ++ answers) 0 []
  pub left : (received (arrived fd answers t) fd).inbox fd ≡ drop 1 (t.inbox fd ++ answers)
  pub others : (x : ℕ) → x ≢ fd → (received (arrived fd answers t) fd).inbox x ≡ t.inbox x

arrived-Taken : (t : Table) (fd : ℕ) (answers : List (List ℕ)) → Taken t fd answers
arrived-Taken t fd answers =
    let u = arrived fd answers t in
    let waits : u.inbox fd ≡ t.inbox fd ++ answers =
      assign_self t.inbox fd (t.inbox fd ++ answers) in
    record {
      oldest = head-response (u.inbox fd) ∙ ap (λ rs. get_or rs 0 []) waits;
      left =
          assign_self u.inbox fd (pop (u.inbox fd)).1 ∙ tail-pop (u.inbox fd) ∙ ap (drop 1) waits;
      others = λ x ne.
          assign_ne u.inbox fd x (pop (u.inbox fd)).1 ne
          ∙ assign_ne t.inbox fd x (t.inbox fd ++ answers) ne;
    }

-- What a round does for a client: its packet goes out of its socket, in a form from which the key
-- gives the packet again; if a response that is not empty is there, this goes to the client, made with
-- the key; and nothing else is sent.
pub record Exchanged (p : Proxy) (i : Incoming) : Type 0 where
  pub found : Found i.client_addr (get_client i.alloc i.fd i.now i.client_addr p.table)
  pub packet : List ℕ
  pub decodes : xor_buffer packet p.key p.key_len ≡ done i.buf
  pub socket : Taken found.table found.client.remote_fd i.answers
  pub back :
      let fd = found.client.remote_fd in
      let t = arrived fd i.answers found.table in
      Back p i.client_addr
        (to_remote fd packet)
        (record p { table = received t fd })
        (response t fd)
        (serve p i)

abbrev from : SockaddrIn → List ℕ → ℕ → ℕ → List (List ℕ) → Incoming
from a buf k now answers = record {
  client_addr = a;
  buf = buf;
  alloc = true;
  fd = pos k;
  now = now;
  answers = answers;
}

serve_step :
    (p : Proxy) (i : Incoming) (b : ℕ) (bs packet : List ℕ) (c : Client) (t : Table)
    → i.buf ≡ b ∷ bs
    → xor_buffer (b ∷ bs) p.key p.key_len ≡ done packet
    → get_client i.alloc i.fd i.now i.client_addr p.table ≡ (some c, t)
    → serve p i ≡ exchange (record p { table = t }) c packet i.answers
unfolding serve
serve_step p i b bs packet c t e made g =
    let client = get_client i.alloc i.fd i.now i.client_addr p.table in
    ap (taken p i) e
    ∙ ap (λ m. m >>= (λ x. served p x i.answers client)) made
    ∙ ap (served p packet i.answers) g

exchange-Back :
    (p : Proxy) (c : Client) (packet : List ℕ) (answers : List (List ℕ))
    → 0 < p.key_len
    → p.key_len ≤ length p.key
    → let t = arrived c.remote_fd answers p.table in
      Back p c.addr
        (to_remote c.remote_fd packet)
        (record p { table = received t c.remote_fd })
        (response t c.remote_fd)
        (exchange p c packet answers)
unfolding exchange
exchange-Back p c packet answers h l =
    let t = arrived c.remote_fd answers p.table in
    replied-Back p c (to_remote c.remote_fd packet) (record p { table = received t c.remote_fd })
      (response t c.remote_fd) h l

-- Where the array has all the characters of the key, which is not empty, and where calloc and socket
-- succeed if they are called: a round that gets a packet from a client sends it out of the socket of
-- this client, in a form from which the key gives the packet again; if responses wait in the socket,
-- or come before the test for one, and the oldest is not empty, this goes to the same client, made
-- with the key; nothing else is sent, now or to another client; and of the datagrams that wait only
-- the oldest is taken.
pub serve-Exchanged :
    (p : Proxy) (a : SockaddrIn) (b : ℕ) (bs : List ℕ) (k now : ℕ) (answers : List (List ℕ))
    → 0 < p.key_len
    → p.key_len ≤ length p.key
    → AreChars (b ∷ bs)
    → Exchanged p (from a (b ∷ bs) k now answers)
serve-Exchanged p a b bs k now answers h l chars =
    let twice = xor_buffer_twice p.key p.key_len (b ∷ bs) h l chars in
    let found = get_client-Found k now a p.table in
    let i = from a (b ∷ bs) k now answers in
    let fd = found.client.remote_fd in
    let t = arrived fd answers found.table in
    record {
      found = found;
      packet = twice.0;
      decodes = twice.3;
      socket = arrived-Taken found.table fd answers;
      back =
          subst
            (λ out.
              Back p a (to_remote fd twice.0) (record p { table = received t fd }) (response t fd)
                out)
            (sym (serve_step p i b bs twice.0 found.client found.table refl twice.1 found.given))
            (subst
              (λ x.
                Back p x (to_remote fd twice.0) (record p { table = received t fd }) (response t fd)
                  (exchange (record p { table = found.table }) found.client twice.0 answers))
              found.addr
              (exchange-Back (record p { table = found.table }) found.client twice.0 answers h l));
    }
