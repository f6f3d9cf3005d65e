-- ===== src/UdpProxy/Single.antt =====
-- udp_xor_proxy.c, the program for one client: a round of local_to_remote_thread and one of
-- remote_to_local_thread, in the order in which they hold the lock. A packet without bytes stands for
-- a recvfrom that fails.
use testings.Prelude.{
  take, replicate, ◌-◌, ℕ, suc, ◌≤◌, ◌<◌, ◌≡◌, ◌≢◌, ap, ◌∙◌, Option, none, some, List, [], ◌∷◌,
  ◌++◌, length, ◌==◌, if◌then◌else◌, arith,
}
use testings.UdpProxy.Xor.{Outcome, done, ◌>>=◌, xor_buffer, stored_key, key_size}
use testings.UdpProxy.Xor.Twice.{AreChars, coded, coded_twice, xor_buffer_made}
use testings.UdpProxy.Clients.{SockaddrIn}

-- `struct proxy_state`; there is no client while `client_addr_len` is 0.
pub record ProxyState : Type 0 where
  pub client_addr : Option SockaddrIn
  pub key : List ℕ
  pub key_len : ℕ

unfoldable pub strlen : List ℕ → ℕ
strlen [] = 0
strlen (c ∷ s) = let rest = strlen s in if c == 0 then 0 else suc rest

-- The state that main makes.
unfoldable pub start_state : List ℕ → ProxyState
unfolding strlen
start_state arg = record {
  client_addr = none;
  key = stored_key arg;
  key_len = strlen (stored_key arg);
}

-- What it sends to the remote side.
unfoldable pub local_to_remote :
    ProxyState → SockaddrIn → List ℕ → Outcome (Option (List ℕ) × ProxyState)
local_to_remote s a buf = elim buf [
  | [] ↦ done (none, s)
  | b ∷ bs ↦ do
    packet ← xor_buffer (b ∷ bs) s.key s.key_len
    done (some packet, record s { client_addr = some a })
]

abbrev to_client : Option SockaddrIn → List ℕ → Option (SockaddrIn × List ℕ)
to_client none packet = none
to_client (some a) packet = some (a, packet)

-- What it sends to a client.
unfoldable pub remote_to_local : ProxyState → List ℕ → Outcome (Option (SockaddrIn × List ℕ))
remote_to_local s buf = elim buf [
  | [] ↦ done none
  | b ∷ bs ↦ do packet ← xor_buffer (b ∷ bs) s.key s.key_len; done (to_client s.client_addr packet)
]

strlen-le : (s : List ℕ) → strlen s ≤ length s
unfolding strlen
strlen-le [] = omega arith
strlen-le (c ∷ s) = ground (arith, strlen-le s)

strlen_first : (k : ℕ) (s : List ℕ) → k ≢ 0 → 0 < strlen (k ∷ s)
unfolding strlen
strlen_first k s h = ground arith

-- A key with a character, all of whose characters are in the array.
abbrev pub HasKey : ProxyState → Type 0
HasKey s = (0 < s.key_len) × (s.key_len ≤ length s.key)

start-HasKey : (k : ℕ) (ks : List ℕ) → k ≢ 0 → HasKey (start_state (k ∷ ks))
unfolding start_state stored_key
start-HasKey k ks h = (
  strlen_first k (take 254 ks ++ replicate (key_size - length (take 255 (k ∷ ks))) 0) h,
  strlen-le (stored_key (k ∷ ks)),
)

abbrev coded_by : ProxyState → List ℕ → List ℕ
coded_by s buf = coded s.key s.key_len 0 buf

local_made :
    (s : ProxyState) (a : SockaddrIn) (b : ℕ) (bs : List ℕ)
    → HasKey s
    → local_to_remote s a (b ∷ bs)
      ≡ done (some (coded_by s (b ∷ bs)), record s { client_addr = some a })
unfolding local_to_remote
local_made s a b bs h =
    ap (λ m. m >>= (λ packet. done (some packet, record s { client_addr = some a })))
      (xor_buffer_made s.key s.key_len (b ∷ bs) h.0 h.1)

remote_made :
    (s : ProxyState) (b : ℕ) (bs : List ℕ)
    → HasKey s
    → remote_to_local s (b ∷ bs) ≡ done (to_client s.client_addr (coded_by s (b ∷ bs)))
unfolding remote_to_local
remote_made s b bs h =
    ap (λ m. m >>= (λ packet. done (to_client s.client_addr packet)))
      (xor_buffer_made s.key s.key_len (b ∷ bs) h.0 h.1)

-- Two proxies, one behind the other, that were started with the same argument, whose first character
-- is `k` and not 0: a packet of bytes, not empty, from a client of the first, `near`, goes out of the
-- second, `far`, as it came in, and an answer of bytes, not empty, to that goes back to the client as
-- it came in, through the address `x` at which the second knows the first.
pub tunnel :
    (k : ℕ) (ks : List ℕ) (a x : SockaddrIn) (b : ℕ) (bs : List ℕ) (r : ℕ) (rs : List ℕ)
    → k ≢ 0
    → AreChars (b ∷ bs)
    → AreChars (r ∷ rs)
    → (near : ProxyState) × (far : ProxyState) × (packet : List ℕ) × (answer : List ℕ)
      × (local_to_remote (start_state (k ∷ ks)) a (b ∷ bs) ≡ done (some packet, near))
      × (local_to_remote (start_state (k ∷ ks)) x packet ≡ done (some (b ∷ bs), far))
      × (remote_to_local far (r ∷ rs) ≡ done (some (x, answer)))
      × (remote_to_local near answer ≡ done (some (a, r ∷ rs)))
unfolding coded
tunnel k ks a x b bs r rs h c d =
    let s = start_state (k ∷ ks) in
    let key = start-HasKey k ks h in
    (
      record s { client_addr = some a },
      record s { client_addr = some x },
      coded_by s (b ∷ bs),
      coded_by s (r ∷ rs),
      local_made s a b bs key,
      local_made s x _ _ key
          ∙ ap (λ buf. done (some buf, record s { client_addr = some x }))
              (coded_twice s.key s.key_len 0 (b ∷ bs) c),
      remote_made (record s { client_addr = some x }) r rs key,
      remote_made (record s { client_addr = some a }) _ _ key
          ∙ ap (λ buf. done (some (a, buf))) (coded_twice s.key s.key_len 0 (r ∷ rs) d),
    )
