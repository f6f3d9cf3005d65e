-- ===== src/UdpProxy/Tests.antt =====
-- A proxy with the key "ab" and a client.
use testings.Prelude.{ℕ, ◌≤◌, ◌<◌, ◌≡◌, ◌⊎◌, refl, true, some, List, [], ◌∷◌, length, arith}
use testings.Prelude.Int.{pos}
use testings.UdpProxy.Xor.{
  xor_from, xor_bits, done, divides_by_zero, outside, xor_buffer, key_size, stored_key,
}
use testings.UdpProxy.Xor.Twice.{coded}
use testings.UdpProxy.Xor.Keys.{stored_key_lem}
use testings.UdpProxy.Clients.{SockaddrIn, seen, get_client, cleanup}
use testings.UdpProxy.Loop.{Proxy, Incoming, to_remote, arrived, received, exchange, serve}
use testings.UdpProxy.Loop.Sockets.{IsTable}
use testings.UdpProxy.Loop.Steps.{start, serves, cleans, comes, empty, Reach-IsTable}
use testings.UdpProxy.Loop.Replies.{Exchanged, serve-Exchanged}
use testings.UdpProxy.Single.{ProxyState, start_state, local_to_remote, remote_to_local, tunnel}
use testings.UdpProxy.Arguments.{Reads, parse_hostport, parse_hostport-Reads}

abbrev key : List ℕ
key = 97 ∷ 98 ∷ []

stored_key_lem_example :
    (length key ≡ 0) × (xor_buffer (1 ∷ 2 ∷ []) (stored_key key) (length key) ≡ divides_by_zero)
    ⊎ (0 < length key)
      × ((length key ≤ key_size) ⊎ (length {A = ℕ} (1 ∷ 2 ∷ []) ≤ key_size))
      × (xor_buffer (1 ∷ 2 ∷ []) (stored_key key) (length key)
          ≡ done (coded (stored_key key) (length key) 0 (1 ∷ 2 ∷ [])))
    ⊎ (key_size < length key)
      × (key_size < length {A = ℕ} (1 ∷ 2 ∷ []))
      × (xor_buffer (1 ∷ 2 ∷ []) (stored_key key) (length key) ≡ outside)
stored_key_lem_example = stored_key_lem key 1 (2 ∷ [])

abbrev alice : SockaddrIn
alice = record { sin_family = 2; sin_port = 5000; s_addr = 7 }

abbrev idle_proxy : Proxy
idle_proxy = record { key = key; key_len = 2; table = empty }

serve-Exchanged_example : Exchanged idle_proxy (record {
  client_addr = alice;
  buf = 1 ∷ 2 ∷ [];
  alloc = true;
  fd = pos 4;
  now = 100;
  answers = (9 ∷ []) ∷ [];
})
serve-Exchanged_example =
    serve-Exchanged idle_proxy alice 1 (2 ∷ []) 4 100 ((9 ∷ []) ∷ []) (omega arith) (omega arith)
      (omega arith, (omega arith, tt))

abbrev hello : Incoming
hello = record {
  client_addr = alice;
  buf = 1 ∷ 2 ∷ [];
  alloc = true;
  fd = pos 4;
  now = 100;
  answers = [];
}

-- The proxy with the client, and one answer that came late.
abbrev busy_proxy : Proxy
busy_proxy = record idle_proxy { table = (get_client true (pos 4) 100 alice empty).1 }

hello-serve :
    serve idle_proxy hello
    ≡ done (
      to_remote 4 (96 ∷ 96 ∷ []) ∷ [],
      record busy_proxy { table = received (arrived 4 [] busy_proxy.table) 4 },
    )
unfolding serve exchange get_client seen xor_buffer xor_from xor_bits
hello-serve = refl

Reach-IsTable_example :
    IsTable (cleanup 150 (arrived 4 ((9 ∷ []) ∷ []) (received (arrived 4 [] busy_proxy.table) 4)))
Reach-IsTable_example =
    Reach-IsTable
      (cleans 150 (comes 4 ((9 ∷ []) ∷ []) (serves hello refl hello-serve (start key 2))))

parse_hostport-Reads_example :
    Reads
      (λ s. pos (length s))
      (58 ∷ 52 ∷ [])
      true
      (parse_hostport (λ s. pos (length s)) (58 ∷ 52 ∷ []) true)
parse_hostport-Reads_example = parse_hostport-Reads (λ s. pos (length s)) (58 ∷ 52 ∷ []) true

abbrev relay : SockaddrIn
relay = record { sin_family = 2; sin_port = 4000; s_addr = 8 }

tunnel_example :
    (near : ProxyState) × (far : ProxyState) × (packet : List ℕ) × (answer : List ℕ)
    × (local_to_remote (start_state key) alice (1 ∷ 2 ∷ []) ≡ done (some packet, near))
    × (local_to_remote (start_state key) relay packet ≡ done (some (1 ∷ 2 ∷ []), far))
    × (remote_to_local far (255 ∷ []) ≡ done (some (relay, answer)))
    × (remote_to_local near answer ≡ done (some (alice, 255 ∷ [])))
tunnel_example =
    tunnel 97 (98 ∷ []) alice relay 1 (2 ∷ []) 255 [] (ground arith)
      (omega arith, (omega arith, tt)) (omega arith, tt)
