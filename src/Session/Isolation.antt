-- ===== src/Session/Isolation.antt =====
-- session.rs: which client socket an upstream socket answers to. The sessions are keyed by client IP;
-- the sockets of a session belong to the source ports of that IP and are alive.
use mathlib.Core.Option
use udp_director.Prelude.{
  ℕ, zero, suc, ◌≡◌, ◌≢◌, refl, sym, ap, ◌∙◌, ◌⊎◌, inl, inr, true, false, some, [], ◌∷◌, arith,
  ◌==◌, nat_eq, pair_eq, if◌then◌else◌, get_elem?, All, All-map_of, Bool-cases, nat_beq_iff,
}
use udp_director.Prelude.Maps.{Map}
use udp_director.Net.{IpAddr, ip_eq, SocketAddr}
use udp_director.Session.{key_eq, SessionSocket, Sockets, shutdown, shutdown_each}

pub get_elem?-shutdown :
    (h j : ℕ) (ss : Sockets)
    → get_elem? (shutdown h ss) j ≡ (
        if h == j
        then Option.map (λ (s : SessionSocket). record s { shutdown = true }) (get_elem? ss j)
        else get_elem? ss j)
unfolding shutdown
get_elem?-shutdown h j [] = ground arith
get_elem?-shutdown zero zero (s ∷ ss) = ground arith
get_elem?-shutdown zero (suc j) (s ∷ ss) = ground arith
get_elem?-shutdown (suc h) zero (s ∷ ss) = ground arith
get_elem?-shutdown (suc h) (suc j) (s ∷ ss) = ground (arith, get_elem?-shutdown h j ss)

-- The socket with this handle serves the client socket under this key.
abbrev pub Owns : Sockets → IpAddr → (ℕ × ℕ) × ℕ → Type 0
Owns ss ip ((proxy_port, client_port), handle) =
    (s : SessionSocket) × (get_elem? ss handle ≡ some s)
    × (s.client ≡ record { ip = ip; port = client_port })
    × (s.proxy_port ≡ proxy_port)

abbrev pub Serves : Sockets → IpAddr → (ℕ × ℕ) × ℕ → Type 0
Serves ss ip ((proxy_port, client_port), handle) =
    (s : SessionSocket) × (get_elem? ss handle ≡ some s)
    × (s.client ≡ record { ip = ip; port = client_port })
    × (s.proxy_port ≡ proxy_port)
    × (s.shutdown ≡ false)

-- A change of the sockets that stops none but those of clients with this IP.
abbrev pub StopsOnly : IpAddr → Sockets → Sockets → Type 0
StopsOnly ip ss ss' =
    (h : ℕ) (s : SessionSocket)
    → get_elem? ss h ≡ some s
    → (s' : SessionSocket) × (get_elem? ss' h ≡ some s')
      × (s'.client ≡ s.client)
      × (s'.proxy_port ≡ s.proxy_port)
      × ((s.client.ip ≡ ip) ⊎ (s'.shutdown ≡ s.shutdown))

StopsOnly-refl : (ip : IpAddr) (ss : Sockets) → StopsOnly ip ss ss
StopsOnly-refl ip ss h s q = (s, q, refl, refl, inr refl)

StopsOnly-trans :
    (ip : IpAddr) (a b c : Sockets) → StopsOnly ip a b → StopsOnly ip b c → StopsOnly ip a c
StopsOnly-trans ip a b c f g h s q =
    let (s', q', client, port, stop) = f h s q in
    let (s'', q'', client', port', stop') = g h s' q' in
    (s'', q'', client' ∙ client, port' ∙ port, ground arith)

shutdown-StopsOnly :
    (ip : IpAddr) (key : ℕ × ℕ) (h : ℕ) (ss : Sockets)
    → Owns ss ip (key, h)
    → StopsOnly ip ss (shutdown h ss)
shutdown-StopsOnly ip (pp, cp) h ss (o, at, client, port) j s q = elim (Bool-cases (h == j)) [
  | inl same ↦
      let j_is : h ≡ j = (nat_beq_iff h j).0 same in
      let s_is : o ≡ s = ground (arith, at, q, j_is) in
      (
        record s { shutdown = true },
        rw (get_elem?-shutdown h j ss, same, q) refl,
        refl,
        refl,
        inl (rw (← s_is) (ap (λ (a : SocketAddr). a.ip) client)),
      )
  | inr other ↦ (s, rw (get_elem?-shutdown h j ss, other) q, refl, refl, inr refl)
]

pub Owns-kept :
    (ip other : IpAddr) (ss ss' : Sockets) (entry : (ℕ × ℕ) × ℕ)
    → StopsOnly ip ss ss'
    → Owns ss other entry
    → Owns ss' other entry
Owns-kept ip other ss ss' ((pp, cp), h) f (s, at, client, port) =
    let (s', at', client', port', _) = f h s at in (s', at', client' ∙ client, port' ∙ port)

pub Serves-kept :
    (ip other : IpAddr) (ss ss' : Sockets) (entry : (ℕ × ℕ) × ℕ)
    → StopsOnly ip ss ss'
    → other ≢ ip
    → Serves ss other entry
    → Serves ss' other entry
Serves-kept ip other ss ss' ((pp, cp), h) f ne (s, at, client, port, alive) =
    let (s', at', client', port', stop) = f h s at in
    (
      s',
      at',
      client' ∙ client,
      port' ∙ port,
      elim stop [
        | inl q ↦ absurd (ne (sym (ap (λ (a : SocketAddr). a.ip) client) ∙ q))
        | inr q ↦ q ∙ alive
      ],
    )

pub Owns-of_Serves :
    (ss : Sockets) (ip : IpAddr) (entry : (ℕ × ℕ) × ℕ) → Serves ss ip entry → Owns ss ip entry
Owns-of_Serves ss ip ((pp, cp), h) (s, at, client, port, alive) = (s, at, client, port)

-- The sockets of one session are stopped, and none of another IP address.
pub shutdown_each-StopsOnly :
    (ip : IpAddr) (m : Map (ℕ × ℕ) ℕ) (ss : Sockets)
    → All (Owns ss ip) m
    → StopsOnly ip ss (shutdown_each m ss)
unfolding shutdown_each
shutdown_each-StopsOnly ip [] ss h = StopsOnly-refl ip ss
shutdown_each-StopsOnly ip ((key, handle) ∷ m) ss h =
    let first = shutdown-StopsOnly ip key handle ss h.0 in
    StopsOnly-trans ip ss (shutdown handle ss) (shutdown_each m (shutdown handle ss)) first (
      shutdown_each-StopsOnly ip m (shutdown handle ss)
        (All-map_of (λ entry. Owns-kept ip ip ss (shutdown handle ss) entry first) m h.1))
