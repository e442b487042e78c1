-- ===== src/Proxy/Packets.antt =====
-- proxy.rs: the packet of a client, over the socket that its session keeps for the data port.
use udp_director.Prelude.{
  ℕ, zero, suc, ◌≡◌, refl, sym, ◌∙◌, inl, inr, Bool, false, some, List, [], ◌∷◌, ◌++◌, nat_eq,
  pair_eq, All, All-map_of, Bool-cases, Option-cases, arith, length, get_elem?,
}
use udp_director.Prelude.Maps.{
  lookup, adjust, adjust-HasDistinctKeys, All-insert, All-adjust_change, All-lookup,
}
use udp_director.Result.{Result, ok, err, panic}
use udp_director.Net.{IpAddr, SocketAddr, udp}
use udp_director.Session.{
  legacy_ip, key_eq, key_beq_iff, SessionSocket, Sockets, Session, get_or_create_udp_socket,
  bind_socket, get_target_addr,
}
use udp_director.Session.Manager.{Store, get, get_by_addr, key_by_addr}
use udp_director.Session.Isolation.{Serves}
use udp_director.Session.Homes.{IsHomed, IsIsolated}
use udp_director.Session.Routes.{IsByIp, get_by_addr-lem, exact-absent}
use udp_director.Proxy.{Environment, Sent, send_on, send_to, proxy_packet_bidirectional}

get_elem?-append :
    (xs ys : Sockets) (j : ℕ) (x : SessionSocket)
    → get_elem? xs j ≡ some x
    → get_elem? (xs ++ ys) j ≡ some x
get_elem?-append [] ys j x q = absurd (ground (arith, q))
get_elem?-append (y ∷ xs) ys zero x q = q
get_elem?-append (y ∷ xs) ys (suc j) x q = get_elem?-append xs ys j x q

get_elem?-last : (xs : Sockets) (x : SessionSocket) → get_elem? (xs ++ x ∷ []) (length xs) ≡ some x
get_elem?-last [] x = refl
get_elem?-last (y ∷ xs) x = get_elem?-last xs x

-- Every socket of the one list has its place and state in the other.
abbrev pub Keeps : Sockets → Sockets → Type 0
Keeps ss ss' = (j : ℕ) (x : SessionSocket) → get_elem? ss j ≡ some x → get_elem? ss' j ≡ some x

Serves-Keeps :
    (ip : IpAddr) (ss ss' : Sockets) (entry : (ℕ × ℕ) × ℕ)
    → Keeps ss ss'
    → Serves ss ip entry
    → Serves ss' ip entry
Serves-Keeps ip ss ss' ((pp, cp), h) f (s, at, client, port, alive) =
    (s, f h s at, client, port, alive)

-- What a session's socket is, once it is found or bound.
abbrev pub IsReady : ℕ → SocketAddr → Sockets → ℕ × Session × Sockets → Type 0
IsReady port client ss (handle, s, ss') =
    Keeps ss ss'
    × All (Serves ss' client.ip) s.udp_sockets
    × Serves ss' client.ip ((port, client.port), handle)

-- The results of a call, where each holds.
abbrev pub IfOk {ℓ κ} : {A : Type ℓ} → (A → Type κ) → Result A → Type κ
IfOk P (ok a) = P a
IfOk P (err e) = Unit
IfOk P panic = Unit

bind_socket-IsReady :
    (s : Session) (port : ℕ) (client : SocketAddr) (ss : Sockets)
    → All (Serves ss client.ip) s.udp_sockets
    → IsReady port client ss (bind_socket s port client ss)
bind_socket-IsReady s port client ss h =
    let new : SessionSocket = record { client = client; proxy_port = port; shutdown = false } in
    let keeps : Keeps ss (ss ++ new ∷ []) = get_elem?-append ss (new ∷ []) in
    let serves : Serves (ss ++ new ∷ []) client.ip ((port, client.port), length ss) =
      (new, get_elem?-last ss new, refl, refl, refl) in
    (
      keeps,
      All-insert (Serves (ss ++ new ∷ []) client.ip) (port, client.port) (length ss) s.udp_sockets
          serves
          (All-map_of (λ entry. Serves-Keeps client.ip ss (ss ++ new ∷ []) entry keeps)
            s.udp_sockets h),
      serves,
    )

get_or_create_udp_socket-IsReady :
    (bound : Bool) (s : Session) (port : ℕ) (client : SocketAddr) (ss : Sockets)
    → All (Serves ss client.ip) s.udp_sockets
    → IfOk (IsReady port client ss) (get_or_create_udp_socket bound s port client ss)
unfolding get_or_create_udp_socket
get_or_create_udp_socket-IsReady bound s port client ss h =
    elim (Option-cases (lookup (port, client.port) s.udp_sockets)) [
      | inr (handle, q) ↦
          rw (get_or_create_udp_socket, q)
            (
              (λ j x at. at),
              h,
              All-lookup (Serves ss client.ip) (port, client.port) handle s.udp_sockets h q,
            )
      | inl q ↦ elim (Bool-cases bound) [
        | inl b ↦ rw (get_or_create_udp_socket, q, b) (bind_socket-IsReady s port client ss h)
        | inr b ↦ rw (get_or_create_udp_socket, q, b) tt
      ]
    ]

-- The store of a home session with its sockets put back.
put_back-IsIsolated :
    (port : ℕ) (client : SocketAddr) (st : Store) (handle : ℕ) (s : Session) (ss : Sockets)
    → IsIsolated st
    → IsReady port client st.sockets (handle, s, ss)
    → IsIsolated
        (record { sessions = adjust (legacy_ip client.ip) (λ _. s) st.sessions; sockets = ss })
put_back-IsIsolated port client st handle s ss (distinct, homed) (keeps, serving, _) = (
  adjust-HasDistinctKeys (legacy_ip client.ip) (λ _. s) st.sessions distinct,
  All-adjust_change (IsHomed st.sockets) (IsHomed ss) (legacy_ip client.ip)
      (λ key w ne p. (
        p.0,
        p.1,
        All-map_of (λ entry. Serves-Keeps p.0 st.sockets ss entry keeps) w.udp_sockets p.2,
      ))
      (λ _. s) st.sessions distinct
      (λ key w same p. (client.ip, (key_beq_iff key (legacy_ip client.ip)).0 same, serving)) homed,
)

legacy_ip_inj : (a b : IpAddr) → legacy_ip a ≡ legacy_ip b → a ≡ b
legacy_ip_inj a b h = cc

pub IsByIp-of_IsIsolated : (st : Store) → IsIsolated st → All IsByIp st.sessions
IsByIp-of_IsIsolated st (distinct, homed) = All-map_of (λ entry p. (p.0, p.1)) st.sessions homed

-- The sockets of a client's session serve its address.
session-Serves :
    (client : SocketAddr) (s : Session) (st : Store)
    → IsIsolated st
    → lookup (legacy_ip client.ip) st.sessions ≡ some s
    → All (Serves st.sockets client.ip) s.udp_sockets
session-Serves client s st (distinct, homed) q =
    let (ip, same, sockets) =
      All-lookup (IsHomed st.sockets) (legacy_ip client.ip) s st.sessions homed q in
    rw (legacy_ip_inj client.ip ip same) sockets

module _ (env : Environment) (client : SocketAddr) (payload : List ℕ) (port : ℕ) where
  -- The packet went out through a socket of this client and this port, to where its session leads.
  abbrev pub IsRouted : Store → Store → Sent → Type 0
  IsRouted st st' sent =
      (s : Session) × (get_by_addr client st ≡ some s)
      × (get_target_addr env.parse_v6 s port udp ≡ ok sent.target)
      × (sent.payload ≡ payload)
      × Serves st'.sockets client.ip ((port, client.port), sent.handle)

  abbrev pub IsSound : Store → Store × Result Sent → Type 0
  IsSound st (st', r) = IsIsolated st' × IfOk (IsRouted st st') r

  send_on-IsSound :
      (s : Session) (target : SocketAddr) (found : Result (ℕ × Session × Sockets)) (st : Store)
      → IsIsolated st
      → get_by_addr client st ≡ some s
      → get_target_addr env.parse_v6 s port udp ≡ ok target
      → IfOk (IsReady port client st.sockets) found
      → IsSound st (send_on env client payload port (legacy_ip client.ip) target found st)
  send_on-IsSound s target (err e) st h at to ready = (h, tt)
  send_on-IsSound s target panic st h at to ready = (h, tt)
  send_on-IsSound s target (ok (handle, s', ss)) st h at to ready =
      let store = put_back-IsIsolated port client st handle s' ss h ready in
      elim (Bool-cases env.delivered) [
        | inl went ↦ rw went (store, (s, at, to, refl, ready.2))
        | inr lost ↦ rw lost (store, tt)
      ]

  send_to-IsSound :
      (s : Session) (st : Store)
      → IsIsolated st
      → get_by_addr client st ≡ some s
      → lookup (legacy_ip client.ip) st.sessions ≡ some s
      → (target : Result SocketAddr) → get_target_addr env.parse_v6 s port udp ≡ target
      → IsSound st (send_to env client payload port (legacy_ip client.ip) s target st)
  send_to-IsSound s st h at found (err e) to = (h, tt)
  send_to-IsSound s st h at found panic to = (h, tt)
  send_to-IsSound s st h at found (ok target) to =
      send_on-IsSound s target (get_or_create_udp_socket env.bound s port client st.sockets) st h at
        to
        (get_or_create_udp_socket-IsReady env.bound s port client st.sockets
          (session-Serves client s st h found))

  pub key_by_addr-lem :
      (st : Store) → All IsByIp st.sessions → key_by_addr client st ≡ legacy_ip client.ip
  unfolding key_by_addr
  key_by_addr-lem st h = rw (key_by_addr, exact-absent client st.sessions h) refl

  pub proxy_packet_bidirectional-IsSound :
      (st : Store)
      → IsIsolated st
      → IsSound st (proxy_packet_bidirectional env client payload port st)
  unfolding proxy_packet_bidirectional get
  proxy_packet_bidirectional-IsSound st h =
      let by_ip = IsByIp-of_IsIsolated st h in
      elim (Option-cases (get_by_addr client st)) [
        | inl q ↦ rw (proxy_packet_bidirectional, q) (h, tt)
        | inr (s, q) ↦
            rw (proxy_packet_bidirectional, q, key_by_addr-lem st by_ip)
              (send_to-IsSound s st h q (sym (get_by_addr-lem client st by_ip) ∙ q)
                (get_target_addr env.parse_v6 s port udp) refl)
      ]
