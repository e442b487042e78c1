-- ===== src/Tasks/Detached.antt =====
-- session.rs: handles that no session holds any more, as those of a session between its removal and the
-- end of its sockets.
use udp_director.Prelude.{
  ℕ, zero, suc, ◌<◌, ◌≡◌, refl, sym, ap, ◌∙◌, inl, inr, String, Bool, false, some, List, [], ◌∷◌,
  arith, ◌==◌, nat_eq, pair_eq, length, get_elem?, All, Bool-cases, Option-cases, nat_beq_iff,
  length-append,
}
use udp_director.Prelude.Maps.{
  Map, lookup, insert, remove, All-insert, All-remove, All-adjust, All-lookup,
}
use udp_director.Result.{Result, ok, err, panic}
use udp_director.Net.{SocketAddr, udp}
use udp_director.Session.{
  SessionKey, legacy_ip, exact_socket, key_eq, SessionSocket, Sockets, PortMappings, Session,
  new_multi_port, shutdown, shutdown_each, shutdown_sockets, touch_session,
  get_or_create_udp_socket, get_target_addr,
}
use udp_director.Session.Manager.{Store, get, shutdown_entry, touch, touch_by_addr, get_by_addr}
use udp_director.Session.Homes.{IsIsolated}
use udp_director.Session.Routes.{get_by_addr-lem}
use udp_director.Proxy.{Environment, send_on, send_to, proxy_packet_bidirectional}
use udp_director.Proxy.Packets.{IfOk, IsByIp-of_IsIsolated, key_by_addr-lem}

abbrev pub Avoids : ℕ → SessionKey × Session → Type 0
Avoids h (key, s) = All (λ e. (e.1 == h) ≡ false) s.udp_sockets

abbrev pub IsDetached : Store → ℕ → Type 0
IsDetached st h = (h < length st.sockets) × All (Avoids h) st.sessions

length-shutdown : (h : ℕ) (ss : Sockets) → length (shutdown h ss) ≡ length ss
unfolding shutdown
length-shutdown h [] = refl
length-shutdown zero (s ∷ ss) = refl
length-shutdown (suc h) (s ∷ ss) = ap suc (length-shutdown h ss)

length-shutdown_each : (m : Map (ℕ × ℕ) ℕ) (ss : Sockets) → length (shutdown_each m ss) ≡ length ss
unfolding shutdown_each
length-shutdown_each [] ss = refl
length-shutdown_each ((key, h) ∷ m) ss =
    length-shutdown_each m (shutdown h ss) ∙ length-shutdown h ss

pub get_elem?-bound :
    (ss : Sockets) (h : ℕ) (s : SessionSocket) → get_elem? ss h ≡ some s → h < length ss
get_elem?-bound [] h s q = absurd (ground (arith, q))
get_elem?-bound (x ∷ ss) zero s q = omega arith
get_elem?-bound (x ∷ ss) (suc h) s q = omega (arith, get_elem?-bound ss h s q)

pub shutdown-IsDetached :
    (other h : ℕ) (st : Store)
    → IsDetached st h
    → IsDetached (record st { sockets = shutdown other st.sockets }) h
shutdown-IsDetached other h st (lt, avoids) = (rw (length-shutdown other st.sockets) lt, avoids)

pub shutdown_entry-IsDetached :
    (key : SessionKey) (h : ℕ) (st : Store) → IsDetached st h → IsDetached (shutdown_entry key st) h
unfolding shutdown_entry shutdown_sockets
shutdown_entry-IsDetached key h st (lt, avoids) = elim (Option-cases (lookup key st.sessions)) [
  | inl q ↦ rw (shutdown_entry, q) (lt, avoids)
  | inr (old, q) ↦
      rw (shutdown_entry, q)
        (
          rw (length-shutdown_each old.udp_sockets st.sockets) lt,
          All-adjust (Avoids h) key (λ s. (shutdown_sockets s st.sockets).0) st.sessions
              (λ i w p. tt) avoids,
        )
]

pub insert-IsDetached :
    (now : ℕ) (key : SessionKey) (target : String) (ports : PortMappings) (h : ℕ) (st : Store)
    → IsDetached st h
    → IsDetached
        (record st { sessions = insert key (new_multi_port now target ports) st.sessions })
        h
unfolding new_multi_port
insert-IsDetached now key target ports h st (lt, avoids) =
    (lt, All-insert (Avoids h) key (new_multi_port now target ports) st.sessions tt avoids)

pub remove-IsDetached :
    (key : SessionKey) (h : ℕ) (st : Store)
    → IsDetached st h
    → IsDetached (record st { sessions = remove key st.sessions }) h
remove-IsDetached key h st (lt, avoids) = (lt, All-remove (Avoids h) key st.sessions avoids)

pub touch_by_addr-IsDetached :
    (now : ℕ) (client : SocketAddr) (h : ℕ) (st : Store)
    → IsDetached st h
    → IsDetached (touch_by_addr now client st) h
unfolding touch_by_addr touch touch_session
touch_by_addr-IsDetached now client h st (lt, avoids) =
    elim (Option-cases (lookup (exact_socket client) st.sessions)) [
      | inl q ↦
          rw (touch_by_addr, q)
            (
              lt,
              All-adjust (Avoids h) (legacy_ip client.ip) (touch_session now) st.sessions
                  (λ i w p. p) avoids,
            )
      | inr (s, q) ↦
          rw (touch_by_addr, q)
            (
              lt,
              All-adjust (Avoids h) (exact_socket client) (touch_session now) st.sessions
                  (λ i w p. p) avoids,
            )
    ]

-- A socket that is found or bound for a session that avoids a bound handle.
abbrev StaysAway : ℕ → SessionKey → ℕ × Session × Sockets → Type 0
StaysAway h key (handle, s, ss) = (h < length ss) × Avoids h (key, s)

get_or_create_udp_socket-StaysAway :
    (bound : Bool) (s : Session) (port : ℕ) (client : SocketAddr) (ss : Sockets) (h : ℕ)
    (key : SessionKey)
    → h < length ss
    → Avoids h (key, s)
    → IfOk (StaysAway h key) (get_or_create_udp_socket bound s port client ss)
unfolding get_or_create_udp_socket
get_or_create_udp_socket-StaysAway bound s port client ss h key lt avoids =
    elim (Option-cases (lookup (port, client.port) s.udp_sockets)) [
      | inr (handle, q) ↦ rw (get_or_create_udp_socket, q) (lt, avoids)
      | inl q ↦ elim (Bool-cases bound) [
        | inr b ↦ rw (get_or_create_udp_socket, q, b) tt
        | inl b ↦
            let new : SessionSocket = record {
              client = client;
              proxy_port = port;
              shutdown = false;
            } in
            rw (get_or_create_udp_socket, q, b)
              (
                omega (arith, lt, length-append ss (new ∷ [])),
                All-insert (λ e. (e.1 == h) ≡ false) (port, client.port) (length ss) s.udp_sockets
                    (ground (arith, lt, nat_beq_iff (length ss) h)) avoids,
              )
      ]
    ]

module _ (env : Environment) (client : SocketAddr) (payload : List ℕ) (port : ℕ) (h : ℕ) where
  send_on-IsDetached :
      (key : SessionKey) (target : SocketAddr) (found : Result (ℕ × Session × Sockets)) (st : Store)
      → IsDetached st h
      → IfOk (StaysAway h key) found
      → IsDetached (send_on env client payload port key target found st).0 h
  send_on-IsDetached key target (ok (handle, s, ss)) st (lt, avoids) (lt', away) =
      (lt', All-adjust (Avoids h) key (λ _. s) st.sessions (λ i w p. away) avoids)
  send_on-IsDetached key target (err e) st d away = d
  send_on-IsDetached key target panic st d away = d

  send_to-IsDetached :
      (key : SessionKey) (s : Session) (target : Result SocketAddr) (st : Store)
      → IsDetached st h
      → Avoids h (key, s)
      → IsDetached (send_to env client payload port key s target st).0 h
  send_to-IsDetached key s (ok target) st d away =
      send_on-IsDetached key target (get_or_create_udp_socket env.bound s port client st.sockets) st
        d (get_or_create_udp_socket-StaysAway env.bound s port client st.sockets h key d.0 away)
  send_to-IsDetached key s (err e) st d away = d
  send_to-IsDetached key s panic st d away = d

  pub proxy_packet_bidirectional-IsDetached :
      (st : Store)
      → IsIsolated st
      → IsDetached st h
      → IsDetached (proxy_packet_bidirectional env client payload port st).0 h
  unfolding proxy_packet_bidirectional get
  proxy_packet_bidirectional-IsDetached st iso d =
      let by_ip = IsByIp-of_IsIsolated st iso in
      elim (Option-cases (get_by_addr client st)) [
        | inl q ↦ rw (proxy_packet_bidirectional, q) d
        | inr (s, q) ↦
            rw (proxy_packet_bidirectional, q, key_by_addr-lem env client payload port st by_ip)
              (send_to-IsDetached (legacy_ip client.ip) s (get_target_addr env.parse_v6 s port udp)
                st d
                (All-lookup (Avoids h) (legacy_ip client.ip) s st.sessions d.1
                  (sym (get_by_addr-lem client st by_ip) ∙ q)))
      ]
