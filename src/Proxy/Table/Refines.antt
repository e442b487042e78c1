-- ===== src/Proxy/Table/Refines.antt =====
-- session.rs and proxy.rs: the map of sessions with its sockets, and the table of routes.
use mathlib.Core.Path.{fun_ext}
use udp_director.Prelude.{
  ℕ, ◌≡◌, refl, sym, ap, ◌∙◌, inl, inr, String, Bool, some, List, [], ◌∷◌, arith, ◌==◌, nat_eq,
  pair_eq, Bool-cases, Option-cases,
}
use udp_director.Prelude.Maps.{lookup, adjust, lookup-adjust}
use udp_director.Result.{Result, ok, err, panic}
use udp_director.Net.{IpAddr, ip_eq, ip_beq_iff, SocketAddr, udp}
use udp_director.Session.{
  legacy_ip, key_eq, Sockets, PortMappings, Session, get_or_create_udp_socket, get_target_addr,
  new_multi_port, is_timed_out, touch_session,
}
use udp_director.Session.Manager.{
  Store, SessionManager, get, get_by_addr, upsert_multi_port, touch, touch_by_addr, cleanup,
  clear_all,
}
use udp_director.Session.Homes.{
  IsIsolated, upsert_multi_port-IsIsolated, touch_by_addr-IsIsolated, cleanup-IsIsolated,
}
use udp_director.Session.Cleanup.{lookup-cleanup}
use udp_director.Session.Routes.{get_by_addr-lem, exact-absent, lookup-upsert_multi_port}
use udp_director.Proxy.{Environment, send_on, send_to, proxy_packet_bidirectional}
use udp_director.Proxy.Packets.{
  IfOk, IsByIp-of_IsIsolated, key_by_addr-lem, proxy_packet_bidirectional-IsSound,
}
use udp_director.Proxy.Table.{
  route_of, view, Operation, upserted, touched, forwarded, cleaned, cleared, perform, specified,
  run_store, run_table,
}

upserted-view :
    (manager : SessionManager) (now : ℕ) (client : SocketAddr) (target : String)
    (ports : PortMappings) (st : Store) (ip : IpAddr)
    → view (upsert_multi_port now client target ports st) ip
      ≡ specified manager (upserted now client target ports) (view st) ip
unfolding new_multi_port
upserted-view manager now client target ports st ip =
    rw (lookup-upsert_multi_port now client target ports (legacy_ip ip) st) (ground arith)

touched-view :
    (manager : SessionManager) (now : ℕ) (client : SocketAddr) (st : Store) (ip : IpAddr)
    → IsIsolated st
    → view (touch_by_addr now client st) ip ≡ specified manager (touched now client) (view st) ip
unfolding touch_by_addr touch touch_session
touched-view manager now client st ip h =
    rw
      (
        touch_by_addr,
        exact-absent client st.sessions (IsByIp-of_IsIsolated st h),
        lookup-adjust (legacy_ip client.ip) (legacy_ip ip) (touch_session now) st.sessions,
      )
      (ground arith)

cleaned-view :
    (manager : SessionManager) (now : ℕ) (st : Store) (ip : IpAddr)
    → IsIsolated st
    → view (cleanup manager now st).0 ip ≡ specified manager (cleaned now) (view st) ip
unfolding is_timed_out
cleaned-view manager now st ip (distinct, _) =
    elim (Option-cases (lookup (legacy_ip ip) st.sessions)) [
      | inl q ↦ rw (lookup-cleanup manager now (legacy_ip ip) st distinct, q) refl
      | inr (s, q) ↦ rw (lookup-cleanup manager now (legacy_ip ip) st distinct, q) (ground arith)
    ]

-- A store whose session of one address was replaced by one with the same route.
same_route-view :
    (client : SocketAddr) (s s' : Session) (st : Store) (ss : Sockets) (ip : IpAddr)
    → lookup (legacy_ip client.ip) st.sessions ≡ some s
    → route_of s' ≡ route_of s
    → view
        (record { sessions = adjust (legacy_ip client.ip) (λ _. s') st.sessions; sockets = ss })
        ip
      ≡ view st ip
same_route-view client s s' st ss ip found same = elim (Bool-cases (client.ip == ip)) [
  | inl here ↦
      let at : lookup (legacy_ip ip) st.sessions ≡ some s =
        rw (← (ip_beq_iff client.ip ip).0 here) found in
      rw (lookup-adjust (legacy_ip client.ip) (legacy_ip ip) (λ _. s') st.sessions, here, at, same)
        refl
  | inr other ↦
      rw (lookup-adjust (legacy_ip client.ip) (legacy_ip ip) (λ _. s') st.sessions, other) refl
]

get_or_create_udp_socket-route :
    (bound : Bool) (s : Session) (port : ℕ) (client : SocketAddr) (ss : Sockets)
    → IfOk (λ r. route_of r.1 ≡ route_of s) (get_or_create_udp_socket bound s port client ss)
unfolding get_or_create_udp_socket
get_or_create_udp_socket-route bound s port client ss =
    elim (Option-cases (lookup (port, client.port) s.udp_sockets)) [
      | inr (handle, q) ↦ rw (get_or_create_udp_socket, q) refl
      | inl q ↦ elim (Bool-cases bound) [
        | inl b ↦ rw (get_or_create_udp_socket, q, b) refl
        | inr b ↦ rw (get_or_create_udp_socket, q, b) tt
      ]
    ]

module _ (env : Environment) (client : SocketAddr) (payload : List ℕ) (port : ℕ) (ip : IpAddr) where
  send_on-view :
      (s : Session) (target : SocketAddr) (found : Result (ℕ × Session × Sockets)) (st : Store)
      → lookup (legacy_ip client.ip) st.sessions ≡ some s
      → IfOk (λ r. route_of r.1 ≡ route_of s) found
      → view (send_on env client payload port (legacy_ip client.ip) target found st).0 ip
        ≡ view st ip
  send_on-view s target (ok (handle, s', ss)) st at same =
      same_route-view client s s' st ss ip at same
  send_on-view s target (err e) st at same = refl
  send_on-view s target panic st at same = refl

  send_to-view :
      (s : Session) (target : Result SocketAddr) (st : Store)
      → lookup (legacy_ip client.ip) st.sessions ≡ some s
      → view (send_to env client payload port (legacy_ip client.ip) s target st).0 ip ≡ view st ip
  send_to-view s (ok target) st at =
      send_on-view s target (get_or_create_udp_socket env.bound s port client st.sockets) st at
        (get_or_create_udp_socket-route env.bound s port client st.sockets)
  send_to-view s (err e) st at = refl
  send_to-view s panic st at = refl

  forwarded-view :
      (st : Store)
      → IsIsolated st
      → view (proxy_packet_bidirectional env client payload port st).0 ip ≡ view st ip
  unfolding proxy_packet_bidirectional get
  forwarded-view st h =
      let by_ip = IsByIp-of_IsIsolated st h in
      elim (Option-cases (get_by_addr client st)) [
        | inl q ↦ rw (proxy_packet_bidirectional, q) refl
        | inr (s, q) ↦
            rw (proxy_packet_bidirectional, q, key_by_addr-lem env client payload port st by_ip)
              (send_to-view s (get_target_addr env.parse_v6 s port udp) st
                (sym (get_by_addr-lem client st by_ip) ∙ q))
      ]

perform-view :
    (manager : SessionManager) (op : Operation) (st : Store) (ip : IpAddr)
    → IsIsolated st
    → view (perform manager op st) ip ≡ specified manager op (view st) ip
unfolding clear_all lookup
perform-view manager (upserted now client target ports) st ip h =
    upserted-view manager now client target ports st ip
perform-view manager (touched now client) st ip h = touched-view manager now client st ip h
perform-view manager (forwarded env client payload port) st ip h =
    forwarded-view env client payload port ip st h
perform-view manager (cleaned now) st ip h = cleaned-view manager now st ip h
perform-view manager cleared st ip h = refl

pub perform-IsIsolated :
    (manager : SessionManager) (op : Operation) (st : Store)
    → IsIsolated st
    → IsIsolated (perform manager op st)
unfolding clear_all
perform-IsIsolated manager (upserted now client target ports) st h =
    upsert_multi_port-IsIsolated now client target ports st h
perform-IsIsolated manager (touched now client) st h = touch_by_addr-IsIsolated now client st h
perform-IsIsolated manager (forwarded env client payload port) st h =
    (proxy_packet_bidirectional-IsSound env client payload port st h).0
perform-IsIsolated manager (cleaned now) st h = cleanup-IsIsolated manager now st h
perform-IsIsolated manager cleared st h = (tt, tt)

-- From an isolated store, every sequence of operations does to the table that the store stands for
-- what it is specified to do: an upsert sets the route of the client's IP, a touch its time, a packet
-- nothing, a round of the cleanup drops the routes that are idle for more than the timeout, and
-- clearing drops all.
pub run_store-refines :
    (manager : SessionManager) (ops : List Operation) (st : Store)
    → IsIsolated st
    → view (run_store manager ops st) ≡ run_table manager ops (view st)
run_store-refines manager [] st h = refl
run_store-refines manager (op ∷ ops) st h =
    run_store-refines manager ops (perform manager op st) (perform-IsIsolated manager op st h)
    ∙ ap (run_table manager ops) (fun_ext (λ ip. perform-view manager op st ip h))
