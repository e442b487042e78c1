-- ===== src/Proxy/Holding.antt =====
-- proxy.rs: which sessions hold the running sockets after a packet and a connection.
use udp_director.Prelude.{
  ℕ, ◌≡◌, sym, ◌∙◌, inl, inr, some, List, nat_eq, pair_eq, Bool-cases, Option-cases, is_some,
}
use udp_director.Prelude.Maps.{lookup}
use udp_director.Result.{Result, ok, err, panic}
use udp_director.Net.{SocketAddr, Protocol, udp, tcp}
use udp_director.Config.{Config}
use udp_director.Session.{
  legacy_ip, key_eq, Sockets, Session, get_or_create_udp_socket, get_target_addr,
}
use udp_director.Session.Manager.{Store, get, get_by_addr}
use udp_director.Session.Homes.{IsIsolated}
use udp_director.Session.Held.{IsHeld, touch_by_addr-IsHeld, upsert_multi_port-IsHeld}
use udp_director.Session.Routes.{get_by_addr-lem}
use udp_director.Proxy.{
  Environment, ProxyState, Sent, send_on, send_to, proxy_packet_bidirectional, touched, then_send,
  handle_udp_data_packet, handle_first_packet, join, tcp_target, then_join, handle_tcp_connection,
  establish_default_session,
}
use udp_director.Proxy.Establish.{Step, establish_default_session-EndsWell}
use udp_director.Proxy.Handlers.{establish_default_session-IsGoodStep}
use udp_director.Proxy.Packets.{IfOk, IsByIp-of_IsIsolated, key_by_addr-lem}
use udp_director.Proxy.Bound.{HoldsAfter, get_or_create_udp_socket-HoldsAfter}

module _ (env : Environment) (client : SocketAddr) (payload : List ℕ) (port : ℕ) where
  send_on-IsHeld :
      (found : Result (ℕ × Session × Sockets)) (target : SocketAddr) (st : Store)
      → IsHeld st
      → IfOk (HoldsAfter client st) found
      → IsHeld (send_on env client payload port (legacy_ip client.ip) target found st).0
  send_on-IsHeld (ok (handle, s, ss)) target st held after = after
  send_on-IsHeld (err e) target st held after = held
  send_on-IsHeld panic target st held after = held

  send_to-IsHeld :
      (s : Session) (target : Result SocketAddr) (st : Store)
      → lookup (legacy_ip client.ip) st.sessions ≡ some s
      → IsHeld st
      → IsHeld (send_to env client payload port (legacy_ip client.ip) s target st).0
  send_to-IsHeld s (ok target) st found held =
      send_on-IsHeld (get_or_create_udp_socket env.bound s port client st.sockets) target st held
        (get_or_create_udp_socket-HoldsAfter client s st found held env.bound port)
  send_to-IsHeld s (err e) st found held = held
  send_to-IsHeld s panic st found held = held

  pub proxy_packet_bidirectional-IsHeld :
      (st : Store)
      → IsIsolated st
      → IsHeld st
      → IsHeld (proxy_packet_bidirectional env client payload port st).0
  unfolding proxy_packet_bidirectional get
  proxy_packet_bidirectional-IsHeld st h held =
      let by_ip = IsByIp-of_IsIsolated st h in
      elim (Option-cases (get_by_addr client st)) [
        | inl q ↦ rw (proxy_packet_bidirectional, q) held
        | inr (s, q) ↦
            rw (proxy_packet_bidirectional, q, key_by_addr-lem env client payload port st by_ip)
              (send_to-IsHeld s (get_target_addr env.parse_v6 s port udp) st
                (sym (get_by_addr-lem client st by_ip) ∙ q) held)
      ]

  touched-IsHeld :
      (r : Store × Result Sent) → IsHeld r.0 → IsHeld (touched env client payload port r).0
  touched-IsHeld (st, ok sent) held = touch_by_addr-IsHeld env.now client st held
  touched-IsHeld (st, err e) held = held
  touched-IsHeld (st, panic) held = held

  then_send-IsHeld :
      (r : Step)
      → IsIsolated r.0.store
      → IsHeld r.0.store
      → IsHeld (then_send env client payload port r).0.store
  then_send-IsHeld (st, ok _) h held = proxy_packet_bidirectional-IsHeld st.store h held
  then_send-IsHeld (st, err e) h held = held
  then_send-IsHeld (st, panic) h held = held

establish_default_session-IsHeld :
    (env : Environment) (config : Config) (client : SocketAddr) (port : ℕ) (protocol : Protocol)
    (st : ProxyState)
    → IsHeld st.store
    → IsHeld (establish_default_session env config client port protocol st).0.store
establish_default_session-IsHeld env config client port protocol st held =
    elim (establish_default_session-EndsWell env config client port protocol st) [
      | inl (_, (e, (has, store, balancer))) ↦
          rw store (upsert_multi_port-IsHeld env.now client e.0 e.1 st.store held)
      | inr (_, (store, balancer)) ↦ rw store held
    ]

pub handle_udp_data_packet-IsHeld :
    (env : Environment) (client : SocketAddr) (payload : List ℕ) (port : ℕ) (config : Config)
    (st : ProxyState)
    → IsIsolated st.store
    → IsHeld st.store
    → IsHeld (handle_udp_data_packet env client payload port config st).0.store
unfolding handle_udp_data_packet handle_first_packet
handle_udp_data_packet-IsHeld env client payload port config st h held =
    elim (Bool-cases (is_some (get_by_addr client st.store))) [
      | inl has ↦
          rw (handle_udp_data_packet, has)
            (touched-IsHeld env client payload port
              (proxy_packet_bidirectional env client payload port st.store)
              (proxy_packet_bidirectional-IsHeld env client payload port st.store h held))
      | inr lacks ↦
          rw (handle_udp_data_packet, lacks)
            (then_send-IsHeld env client payload port
              (establish_default_session env config client port udp st)
              (establish_default_session-IsGoodStep env client port udp config st h).0.0
              (establish_default_session-IsHeld env config client port udp st held))
    ]

join-IsHeld :
    (env : Environment) (client : SocketAddr) (port : ℕ) (target : Result SocketAddr)
    (st : ProxyState)
    → IsHeld st.store
    → IsHeld (join env client port target st).0.store
join-IsHeld env client port (ok target) st held = elim (Bool-cases env.connected) [
  | inl up ↦ rw up (touch_by_addr-IsHeld env.now client st.store held)
  | inr down ↦ rw down held
]
join-IsHeld env client port (err e) st held = held
join-IsHeld env client port panic st held = held

then_join-IsHeld :
    (env : Environment) (client : SocketAddr) (port : ℕ) (r : Step)
    → IsHeld r.0.store
    → IsHeld (then_join env client port r).0.store
then_join-IsHeld env client port (st, ok _) held =
    join-IsHeld env client port (tcp_target env client port (get_by_addr client st.store)) st held
then_join-IsHeld env client port (st, err e) held = held
then_join-IsHeld env client port (st, panic) held = held

pub handle_tcp_connection-IsHeld :
    (env : Environment) (client : SocketAddr) (port : ℕ) (config : Config) (st : ProxyState)
    → IsHeld st.store
    → IsHeld (handle_tcp_connection env client port config st).0.store
unfolding handle_tcp_connection
handle_tcp_connection-IsHeld env client port config st held =
    elim (Bool-cases (is_some (get_by_addr client st.store))) [
      | inl has ↦
          rw (handle_tcp_connection, has) (then_join-IsHeld env client port (st, ok tt) held)
      | inr lacks ↦
          rw (handle_tcp_connection, lacks)
            (then_join-IsHeld env client port
              (establish_default_session env config client port tcp st)
              (establish_default_session-IsHeld env config client port tcp st held))
    ]
