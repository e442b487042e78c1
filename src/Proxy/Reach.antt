-- ===== src/Proxy/Reach.antt =====
-- proxy.rs: what comes in on a data port of a client whose session is new.
use udp_director.Prelude.{
  ℕ, ◌≡◌, refl, String, some, List, arith, nat_eq, string_eq, pair_eq, if◌then◌else◌, length,
}
use udp_director.Prelude.Maps.{lookup}
use udp_director.Result.{
  Result, ok, err, panic, ◌>>=◌, or_fail, invalid_socket_address, bind_failed, send_failed,
  connect_failed,
}
use udp_director.Net.{SocketAddr, Protocol, udp, tcp, protocol_eq, socket_addr}
use udp_director.Config.{Config}
use udp_director.Session.{
  SessionKey, PortMappings, new_multi_port, get_target_addr, get_or_create_udp_socket,
}
use udp_director.Session.Manager.{Store, get_by_addr, key_by_addr}
use udp_director.Proxy.{
  Environment, ProxyState, Sent, send_on, send_to, touched, proxy_packet_bidirectional,
  handle_udp_data_packet, handle_tcp_connection, join,
}

-- A port of an assignment's address, as a socket address.
abbrev pub address_of : Environment → String → ℕ → Result SocketAddr
address_of env ip target = or_fail (socket_addr env.parse_v6 ip target) invalid_socket_address

-- A datagram for that address, over the first socket of a session.
abbrev pub sent_to : Environment → ℕ → List ℕ → SocketAddr → Result Sent
sent_to env handle payload to =
    if env.bound
    then (if env.delivered
        then ok (record { handle = handle; target = to; payload = payload })
        else err send_failed)
    else err bind_failed

abbrev pub joined_to : Environment → SocketAddr → Result SocketAddr
joined_to env to = if env.connected then ok to else err connect_failed

module _ (env : Environment) (config : Config) (client : SocketAddr) (payload : List ℕ) (port : ℕ)
    (ip : String) (target : ℕ) where
  -- What comes in on a data port goes to the address and the port, or fails as the sockets do.
  abbrev pub Reaches : Protocol → ProxyState → Type 0
  Reaches udp st =
      (handle_udp_data_packet env client payload port config st).1
      ≡ (address_of env ip target >>= sent_to env (length st.store.sockets) payload)
  Reaches tcp st =
      (handle_tcp_connection env client port config st).1
      ≡ (address_of env ip target >>= joined_to env)

  module _ (now : ℕ) (routes : PortMappings) where
    get_target_addr-new :
        (protocol : Protocol)
        → lookup (port, protocol) routes ≡ some target
        → get_target_addr env.parse_v6 (new_multi_port now ip routes) port protocol
          ≡ address_of env ip target
    unfolding get_target_addr new_multi_port
    get_target_addr-new protocol q = rw (get_target_addr, q) refl

    send_on-first :
        (key : SessionKey) (to : SocketAddr) (st : Store)
        → (send_on env client payload port key to
            (get_or_create_udp_socket env.bound
              (new_multi_port now ip routes)
              port
              client
              st.sockets)
            st).1
          ≡ sent_to env (length st.sockets) payload to
    unfolding get_or_create_udp_socket new_multi_port lookup
    send_on-first key to st = ground arith

    send_to-first :
        (key : SessionKey) (r : Result SocketAddr) (st : Store)
        → (send_to env client payload port key (new_multi_port now ip routes) r st).1
          ≡ (r >>= sent_to env (length st.sockets) payload)
    send_to-first key (ok to) st = send_on-first key to st
    send_to-first key (err e) st = refl
    send_to-first key panic st = refl

    touched-same : (out : Store × Result Sent) → (touched env client payload port out).1 ≡ out.1
    touched-same (st, ok sent) = refl
    touched-same (st, err e) = refl
    touched-same (st, panic) = refl

    join-same :
        (r : Result SocketAddr) (st : ProxyState)
        → (join env client port r st).1 ≡ (r >>= joined_to env)
    join-same (ok to) st = ground arith
    join-same (err e) st = refl
    join-same panic st = refl

    pub new-Reaches :
        (protocol : Protocol) (st : ProxyState)
        → get_by_addr client st.store ≡ some (new_multi_port now ip routes)
        → lookup (port, protocol) routes ≡ some target
        → Reaches protocol st
    unfolding handle_udp_data_packet handle_tcp_connection proxy_packet_bidirectional
    new-Reaches udp st q routed =
        let to = get_target_addr env.parse_v6 (new_multi_port now ip routes) port udp in
        let key = key_by_addr client st.store in
        rw
          (
            handle_udp_data_packet,
            q,
            touched-same
                (send_to env client payload port key (new_multi_port now ip routes) to st.store),
            send_to-first key to st.store,
            get_target_addr-new udp routed,
          )
          refl
    new-Reaches tcp st q routed =
        rw
          (
            handle_tcp_connection,
            q,
            join-same (get_target_addr env.parse_v6 (new_multi_port now ip routes) port tcp) st,
            get_target_addr-new tcp routed,
          )
          refl
