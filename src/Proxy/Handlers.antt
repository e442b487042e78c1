-- ===== src/Proxy/Handlers.antt =====
-- proxy.rs: the handlers of a UDP packet and of a TCP connection, from the session to the socket.
use udp_director.Prelude.{
  ℕ, String, ◌≡◌, refl, ◌⊎◌, inl, inr, true, List, nat_eq, pair_eq, Bool-cases, Option-cases,
  is_some, Option, none, some,
}
use udp_director.Prelude.Maps.{lookup}
use udp_director.Result.{Result, ok, err, panic}
use udp_director.Net.{SocketAddr, Protocol, protocol_eq, udp, tcp}
use udp_director.Config.{Config}
use udp_director.Balancer.{LoadBalancer, increment_session}
use udp_director.Session.{PortMappings, exact_socket, key_eq, Session, get_target_addr}
use udp_director.Session.Manager.{Store, get_by_addr, upsert_multi_port, touch, touch_by_addr}
use udp_director.Session.Homes.{IsIsolated, upsert_multi_port-IsIsolated, touch_by_addr-IsIsolated}
use udp_director.Proxy.{
  ProxyState, Environment, Sent, supports, establish_default_session, proxy_packet_bidirectional,
  touched, with_store, then_send, handle_first_packet, handle_udp_data_packet, tcp_target, join,
  then_join, handle_tcp_connection,
}
use udp_director.Proxy.Establish.{Step, establish_default_session-EndsWell}
use udp_director.Proxy.Packets.{IfOk, IsRouted, IsSound, proxy_packet_bidirectional-IsSound}

touch_by_addr-sockets :
    (now : ℕ) (client : SocketAddr) (st : Store)
    → (touch_by_addr now client st).sockets ≡ st.sockets
unfolding touch_by_addr touch
touch_by_addr-sockets now client st =
    elim (Option-cases (lookup (exact_socket client) st.sessions)) [
      | inl q ↦ rw (touch_by_addr, q) refl
      | inr (s, q) ↦ rw (touch_by_addr, q) refl
    ]

-- The counts are the same, or one session more is counted.
abbrev pub CountsOneAtMost : LoadBalancer → LoadBalancer → Type 0
CountsOneAtMost lb lb' = (lb' ≡ lb) ⊎ ((address : String) × (lb' ≡ increment_session lb address))

module _ (env : Environment) (client : SocketAddr) (port : ℕ) (protocol : Protocol) where
  -- The store that a handler goes on with is the one it met, or has a session of the client for an
  -- endpoint with the port.
  abbrev pub IsMet : Store → Store → Type 0
  IsMet st before =
      (before ≡ st)
      ⊎ ((e : String × PortMappings) × (supports port protocol e.1 ≡ true)
          × (before ≡ upsert_multi_port env.now client e.0 e.1 st))

  abbrev pub IsGoodStep : ProxyState → ProxyState → Type 0
  IsGoodStep st st' = IsIsolated st'.store × CountsOneAtMost st.balancer st'.balancer

  pub establish_default_session-IsGoodStep :
      (config : Config) (st : ProxyState)
      → IsIsolated st.store
      → (let st' = (establish_default_session env config client port protocol st).0 in
          IsGoodStep st st' × IsMet st.store st'.store)
  establish_default_session-IsGoodStep config st h =
      elim (establish_default_session-EndsWell env config client port protocol st) [
        | inl (_, (e, (has, store, balancer))) ↦ (
          (
            rw store (upsert_multi_port-IsIsolated env.now client e.0 e.1 st.store h),
            inr (e.0, balancer),
          ),
          inr (e, has, store),
        )
        | inr (_, (store, balancer)) ↦ ((rw store h, inl balancer), inl store)
      ]

module _ (env : Environment) (client : SocketAddr) (payload : List ℕ) (port : ℕ) where
  -- A handler of a packet ends in an isolated store, with one session more counted at most, and where it
  -- sent the packet, it did so through a socket of the client for the port, to where the session that it
  -- met or installed leads.
  abbrev pub IsHandled : ProxyState → ProxyState × Result Sent → Type 0
  IsHandled st (st', r) =
      IsGoodStep env client port udp st st'
      × IfOk
          (λ sent.
            (before : Store) × IsMet env client port udp st.store before
            × IsRouted env client payload port before st'.store sent)
          r

  abbrev IsRoutedFrom : Store → Store × Result Sent → Type 0
  IsRoutedFrom st (st', r) = IfOk (IsRouted env client payload port st st') r

  touched-IsSound :
      (st : Store) (r : Store × Result Sent)
      → IsSound env client payload port st r
      → IsSound env client payload port st (touched env client payload port r)
  touched-IsSound st (st', ok sent) (h, (s, at, to, body, serves)) = (
    touch_by_addr-IsIsolated env.now client st' h,
    (s, at, to, body, rw (touch_by_addr-sockets env.now client st') serves),
  )
  touched-IsSound st (st', err e) h = h
  touched-IsSound st (st', panic) h = h

  with_store-IsHandled :
      (st : ProxyState) (before : ProxyState) (r : Store × Result Sent)
      → CountsOneAtMost st.balancer before.balancer
      → IsMet env client port udp st.store before.store
      → IsSound env client payload port before.store r
      → IsHandled st (with_store env client payload port before r)
  with_store-IsHandled st before (st', ok sent) counts met (h, routed) =
      ((h, counts), (before.store, met, routed))
  with_store-IsHandled st before (st', err e) counts met (h, _) = ((h, counts), tt)
  with_store-IsHandled st before (st', panic) counts met (h, _) = ((h, counts), tt)

  then_send-IsHandled :
      (st : ProxyState) (r : Step)
      → IsGoodStep env client port udp st r.0 × IsMet env client port udp st.store r.0.store
      → IsHandled st (then_send env client payload port r)
  then_send-IsHandled st (before, ok _) ((h, counts), met) =
      with_store-IsHandled st before
        (proxy_packet_bidirectional env client payload port before.store) counts met
        (proxy_packet_bidirectional-IsSound env client payload port before.store h)
  then_send-IsHandled st (before, err e) (good, met) = (good, tt)
  then_send-IsHandled st (before, panic) (good, met) = (good, tt)

-- From an isolated store, a UDP packet leaves the store isolated and counts at most one session more;
-- if it is sent, then whole, over a live socket of this client for this data port, to the target that
-- the client's session, old or newly installed for an endpoint that serves the port, has for the port.
pub handle_udp_data_packet-IsHandled :
    (env : Environment) (client : SocketAddr) (payload : List ℕ) (port : ℕ) (config : Config)
    (st : ProxyState)
    → IsIsolated st.store
    → IsHandled env client payload port st
        (handle_udp_data_packet env client payload port config st)
unfolding handle_udp_data_packet handle_first_packet
handle_udp_data_packet-IsHandled env client payload port config st h =
    elim (Bool-cases (is_some (get_by_addr client st.store))) [
      | inl has ↦
          rw (handle_udp_data_packet, has)
            (with_store-IsHandled env client payload port st st
              (touched env client payload port
                (proxy_packet_bidirectional env client payload port st.store))
              (inl refl) (inl refl)
              (touched-IsSound env client payload port st.store
                (proxy_packet_bidirectional env client payload port st.store)
                (proxy_packet_bidirectional-IsSound env client payload port st.store h)))
      | inr lacks ↦
          rw (handle_udp_data_packet, lacks)
            (then_send-IsHandled env client payload port st
              (establish_default_session env config client port udp st)
              (establish_default_session-IsGoodStep env client port udp config st h))
    ]

module _ (env : Environment) (client : SocketAddr) (port : ℕ) where
  -- A TCP connection is joined to where the session that was met or installed leads for TCP.
  abbrev pub IsJoined : ProxyState → ProxyState × Result SocketAddr → Type 0
  IsJoined st (st', r) =
      IsGoodStep env client port tcp st st'
      × IfOk
          (λ target.
            (before : Store) × IsMet env client port tcp st.store before
            × ((s : Session) × (get_by_addr client before ≡ some s)
                × (get_target_addr env.parse_v6 s port tcp ≡ ok target)))
          r

  tcp_target-Session :
      (found : Option Session) (target : SocketAddr)
      → tcp_target env client port found ≡ ok target
      → (s : Session) × (found ≡ some s) × (get_target_addr env.parse_v6 s port tcp ≡ ok target)
  tcp_target-Session none target h = absurd cc
  tcp_target-Session (some s) target h = (s, refl, h)

  join-IsJoined :
      (st before : ProxyState) (target : Result SocketAddr)
      → IsGoodStep env client port tcp st before
      → IsMet env client port tcp st.store before.store
      → tcp_target env client port (get_by_addr client before.store) ≡ target
      → IsJoined st (join env client port target before)
  join-IsJoined st before (err e) good met to = (good, tt)
  join-IsJoined st before panic good met to = (good, tt)
  join-IsJoined st before (ok target) (h, counts) met to = elim (Bool-cases env.connected) [
    | inl up ↦ rw up (
      (touch_by_addr-IsIsolated env.now client before.store h, counts),
      (before.store, met, tcp_target-Session (get_by_addr client before.store) target to),
    )
    | inr down ↦ rw down ((h, counts), tt)
  ]

  then_join-IsJoined :
      (st : ProxyState) (r : Step)
      → IsGoodStep env client port tcp st r.0 × IsMet env client port tcp st.store r.0.store
      → IsJoined st (then_join env client port r)
  then_join-IsJoined st (before, ok _) (good, met) =
      join-IsJoined st before (tcp_target env client port (get_by_addr client before.store)) good
        met refl
  then_join-IsJoined st (before, err e) (good, met) = (good, tt)
  then_join-IsJoined st (before, panic) (good, met) = (good, tt)

-- From an isolated store, a TCP connection leaves the store isolated and counts at most one session
-- more; if it is joined, then to the target for TCP and the port of the client's session, old or newly
-- installed for an endpoint that serves the port.
pub handle_tcp_connection-IsJoined :
    (env : Environment) (client : SocketAddr) (port : ℕ) (config : Config) (st : ProxyState)
    → IsIsolated st.store
    → IsJoined env client port st (handle_tcp_connection env client port config st)
unfolding handle_tcp_connection
handle_tcp_connection-IsJoined env client port config st h =
    elim (Bool-cases (is_some (get_by_addr client st.store))) [
      | inl has ↦
          rw (handle_tcp_connection, has)
            (then_join-IsJoined env client port st (st, ok tt) ((h, inl refl), inl refl))
      | inr lacks ↦
          rw (handle_tcp_connection, lacks)
            (then_join-IsJoined env client port st
              (establish_default_session env config client port tcp st)
              (establish_default_session-IsGoodStep env client port tcp config st h))
    ]
