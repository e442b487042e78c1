-- ===== src/Proxy.antt =====
-- proxy.rs: the default endpoint with its cache, and the handlers of UDP packets and TCP connections.
-- A handler is one step: what other tasks do across its waits is not part of it.
pub mod Endpoint
pub mod Establish
pub mod Packets
pub mod Handlers
pub mod Holding
pub mod Bound
pub mod Table
pub mod Reach
pub mod SinglePort
pub mod Tests
use udp_director.Prelude.{
  ℕ, String, Bool, true, false, not, Option, none, some, List, [], ◌∷◌, ◌==◌, nat_eq, string_eq,
  pair_eq, if◌then◌else◌, is_some,
}
use udp_director.Prelude.Maps.{Map, lookup, insert, adjust, contains_key}
use udp_director.Result.{
  Result, ok, err, panic, ◌>>=◌, ◌>>◌, ensure, or_fail, unknown_resource_type,
  no_matching_resources, no_address_path, port_not_supported, no_session, send_failed,
  connect_failed,
}
use udp_director.Net.{SocketAddr, Protocol, udp, tcp, protocol_eq}
use udp_director.Config.{Config, DataPortConfig, ResourceMapping, get_data_ports, is_nil}
use udp_director.Kube.{Resource}
use udp_director.Kube.Select.{ListCall, status_query_of, query_resources}
use udp_director.Kube.Extract.{extract_address, extract_port, extract_ports}
use udp_director.Balancer.{LoadBalancer, select_backend, increment_session}
use udp_director.Session.{
  SessionKey, key_eq, Sockets, PortMappings, Session, get_or_create_udp_socket, get_target_addr,
}
use udp_director.Session.Manager.{Store, get_by_addr, key_by_addr, upsert_multi_port, touch_by_addr}

pub record DefaultEndpointCache : Type 0 where
  pub address : String
  pub port_mappings : PortMappings

pub record ProxyState : Type 0 where
  pub store : Store
  pub cache : Option DefaultEndpointCache
  pub balancer : LoadBalancer

-- What a handler meets outside the program: the API server, the clock, the system's sockets, whether
-- the peers of a joined connection have closed it, and the parser of an IPv6 address.
pub record Environment : Type 0 where
  pub list : ListCall
  pub now : ℕ
  pub bound : Bool
  pub delivered : Bool
  pub connected : Bool
  pub closed : Bool
  pub parse_v6 : String → Option SocketAddr

-- `DefaultEndpointCacheHandle::invalidate`
unfoldable pub invalidate : Option DefaultEndpointCache → Option DefaultEndpointCache
invalidate cache = none

abbrev add_named : Map String ℕ → DataPortConfig → Option ℕ → PortMappings → PortMappings
add_named ports p none mappings = mappings
add_named ports p (some target) mappings = insert (p.port, p.protocol) target mappings

-- The loops over the data ports: those that the resource names, and all with one target.
unfoldable pub named_mappings : Map String ℕ → List DataPortConfig → PortMappings → PortMappings
named_mappings ports [] mappings = mappings
named_mappings ports (p ∷ rest) mappings =
    named_mappings ports rest (add_named ports p (lookup p.name ports) mappings)

unfoldable pub same_mappings : ℕ → List DataPortConfig → PortMappings → PortMappings
same_mappings target [] mappings = mappings
same_mappings target (p ∷ rest) mappings =
    same_mappings target rest (insert (p.port, p.protocol) target mappings)

unfoldable pub endpoint_ports : Config → Resource → ResourceMapping → Result PortMappings
endpoint_ports config resource mapping = elim mapping.ports [
  | some configured ↦ do
    ports ← extract_ports resource configured
    ok (named_mappings ports (get_data_ports config) [])
  | none ↦ do
    port ← extract_port resource mapping.port_path mapping.port_name
    ok (same_mappings port (get_data_ports config) [])
]

unfoldable pub extract_endpoint_target_multi_port :
    Config → Resource → ResourceMapping → Result (String × PortMappings)
extract_endpoint_target_multi_port config resource mapping = do
  path ← or_fail mapping.address_path no_address_path
  address ← extract_address resource path mapping.address_type
  mappings ← endpoint_ports config resource mapping
  ok (address, mappings)

unfoldable pub query_default_endpoint :
    ListCall → Config → LoadBalancer → Result (String × PortMappings)
query_default_endpoint list config balancer = do
  let endpoint = config.default_endpoint
  mapping ←
      or_fail (lookup endpoint.resource_type config.resource_query_mapping) unknown_resource_type
  resources ←
      query_resources list endpoint.namespace mapping (status_query_of endpoint.status_query)
        endpoint.label_selector endpoint.annotation_selector
  ensure (not (is_nil resources)) no_matching_resources
  path ← or_fail mapping.address_path no_address_path
  selected ← select_backend balancer resources path mapping.address_type
  extract_endpoint_target_multi_port config selected mapping

-- The session is installed and counted.
unfoldable pub install : ℕ → SocketAddr → String → PortMappings → ProxyState → ProxyState
install now client address mappings st = record st {
  store = upsert_multi_port now client address mappings st.store;
  balancer = increment_session st.balancer address;
}

abbrev pub supports : ℕ → Protocol → PortMappings → Bool
supports port protocol mappings = contains_key (port, protocol) mappings

module _ (env : Environment) (config : Config) (client : SocketAddr) (port : ℕ)
    (protocol : Protocol) where
  unfoldable pub install_if_supported :
      String → PortMappings → ProxyState → ProxyState × Result (Unit {0})
  install_if_supported address mappings st =
      if supports port protocol mappings
      then (install env.now client address mappings st, ok tt)
      else (st, err port_not_supported)

  -- A cached endpoint without the port is asked for anew, and the answer is not cached.
  unfoldable pub with_cached :
      DefaultEndpointCache
      → Result (String × PortMappings)
      → ProxyState
      → ProxyState × Result (Unit {0})
  with_cached cache answer st =
      if supports port protocol cache.port_mappings
      then (install env.now client cache.address cache.port_mappings st, ok tt)
      else elim answer [
        | ok (address, mappings) ↦ install_if_supported address mappings st
        | err e ↦ (st, err e)
        | panic ↦ (st, panic)
      ]

  -- Without a cached endpoint the answer is cached, whether or not it has the port.
  unfoldable pub with_answer :
      Result (String × PortMappings) → ProxyState → ProxyState × Result (Unit {0})
  with_answer (ok (address, mappings)) st =
      install_if_supported address mappings
        (record st { cache = some (record { address = address; port_mappings = mappings }) })
  with_answer (err e) st = (st, err e)
  with_answer panic st = (st, panic)

  unfoldable pub establish_default_session : ProxyState → ProxyState × Result (Unit {0})
  establish_default_session st =
      let answer = query_default_endpoint env.list config st.balancer in
      elim st.cache [ some cache ↦ with_cached cache answer st | none ↦ with_answer answer st ]

pub record Sent : Type 0 where
  pub handle : ℕ
  pub target : SocketAddr
  pub payload : List ℕ

-- The session's entry is replaced and the socket is in the store before the packet is sent.
module _ (env : Environment) (client : SocketAddr) (payload : List ℕ) (port : ℕ) where
  abbrev pub send_on :
      SessionKey → SocketAddr → Result (ℕ × Session × Sockets) → Store → Store × Result Sent
  send_on key target (ok (handle, s, sockets)) st = (
    record { sessions = adjust key (λ _. s) st.sessions; sockets = sockets },
    if env.delivered
        then ok (record { handle = handle; target = target; payload = payload })
        else err send_failed,
  )
  send_on key target (err e) st = (st, err e)
  send_on key target panic st = (st, panic)

  abbrev pub send_to : SessionKey → Session → Result SocketAddr → Store → Store × Result Sent
  send_to key s (ok target) st =
      send_on key target (get_or_create_udp_socket env.bound s port client st.sockets) st
  send_to key s (err e) st = (st, err e)
  send_to key s panic st = (st, panic)

  abbrev pub send_by : SessionKey → Option Session → Store → Store × Result Sent
  send_by key none st = (st, err no_session)
  send_by key (some s) st = send_to key s (get_target_addr env.parse_v6 s port udp) st

  unfoldable pub proxy_packet_bidirectional : Store → Store × Result Sent
  proxy_packet_bidirectional st = send_by (key_by_addr client st) (get_by_addr client st) st

  -- The packet of a client with a session; the session is touched if the packet was sent.
  abbrev pub touched : Store × Result Sent → Store × Result Sent
  touched (st, ok sent) = (touch_by_addr env.now client st, ok sent)
  touched (st, err e) = (st, err e)
  touched (st, panic) = (st, panic)

  abbrev pub with_store : ProxyState → Store × Result Sent → ProxyState × Result Sent
  with_store st (store, r) = (record st { store = store }, r)

  abbrev pub then_send : ProxyState × Result (Unit {0}) → ProxyState × Result Sent
  then_send (st, ok _) = with_store st (proxy_packet_bidirectional st.store)
  then_send (st, err e) = (st, err e)
  then_send (st, panic) = (st, panic)

  unfoldable pub handle_first_packet : Config → ProxyState → ProxyState × Result Sent
  handle_first_packet config st =
      then_send (establish_default_session env config client port udp st)

  unfoldable pub handle_udp_data_packet : Config → ProxyState → ProxyState × Result Sent
  unfolding handle_first_packet
  handle_udp_data_packet config st =
      if is_some (get_by_addr client st.store)
      then with_store st (touched (proxy_packet_bidirectional st.store))
      else handle_first_packet config st

module _ (env : Environment) (client : SocketAddr) (port : ℕ) where
  -- The address that a TCP connection is joined to.
  abbrev pub tcp_target : Option Session → Result SocketAddr
  tcp_target none = err no_session
  tcp_target (some s) = get_target_addr env.parse_v6 s port tcp

  abbrev pub join : Result SocketAddr → ProxyState → ProxyState × Result SocketAddr
  join (ok target) st =
      if env.connected
      then (record st { store = touch_by_addr env.now client st.store }, ok target)
      else (st, err connect_failed)
  join (err e) st = (st, err e)
  join panic st = (st, panic)

  abbrev pub then_join : ProxyState × Result (Unit {0}) → ProxyState × Result SocketAddr
  then_join (st, ok _) = join (tcp_target (get_by_addr client st.store)) st
  then_join (st, err e) = (st, err e)
  then_join (st, panic) = (st, panic)

  unfoldable pub handle_tcp_connection : Config → ProxyState → ProxyState × Result SocketAddr
  handle_tcp_connection config st =
      if is_some (get_by_addr client st.store)
      then then_join (st, ok tt)
      else then_join (establish_default_session env config client port tcp st)
