-- ===== src/Proxy/Tests.antt =====
-- proxy.rs: the handlers on sample packets and connections.
use udp_director.Prelude.{
  ◌≡◌, refl, List, sort_by, ℕ, ◌*◌, none, false, List, [], ◌∷◌, pair_eq, nat_eq,
}
use udp_director.Result.{ok}
use udp_director.Net.{udp, tcp, protocol_eq}
use udp_director.Config.{least_sessions}
use udp_director.Balancer.{new}
use udp_director.Session.Homes.{IsIsolated, upsert_multi_port-IsIsolated}
use udp_director.Proxy.{
  ProxyState, establish_default_session, handle_udp_data_packet, handle_tcp_connection,
}
use udp_director.Proxy.Establish.{EndsWell, establish_default_session-EndsWell}
use udp_director.Proxy.Handlers.{
  IsHandled, IsJoined, handle_udp_data_packet-IsHandled, handle_tcp_connection-IsJoined,
}
use udp_director.Proxy.{query_default_endpoint}
use udp_director.Proxy.Endpoint.{IsEndpoint, query_default_endpoint-IsEndpoint}
use udp_director.Prelude.Maps.{lookup, insert}
use udp_director.Text.{split, cut}
use udp_director.Json.{get_field}
use udp_director.Config.{get_data_ports}
use udp_director.Kube.Path.{extract_json_path}
use udp_director.Kube.Extract.{extract_address, address_in, plain_address, extract_port, port_at}
use udp_director.Kube.Select.{query_resources, query_resources_snapshot, api_resource}
use udp_director.Balancer.{
  select_backend, select_least_sessions, backends_of, gather, get_session_count,
}
use udp_director.Proxy.{extract_endpoint_target_multi_port, endpoint_ports, same_mappings}
use udp_director.Session.Manager.{
  SessionManager, Store, upsert_multi_port, get_by_addr, shutdown_entry,
}
use udp_director.Session.{Session, new_multi_port}
use udp_director.Proxy.Table.{
  Operation, upserted, touched, forwarded, cleaned, view, run_store, run_table,
}
use udp_director.Proxy.Table.Kept.{StaysAt, run_store-StaysAt}
use udp_director.Proxy.Table.Refines.{run_store-refines}
use udp_director.Samples.{list, config, environment, alice, bob, second}

abbrev fresh : ProxyState
fresh = record {
  store = record { sessions = []; sockets = [] };
  cache = none;
  balancer = new least_sessions;
}

abbrev payload : List ℕ
payload = 1 ∷ 2 ∷ 3 ∷ []

-- After a first packet of the one client and a connection of the other.
abbrev busy : ProxyState
busy =
    (handle_tcp_connection (environment second) bob 7778 config
      (handle_udp_data_packet (environment second) alice payload 7777 config fresh).0).0

after_packet-IsIsolated :
    IsIsolated (handle_udp_data_packet (environment second) alice payload 7777 config fresh).0.store
after_packet-IsIsolated =
    (handle_udp_data_packet-IsHandled (environment second) alice payload 7777 config fresh
      (tt, tt)).0.0

busy-IsIsolated : IsIsolated busy.store
busy-IsIsolated =
    (handle_tcp_connection-IsJoined (environment second) bob 7778 config
      (handle_udp_data_packet (environment second) alice payload 7777 config fresh).0
      after_packet-IsIsolated).0.0

establish_default_session-EndsWell_example :
    EndsWell
      (environment second)
      alice
      7777
      udp
      busy
      (establish_default_session (environment second) config alice 7777 udp busy)
establish_default_session-EndsWell_example =
    establish_default_session-EndsWell (environment second) config alice 7777 udp busy

handle_udp_data_packet-IsHandled_example :
    IsHandled
      (environment second)
      alice
      payload
      7777
      busy
      (handle_udp_data_packet (environment second) alice payload 7777 config busy)
handle_udp_data_packet-IsHandled_example =
    handle_udp_data_packet-IsHandled (environment second) alice payload 7777 config busy
      busy-IsIsolated

handle_tcp_connection-IsJoined_example :
    IsJoined
      (environment second)
      alice
      7778
      busy
      (handle_tcp_connection (environment second) alice 7778 config busy)
handle_tcp_connection-IsJoined_example =
    handle_tcp_connection-IsJoined (environment second) alice 7778 config busy busy-IsIsolated

abbrev sent_port : ℕ
sent_port = elim (handle_udp_data_packet (environment second) alice payload 7777 config busy).1 [
  | ok sent ↦ sent.target.port
  | _ ↦ 0
]

endpoint_found :
    query_default_endpoint list config (new least_sessions)
    ≡ ok ("10.0.0.1", ((7777, udp), 7000) ∷ ((7778, tcp), 7000) ∷ [])
unfolding query_default_endpoint lookup query_resources query_resources_snapshot api_resource
    select_backend select_least_sessions backends_of gather extract_address extract_json_path split
    cut get_field address_in plain_address sort_by get_session_count new
    extract_endpoint_target_multi_port endpoint_ports extract_port port_at same_mappings
    get_data_ports insert
endpoint_found = refl

query_default_endpoint-IsEndpoint_example :
    IsEndpoint list config
      (new least_sessions)
      "10.0.0.1"
      (((7777, udp), 7000) ∷ ((7778, tcp), 7000) ∷ [])
query_default_endpoint-IsEndpoint_example =
    query_default_endpoint-IsEndpoint list config (new least_sessions) "10.0.0.1"
      (((7777, udp), 7000) ∷ ((7778, tcp), 7000) ∷ []) endpoint_found

abbrev operations : List Operation
operations =
    upserted second alice "10.0.0.1" (((7777, udp), 7000) ∷ [])
    ∷ forwarded (environment second) alice payload 7777
    ∷ touched (20 * second) alice
    ∷ cleaned (40 * second)
    ∷ upserted (41 * second) bob "10.0.0.2" (((7778, tcp), 7000) ∷ [])
    ∷ cleaned (60 * second)
    ∷ []

abbrev manager : SessionManager
manager = record { timeout_seconds = 30; has_callback = false }

run_store-refines_example :
    view (run_store manager operations fresh.store)
    ≡ run_table manager operations (view fresh.store)
run_store-refines_example = run_store-refines manager operations fresh.store (tt, tt)

-- Alice has a session; she is active at 20 seconds, and bob comes and the cleanup runs.
abbrev with_alice : Store
with_alice = upsert_multi_port second alice "10.0.0.1" (((7777, udp), 7000) ∷ []) fresh.store

abbrev later_operations : List Operation
later_operations =
    forwarded (environment second) alice payload 7777
    ∷ touched (20 * second) (record alice { port = 41000 })
    ∷ cleaned (40 * second)
    ∷ upserted (41 * second) bob "10.0.0.2" (((7778, tcp), 7000) ∷ [])
    ∷ cleaned (50 * second)
    ∷ []

abbrev alice_session : Session
alice_session = new_multi_port second "10.0.0.1" (((7777, udp), 7000) ∷ [])

run_store-StaysAt_example :
    StaysAt alice alice_session (20 * second) (run_store manager later_operations with_alice)
unfolding upsert_multi_port insert get_by_addr lookup shutdown_entry
run_store-StaysAt_example =
    run_store-StaysAt manager alice later_operations with_alice alice_session (20 * second)
      (upsert_multi_port-IsIsolated second alice "10.0.0.1" (((7777, udp), 7000) ∷ []) fresh.store
        (tt, tt))
      refl refl
