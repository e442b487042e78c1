-- ===== src/Lib.antt =====
-- A verification library of UDP Director, a proxy between game clients and the servers of a Kubernetes
-- cluster. A client asks the query port (TCP) for a server, which installs a session for its IP address;
-- its packets and connections on the data ports then go to that server. A client without a session gets
-- one for the default endpoint. A cleanup task ends idle sessions, and a monitor empties the cache of
-- the default endpoint when it changes.
--
-- Which file models which part (paths from the root of the repository):
--   Session, Session/Manager, Session/Receive, Session/Single  src/session.rs: `Session`,
--     `SessionSocket`, `SessionManager` and the task of a socket. The DashMap is an association list, a
--     socket a position in the list of all that were bound.
--   Proxy, Proxy/SinglePort     src/proxy.rs: `handle_udp_data_packet`, `handle_first_packet`,
--     `handle_tcp_connection`, `establish_default_session`, `query_default_endpoint`,
--     `proxy_packet_bidirectional`, the cache of the default endpoint, and the unused extraction of a
--     target with one port.
--   Proxy/Table                 what the session manager is to its clients: a table of one route for
--     each client IP, with the same operations.
--   Tasks, Tasks/Listeners      src/proxy.rs, src/query_server.rs and src/session.rs again, as tasks that
--     run at once: each handler, each upsert and each cleanup round is a sequence of actions (`Stage`,
--     `CleanupStage`), and `Step` lets any task act next. The listeners start the tasks.
--   Query, Query/Read, Query/Targets, Query/Process, Query/Flights, Query/Connection
--     src/query_server.rs: `read_request`, `process_access`, `process_query`, `handle_connection` and the
--     extraction of targets. Process has the sessions' side of a query, whose waits end with given events,
--     and Flights the flight of a demand that it takes from those that all queries share.
--   Kube and its children       src/k8s_client.rs: Path (`extract_json_path`), Extract
--     (`extract_address`, `extract_port`, `extract_ports`), Service (`find_service_for_resource`), Select
--     (`query_resources_snapshot` and filters), Watch (`wait_for_pod_change`), Kube itself the Pod tests
--     and `allocate_character`. Json has the values of serde_json.
--   Balancer                    src/load_balancer.rs: the counts and the two strategies.
--   Characters, Characters/Ids  src/characters.rs: `characters_on_pod`, `valid_character_id`.
--   Demand                      src/demand.rs: `CapacityDemand::signal`, `post_demand`.
--   Config, Config/Load         src/config.rs: the records, `get_data_ports`, `validate`, `load`.
--   Monitor, Monitor/Rounds     src/resource_monitor.rs: `check_default_endpoint`, `run`.
--   Director, Director/Startup  src/main.rs: what the tasks share, runs as sequences of events, and the
--     report at the start.
--   Metrics, Metrics/Recorders  src/metrics.rs and src/metrics_server.rs.
--   Result, Net, Text           errors and panics as values, addresses, and the text functions of Rust.
--   Prelude                     the names and lemmas that all share. Samples has data for the tests.
--
-- A handler is a function from the state to a state and a result, with what it meets outside as
-- arguments: the answers of the API server, the clock, whether a socket is bound, a packet delivered,
-- a connection made. In Director the handlers run one after another; in Tasks their actions interleave.
-- The copy of the bytes of a TCP connection is a stage of its task that goes on until the peers close it.
-- An action in Tasks is
-- one access to shared state; the collection of the keys by the cleanup is one action, and the read lock
-- of the cache that `establish_default_session` keeps while it installs a cached route is left out, so
-- that more orders are possible there than in the program. Numbers that wrap in a release build wrap here
-- (counts modulo 2^64, capacities as i64). No definition of the code uses fuel but the printing of a
-- number, which has as many digits as its type allows (5 for u16, 3 for an octet): loops are structural
-- recursion over the lists and texts that they go through, and the wait for capacity goes through the
-- list of the events that end its waits.
--
-- Not modelled: the parsers of YAML, JSON, URIs, RFC 3339 dates and IPv6 addresses, which are arguments;
-- the bytes of TCP connections; the registry and the text format of the Prometheus library; logging and
-- signals; the locks themselves: the assignments mutex of the query server is held from a list to its
-- selection and label, and in Director a query is one step, in which no other selects. Director has no state of the flights,
-- which change no session.
pub mod Balancer
pub mod Characters
pub mod Config
pub mod Demand
pub mod Director
pub mod Json
pub mod Kube
pub mod Metrics
pub mod Monitor
pub mod Net
pub mod Prelude
pub mod Proxy
pub mod Query
pub mod Result
pub mod Samples
pub mod Session
pub mod Tasks
pub mod Text
