-- ===== src/Director.antt =====
-- main.rs: how the parts are put together. The session manager and the cache are shared; the data
-- proxy builds a load balancer of its own, beside the one that the cleanup callback is given.
pub mod Runs
pub mod Counts
pub mod Sockets
pub mod Delivery
pub mod Startup
pub mod Tests
use udp_director.Prelude.{ℕ, String, Bool, true, false, Option, none, some, List, [], ◌∷◌}
use udp_director.Net.{SocketAddr, Protocol}
use udp_director.Config.{Config, get_load_balancing}
use udp_director.Balancer.{LoadBalancer, new, decrement_session}
use udp_director.Session.Manager.{
  Store, SessionManager, new_manager, set_cleanup_callback, cleanup, clear_all,
}
use udp_director.Proxy.{
  Environment, DefaultEndpointCache, ProxyState, Sent, handle_udp_data_packet,
  handle_tcp_connection,
}
use udp_director.Query.{QueryRequest}
use udp_director.Query.Targets.{Cluster}
use udp_director.Query.Process.{WaitEvent, process_access}
use udp_director.Kube.Select.{ListCall}
use udp_director.Monitor.{MonitorState, check_default_endpoint}

pub record Director : Type 0 where
  pub config : Config
  pub proxy : ProxyState
  pub last_default_endpoint : Option String
  -- The manager that the cleanup task was started with.
  pub cleanup_manager : SessionManager
  -- The manager and the balancer of `main` itself.
  pub session_manager : SessionManager
  pub load_balancer : LoadBalancer

unfoldable pub start : Config → Director
start config =
    let (manager, cleanup_manager) = new_manager config.session_timeout_seconds in
    let strategy = (get_load_balancing config).strategy in
    record {
      config = config;
      proxy = record {
        store = record { sessions = []; sockets = [] };
        cache = none;
        balancer = new strategy;
      };
      last_default_endpoint = none;
      cleanup_manager = cleanup_manager;
      session_manager = set_cleanup_callback manager;
      load_balancer = new strategy;
    }

-- The callback: one decrement for each session that the cleanup task reports.
unfoldable pub decrement_each : List String → LoadBalancer → LoadBalancer
decrement_each [] lb = lb
decrement_each (target ∷ rest) lb = decrement_each rest (decrement_session lb target)

-- What happens in the running program, each a step of one task.
pub data Event : Type 0 where
  udp_packet : Environment → SocketAddr → List ℕ → ℕ → Event
  tcp_connection : Environment → SocketAddr → ℕ → Event
  query : Cluster → SocketAddr → ℕ → QueryRequest → ListCall → List WaitEvent → Event
  cleanup_tick : ℕ → Event
  monitor_tick : ListCall → Event

abbrev pub put_store : Director → Store → Director
put_store d st = record d { proxy = record d.proxy { store = st } }

unfoldable pub step : Director → Event → Director
step d (udp_packet env client payload port) = record d {
  proxy = (handle_udp_data_packet env client payload port d.config d.proxy).0;
}
step d (tcp_connection env client port) = record d {
  proxy = (handle_tcp_connection env client port d.config d.proxy).0;
}
step d (query cluster client clock request list events) =
    put_store d (process_access cluster d.config client clock request list events d.proxy.store).0
step d (cleanup_tick now) =
    let (store, told) = cleanup d.cleanup_manager now d.proxy.store in
    record d {
      proxy = record d.proxy { store = store };
      load_balancer = decrement_each told d.load_balancer;
    }
step d (monitor_tick list) =
    let seen : MonitorState = record {
      last_default_endpoint = d.last_default_endpoint;
      cache = d.proxy.cache;
    } in
    let (st, _) = check_default_endpoint list d.config seen in
    record d {
      proxy = record d.proxy { cache = st.cache };
      last_default_endpoint = st.last_default_endpoint;
    }

unfoldable pub run : Director → List Event → Director
run d [] = d
run d (e ∷ es) = run (step d e) es

-- The end of `main`.
unfoldable pub shutdown : Director → Director
shutdown d = put_store d (clear_all d.proxy.store)
