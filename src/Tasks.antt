-- ===== src/Tasks.antt =====
-- proxy.rs, query_server.rs and session.rs as tasks that run at once: a handler is a sequence of actions,
-- each on the shared state under one lock, and between two actions any other task may act.
pub mod Detached
pub mod Released
pub mod Interleaved
pub mod Alone
pub mod Listeners
pub mod Tests
use udp_director.Prelude.{
  ℕ, String, Bool, true, false, Option, none, some, List, [], ◌∷◌, ◌++◌, nat_eq, pair_eq,
  if◌then◌else◌, is_some, ◌≡◌, map,
}
use udp_director.Prelude.Maps.{Map, lookup, insert, remove}
use udp_director.Result.{Result, ok, err, panic, Error, port_not_supported, connect_failed}
use udp_director.Net.{SocketAddr, Protocol, udp, tcp, protocol_eq}
use udp_director.Config.{Config}
use udp_director.Balancer.{LoadBalancer, increment_session, decrement_session}
use udp_director.Session.{
  SessionKey, legacy_ip, key_eq, PortMappings, Session, new_multi_port, shutdown,
}
use udp_director.Session.Manager.{
  Store, SessionManager, get_by_addr, shutdown_entry, touch_by_addr, timed_out_keys, notices,
}
use udp_director.Proxy.{
  Environment, DefaultEndpointCache, ProxyState, Sent, query_default_endpoint, supports,
  proxy_packet_bidirectional, tcp_target,
}
use udp_director.Kube.Select.{ListCall}
use udp_director.Director.{decrement_each}
use udp_director.Monitor.{MonitorState, check_default_endpoint}

-- What a task was started for: a UDP packet, a TCP connection, or the end of a query's assignment,
-- which installs routes for the client.
pub data Job : Type 0 where
  packet : List ℕ → Job
  connection : Job
  assignment : Job

pub data Outcome : Type 0 where
  sent : Sent → Outcome
  joined : SocketAddr → Outcome
  assigned : Outcome
  failed : Error → Outcome
  panicked : Outcome

-- Where a task stands. Its next action is named; each is one access to shared state.
pub data Stage : Type 0 where
  looking choosing : Stage
  asking : Bool → Stage
  caching stopping inserting : String → PortMappings → Stage
  counting : String → Stage
  forwarding : Bool → Stage
  joining : Stage
  connecting copying : SocketAddr → Stage
  touching : Outcome → Stage
  finished : Outcome → Stage

abbrev pub protocol_of : Job → Protocol
protocol_of (packet payload) = udp
protocol_of connection = tcp
protocol_of assignment = udp

abbrev pub payload_of : Job → List ℕ
payload_of (packet payload) = payload
payload_of connection = []
payload_of assignment = []

-- After a session is known: a packet is forwarded, and touches the session if it was there before.
abbrev with_session : Bool → Job → Stage
with_session before (packet payload) = forwarding before
with_session before connection = joining
with_session before assignment = finished assigned

abbrev after_insert : String → Job → Stage
after_insert address (packet payload) = counting address
after_insert address connection = counting address
after_insert address assignment = finished assigned

module _ (env : Environment) (config : Config) (client : SocketAddr) (port : ℕ) (job : Job) where
  abbrev checked : String → PortMappings → Stage
  checked address mappings =
      if supports port (protocol_of job) mappings
      then stopping address mappings
      else finished (failed port_not_supported)

  -- Whether the answer is for the cache: it is when there was none.
  abbrev answered : Bool → Result (String × PortMappings) → Stage
  answered true (ok (address, mappings)) = caching address mappings
  answered false (ok (address, mappings)) = checked address mappings
  answered cached (err e) = finished (failed e)
  answered cached panic = finished panicked

  abbrev chosen : Option DefaultEndpointCache → Stage
  chosen none = asking true
  chosen (some cache) =
      if supports port (protocol_of job) cache.port_mappings
      then stopping cache.address cache.port_mappings
      else asking false

  abbrev forwarded : Bool → Result Sent → Stage
  forwarded true (ok s) = touching (sent s)
  forwarded false (ok s) = finished (sent s)
  forwarded before (err e) = finished (failed e)
  forwarded before panic = finished panicked

  abbrev targeted : Result SocketAddr → Stage
  targeted (ok target) = connecting target
  targeted (err e) = finished (failed e)
  targeted panic = finished panicked

  abbrev insert_session : String → PortMappings → Store → Store
  insert_session address mappings st = record st {
    sessions = insert (legacy_ip client.ip) (new_multi_port env.now address mappings) st.sessions;
  }

  -- One action of the task. A finished task stays so.
  unfoldable pub advance : Stage → ProxyState → ProxyState × Stage
  advance looking st =
      (st, if is_some (get_by_addr client st.store) then with_session true job else choosing)
  advance choosing st = (st, chosen st.cache)
  advance (asking fresh) st =
      (st, answered fresh (query_default_endpoint env.list config st.balancer))
  advance (caching address mappings) st = (
    record st { cache = some (record { address = address; port_mappings = mappings }) },
    checked address mappings,
  )
  advance (stopping address mappings) st = (
    record st { store = shutdown_entry (legacy_ip client.ip) st.store },
    inserting address mappings,
  )
  advance (inserting address mappings) st =
      (record st { store = insert_session address mappings st.store }, after_insert address job)
  advance (counting address) st =
      (record st { balancer = increment_session st.balancer address }, with_session false job)
  advance (forwarding before) st =
      let (store, r) = proxy_packet_bidirectional env client (payload_of job) port st.store in
      (record st { store = store }, forwarded before r)
  advance joining st = (st, targeted (tcp_target env client port (get_by_addr client st.store)))
  advance (connecting target) st =
      (st, if env.connected then copying target else finished (failed connect_failed))
  -- `copy_bidirectional` goes on until the peers have closed the connection, for ever if they do not.
  advance (copying target) st =
      (st, if env.closed then touching (joined target) else copying target)
  advance (touching outcome) st =
      (record st { store = touch_by_addr env.now client st.store }, finished outcome)
  advance (finished outcome) st = (st, finished outcome)

-- Where the task of a job begins. An assignment has its routes.
abbrev pub IsStart : Job → Stage → Type 0
IsStart (packet payload) stage = stage ≡ looking
IsStart connection stage = stage ≡ looking
IsStart assignment stage =
    (address : String) × ((mappings : PortMappings) × (stage ≡ stopping address mappings))

pub record Task : Type 0 where
  pub client : SocketAddr
  pub port : ℕ
  pub job : Job
  pub stage : Stage

-- The cleanup task: it waits, removes the keys that it collected, and stops the sockets of the session
-- that it removed last before it goes on.
pub data CleanupStage : Type 0 where
  waiting : CleanupStage
  removing : List SessionKey → CleanupStage
  ending : Map (ℕ × ℕ) ℕ → List SessionKey → CleanupStage

-- The state of all tasks. The balancer is the one of the callback.
pub record World : Type 0 where
  pub proxy : ProxyState
  pub load_balancer : LoadBalancer
  pub manager : SessionManager
  pub cleanup : CleanupStage
  pub last_default_endpoint : Option String
  pub tasks : List Task

abbrev pub taken : SessionKey → List SessionKey → Option Session → World → World
taken key keys none w = record w { cleanup = removing keys }
taken key keys (some s) w =
    let store = w.proxy.store in
    record w {
      proxy = record w.proxy { store = record store { sessions = remove key store.sessions } };
      load_balancer = decrement_each (notices w.manager.has_callback s.target_ip) w.load_balancer;
      cleanup = ending s.udp_sockets keys;
    }

-- One action of the cleanup task at a time of the clock.
abbrev pub clean_at : ℕ → CleanupStage → World → World
clean_at now waiting w = record w {
  cleanup = removing (timed_out_keys now w.manager.timeout_seconds w.proxy.store.sessions);
}
clean_at now (removing []) w = record w { cleanup = waiting }
clean_at now (removing (key ∷ keys)) w = taken key keys (lookup key w.proxy.store.sessions) w
clean_at now (ending [] keys) w = record w { cleanup = removing keys }
clean_at now (ending ((slot, handle) ∷ rest) keys) w =
    let store = w.proxy.store in
    record w {
      proxy = record w.proxy { store = record store { sockets = shutdown handle store.sockets } };
      cleanup = ending rest keys;
    }

unfoldable pub clean : ℕ → World → World
clean now w = clean_at now w.cleanup w

-- The monitor's round, whose one write to what others read is the invalidation of the cache.
unfoldable pub watch : ListCall → Config → World → World
watch list config w =
    let seen : MonitorState = record {
      last_default_endpoint = w.last_default_endpoint;
      cache = w.proxy.cache;
    } in
    let (st, _) = check_default_endpoint list config seen in
    record w {
      proxy = record w.proxy { cache = st.cache };
      last_default_endpoint = st.last_default_endpoint;
    }

-- A task of the list acts in the shared state, and stands where it then stands.
unfoldable pub act : Environment → Config → List Task → Task → List Task → World → World
act env config before t after w =
    let (proxy, stage) = advance env config t.client t.port t.job t.stage w.proxy in
    record w { proxy = proxy; tasks = before ++ record t { stage = stage } ∷ after }

pub data Step (config : Config) (w : World) : World → Type 0 where
  arrive : (t : Task) → IsStart t.job t.stage → Step config w (record w { tasks = t ∷ w.tasks })
  turn :
      (env : Environment) (before : List Task) (t : Task) (after : List Task)
      → w.tasks ≡ before ++ (t ∷ after)
      → Step config w (act env config before t after w)
  tidy : (now : ℕ) → Step config w (clean now w)
  look : (list : ListCall) → Step config w (watch list config w)

pub data Reach (config : Config) (w : World) : World → Type 0 where
  begin : Reach config w w
  later : {v u : World} → Reach config w v → Step config v u → Reach config w u
