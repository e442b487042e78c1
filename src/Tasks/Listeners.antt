-- ===== src/Tasks/Listeners.antt =====
-- proxy.rs: `DataProxy::run`, which binds the data ports, and the listeners, which start a task for each
-- packet and each connection and go on after errors.
use udp_director.Prelude.{ℕ, Bool, List, [], ◌∷◌, if◌then◌else◌, refl, All}
use udp_director.Result.{Result, ok, err, bind_failed}
use udp_director.Net.{SocketAddr, Protocol}
use udp_director.Config.{Config, DataPortConfig}
use udp_director.Tasks.{Task, packet, connection, looking, IsStart, World, Reach, later, arrive}

-- What a UDP socket receives, and what a TCP listener accepts.
pub data Received : Type 0 where
  datagram : List ℕ → SocketAddr → Received
  receive_error : Received

pub data Accepted : Type 0 where
  stream : SocketAddr → Accepted
  accept_error : Accepted

-- A spawned task runs `handle_udp_packet`, which is `handle_udp_data_packet`.
abbrev pub packet_task : ℕ → List ℕ → SocketAddr → Task
packet_task port bytes client = record {
  client = client;
  port = port;
  job = packet bytes;
  stage = looking;
}

abbrev pub connection_task : ℕ → SocketAddr → Task
connection_task port client = record {
  client = client;
  port = port;
  job = connection;
  stage = looking;
}

unfoldable pub run_udp_socket : ℕ → List Received → List Task
run_udp_socket port [] = []
run_udp_socket port (datagram bytes client ∷ rest) =
    packet_task port bytes client ∷ run_udp_socket port rest
run_udp_socket port (receive_error ∷ rest) = run_udp_socket port rest

unfoldable pub run_tcp_listener : ℕ → List Accepted → List Task
run_tcp_listener port [] = []
run_tcp_listener port (stream client ∷ rest) =
    connection_task port client ∷ run_tcp_listener port rest
run_tcp_listener port (accept_error ∷ rest) = run_tcp_listener port rest

-- The listeners that run, and whether all ports could be bound: the first that cannot ends `DataProxy::run`, and
-- those that were started before it go on.
unfoldable pub run_proxy :
    (ℕ → Protocol → Bool) → List DataPortConfig → List DataPortConfig × Result (Unit {0})
run_proxy bound [] = ([], ok tt)
run_proxy bound (p ∷ ports) =
    let (started, r) = run_proxy bound ports in
    if bound p.port p.protocol then (p ∷ started, r) else ([], err bind_failed)

-- What a listener starts is at its beginning.
abbrev pub IsNew : Task → Type 0
IsNew t = IsStart t.job t.stage

pub run_udp_socket-IsNew :
    (port : ℕ) (received : List Received) → All IsNew (run_udp_socket port received)
unfolding run_udp_socket
run_udp_socket-IsNew port [] = tt
run_udp_socket-IsNew port (datagram bytes client ∷ rest) = (refl, run_udp_socket-IsNew port rest)
run_udp_socket-IsNew port (receive_error ∷ rest) = run_udp_socket-IsNew port rest

pub run_tcp_listener-IsNew :
    (port : ℕ) (accepted : List Accepted) → All IsNew (run_tcp_listener port accepted)
unfolding run_tcp_listener
run_tcp_listener-IsNew port [] = tt
run_tcp_listener-IsNew port (stream client ∷ rest) = (refl, run_tcp_listener-IsNew port rest)
run_tcp_listener-IsNew port (accept_error ∷ rest) = run_tcp_listener-IsNew port rest

-- All of them can arrive, in any world that is reached.
abbrev pub arrive_each : List Task → World → World
arrive_each [] w = w
arrive_each (t ∷ ts) w = arrive_each ts (record w { tasks = t ∷ w.tasks })

pub arrive_each-Reach :
    (config : Config) (w v : World) (ts : List Task)
    → Reach config w v
    → All IsNew ts
    → Reach config w (arrive_each ts v)
arrive_each-Reach config w v [] r h = r
arrive_each-Reach config w v (t ∷ ts) r (fresh, h) =
    arrive_each-Reach config w (record v { tasks = t ∷ v.tasks }) ts (later r (arrive t fresh)) h
