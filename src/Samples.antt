-- ===== src/Samples.antt =====
-- The configuration, the Pods and the surroundings on which the theorems are tried.
use udp_director.Prelude.{ℕ, String, true, none, some, List, [], ◌∷◌, ◌*◌}
use udp_director.Json.{Value, number, string, object, end, field}
use udp_director.Net.{SocketAddr, v4, udp, tcp}
use udp_director.Config.{Config, ResourceMapping}
use udp_director.Kube.{Resource, Pod}
use udp_director.Kube.Select.{ListCall}
use udp_director.Characters.{Formats}
use udp_director.Proxy.{Environment}
use udp_director.Query.{QueryRequest}
use udp_director.Query.Targets.{Cluster}
use udp_director.Director.{Event, udp_packet, tcp_connection, query, cleanup_tick, monitor_tick}

abbrev pub second : ℕ
second = 1000000000

abbrev pub pod_json : String → Value
pod_json address = object (
    field "status"
      (object (
        field "podIP" (string address)
          (field "port" (number (record { as_u64 = some 7000; text = "7000" })) end)))
      end)

abbrev pub pod : String → String → Resource
pod name address = record {
  name = some name;
  labels = some (("max", "10") ∷ ("current", "4") ∷ []);
  annotations = none;
  json = some (pod_json address);
}

abbrev pub pod_one : Resource
pod_one = pod "one" "10.0.0.1"

abbrev pub pod_two : Resource
pod_two = pod "two" "10.0.0.2"

abbrev pub mapping : ResourceMapping
mapping = record {
  group = "";
  version = "v1";
  resource = "pods";
  service_selector_label = none;
  service_target_port_name = none;
  address_path = some "status.podIP";
  address_type = none;
  port_path = some "status.port";
  port_name = none;
  ports = none;
}

abbrev pub config : Config
config = record {
  query_port = 9000;
  map_label = "map";
  max_characters_per_server = 2;
  character_label_prefix = "game.io";
  disconnect_annotation = "game.io/times";
  capacity_demand = none;
  data_port = none;
  data_ports = some (
      record { port = 7777; protocol = udp; name = "game" }
      ∷ record { port = 7778; protocol = tcp; name = "chat" }
      ∷ []);
  default_endpoint = record {
    resource_type = "pod";
    namespace = "games";
    label_selector = none;
    annotation_selector = none;
    status_query = none;
  };
  session_timeout_seconds = 30;
  resource_query_mapping = ("pod", mapping) ∷ [];
  load_balancing = none;
}

abbrev pub list : ListCall
list namespace resource labels =
    some (record { items = pod_one ∷ pod_two ∷ []; resource_version = some "7" })

abbrev pub no_list : ListCall
no_list namespace resource labels = none

abbrev pub environment : ℕ → Environment
environment now = record {
  list = list;
  now = now;
  bound = true;
  delivered = true;
  connected = true;
  closed = true;
  parse_v6 = λ _. none;
}

abbrev pub alice : SocketAddr
alice = record { ip = v4 1; port = 40000 }

abbrev pub bob : SocketAddr
bob = record { ip = v4 2; port = 50000 }

abbrev pub formats : Formats
formats = record { parse_map = λ _. none; parse_time = λ _. none }

abbrev pub game_pod : Pod
game_pod = record {
  name = some "one";
  uid = some "uid-one";
  resource_version = some "7";
  deletion_timestamp = none;
  labels = some (("game.io/hero", "Used") ∷ ("map", "town") ∷ ("game.io/bard", "Allocated") ∷ []);
  annotations = none;
  status = some (record {
    phase = some "Running";
    pod_ip = some "10.0.0.1";
    conditions = some (record { condition_type = "Ready"; status = "True" } ∷ []);
  });
}

abbrev pub cluster : Cluster
cluster = record {
  formats = formats;
  to_pod = λ _. some game_pod;
  services = none;
  accepts = λ _. true;
  now = second;
}

abbrev pub request : QueryRequest
request = QueryRequest.query "town" "hero" []

abbrev pub events : List Event
events =
    udp_packet (environment second) alice (1 ∷ 2 ∷ []) 7777
    ∷ tcp_connection (environment second) bob 7778
    ∷ query cluster alice (2 * second) request list []
    ∷ cleanup_tick (40 * second)
    ∷ monitor_tick list
    ∷ []
