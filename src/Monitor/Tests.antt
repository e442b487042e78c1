-- ===== src/Monitor/Tests.antt =====
-- resource_monitor.rs: a check of the sample cluster.
use udp_director.Prelude.{◌≡◌, ◌≢◌, refl, String, Option, none, some, []}
use udp_director.Result.{ok}
use udp_director.Monitor.{MonitorState, check_default_endpoint}
use udp_director.Monitor.Changes.{target_of, IsNoted, check_default_endpoint-lem}
use udp_director.Text.{split, cut}
use udp_director.Json.{get_field}
use udp_director.Config.{ResourceMapping}
use udp_director.Kube.Path.{extract_json_path}
use udp_director.Kube.Extract.{extract_address, address_in, plain_address}
use udp_director.Monitor.{resource_target}
use udp_director.Monitor.Changes.{resource_target-without_port}
use udp_director.Samples.{config, mapping, pod, list}
use udp_director.Prelude.Maps.{lookup}

abbrev seen : MonitorState
seen = record {
  last_default_endpoint = some "one (10.0.0.9:7000)";
  cache = some (record { address = "10.0.0.9"; port_mappings = [] });
}

check_default_endpoint-lem_example :
    ((current : Option String)
      → target_of list config mapping ≡ ok current
      → IsNoted current seen (check_default_endpoint list config seen).0)
    × (((current : Option String) → target_of list config mapping ≢ ok current)
        → (check_default_endpoint list config seen).0 ≡ seen)
unfolding lookup
check_default_endpoint-lem_example = check_default_endpoint-lem list config mapping seen refl

abbrev by_list : ResourceMapping
by_list = record mapping { port_path = none }

address_is :
    (name address : String) → extract_address (pod name address) "status.podIP" none ≡ ok address
unfolding extract_address extract_json_path split cut get_field address_in plain_address
address_is name address = refl

resource_target-without_port_example :
    resource_target by_list (pod "one" "10.0.0.1") ≡ resource_target by_list (pod "one" "10.0.0.9")
resource_target-without_port_example =
    resource_target-without_port by_list (pod "one" "10.0.0.1") (pod "one" "10.0.0.9")
      "status.podIP" "10.0.0.1" "10.0.0.9" refl refl refl refl (address_is "one" "10.0.0.1")
      (address_is "one" "10.0.0.9")
