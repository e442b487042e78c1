-- ===== src/Query/Targets.antt =====
-- query_server.rs: the target of an assignment, from the resource that was chosen, and its routes.
use udp_director.Prelude.{
  ℕ, String, Bool, Option, none, some, List, [], ◌∷◌, string_eq, nat_eq, pair_eq,
}
use udp_director.Prelude.Maps.{Map, lookup, insert}
use udp_director.Result.{
  Result, ok, ◌>>=◌, or_fail, map_err, invalid_backend_ports, invalid_backend_port,
  missing_backend_port, no_selector_label, no_service_port_name, no_service, no_address_path,
  no_port_lookup,
}
use udp_director.Net.{protocol_eq}
use udp_director.Config.{Config, DataPortConfig, ResourceMapping, get_data_ports}
use udp_director.Kube.{Resource, Pod, LabelPatch}
use udp_director.Kube.Extract.{extract_address, extract_port, extract_ports}
use udp_director.Kube.Service.{Service, find_service_for_resource}
use udp_director.Characters.{Formats}
use udp_director.Session.{PortMappings}

-- What the handler meets outside the program.
pub record Cluster : Type 0 where
  pub formats : Formats
  pub to_pod : Resource → Option Pod
  pub services : Option (List Service)
  pub accepts : LabelPatch → Bool
  pub now : ℕ

-- `extract_target_info` and `extract_multi_port_target_info`
unfoldable pub extract_direct_target : Resource → ResourceMapping → String → Result (String × ℕ)
extract_direct_target resource mapping path = do
  address ← extract_address resource path mapping.address_type
  port ← extract_port resource mapping.port_path mapping.port_name
  ok (address, port)

unfoldable pub extract_service_target :
    Option (List Service) → String → ResourceMapping → Result (String × ℕ)
extract_service_target services resource_name mapping = do
  selector ← or_fail mapping.service_selector_label no_selector_label
  port_name ← or_fail mapping.service_target_port_name no_service_port_name
  found ← find_service_for_resource services resource_name selector port_name
  or_fail found no_service

unfoldable pub extract_target_info :
    Option (List Service) → Resource → ResourceMapping → String → Result (String × ℕ)
extract_target_info services resource mapping name = elim mapping.address_path [
  | some path ↦ extract_direct_target resource mapping path
  | none ↦ extract_service_target services name mapping
]

unfoldable pub extract_multi_port_target_info :
    Resource → ResourceMapping → Result (String × Map String ℕ)
extract_multi_port_target_info resource mapping = do
  path ← or_fail mapping.address_path no_address_path
  configured ← or_fail mapping.ports no_port_lookup
  address ← extract_address resource path mapping.address_type
  ports ← extract_ports resource configured
  ok (address, ports)

-- Every data port with the one port of the backend.
unfoldable pub same_ports : ℕ → List DataPortConfig → Map String ℕ → Map String ℕ
same_ports target [] ports = ports
same_ports target (p ∷ rest) ports = same_ports target rest (insert p.name target ports)

unfoldable pub target_ports :
    Cluster → Config → Resource → ResourceMapping → String → Result (String × Map String ℕ)
target_ports cluster config resource mapping name = elim mapping.ports [
  | some configured ↦
      map_err invalid_backend_ports (extract_multi_port_target_info resource mapping)
  | none ↦ do
    (ip, port) ←
        map_err invalid_backend_port (extract_target_info cluster.services resource mapping name)
    ok (ip, same_ports port (get_data_ports config) [])
]

-- The loop over the data ports: the routes, and the public ports of the response.
unfoldable pub routes_for :
    Map String ℕ
    → List DataPortConfig
    → PortMappings
    → Map String ℕ
    → Result (PortMappings × Map String ℕ)
routes_for ports [] routes public_ports = ok (routes, public_ports)
routes_for ports (p ∷ rest) routes public_ports = do
  target ← or_fail (lookup p.name ports) missing_backend_port
  routes_for ports rest (insert (p.port, p.protocol) target routes)
      (insert p.name p.port public_ports)
