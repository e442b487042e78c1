-- ===== src/Proxy/SinglePort.antt =====
-- proxy.rs: the target of a default endpoint with one port, from the resource itself or from a Service
-- that points to it. The program keeps this code but does not call it.
use udp_director.Prelude.{ℕ, String, Option, none, some, List, ◌≡◌, refl}
use udp_director.Result.{
  Result, ok, ◌>>=◌, or_fail, no_selector_label, no_service_port_name, no_service,
}
use udp_director.Config.{ResourceMapping}
use udp_director.Kube.{Resource}
use udp_director.Kube.Extract.{extract_address, extract_port}
use udp_director.Kube.Service.{Service, find_service_for_resource}
use udp_director.Query.Targets.{extract_direct_target, extract_service_target, extract_target_info}

unfoldable pub extract_direct_endpoint : Resource → ResourceMapping → String → Result (String × ℕ)
extract_direct_endpoint resource mapping address_path = do
  address ← extract_address resource address_path mapping.address_type
  port ← extract_port resource mapping.port_path mapping.port_name
  ok (address, port)

abbrev pub or_unknown : Option String → String
or_unknown none = "unknown"
or_unknown (some name) = name

-- `services` is the cluster's answer.
unfoldable pub extract_service_endpoint :
    Option (List Service) → Resource → ResourceMapping → Result (String × ℕ)
extract_service_endpoint services resource mapping = do
  selector ← or_fail mapping.service_selector_label no_selector_label
  port_name ← or_fail mapping.service_target_port_name no_service_port_name
  found ← find_service_for_resource services (or_unknown resource.name) selector port_name
  or_fail found no_service

unfoldable pub extract_endpoint_target :
    Option (List Service) → Resource → ResourceMapping → Result (String × ℕ)
extract_endpoint_target services resource mapping = elim mapping.address_path [
  | some path ↦ extract_direct_endpoint resource mapping path
  | none ↦ extract_service_endpoint services resource mapping
]

-- The query server finds the same target for the resource.
pub extract_endpoint_target-lem :
    (services : Option (List Service)) (resource : Resource) (mapping : ResourceMapping)
    → extract_endpoint_target services resource mapping
      ≡ extract_target_info services resource mapping (or_unknown resource.name)
unfolding extract_endpoint_target extract_target_info extract_direct_endpoint extract_direct_target
    extract_service_endpoint extract_service_target
extract_endpoint_target-lem services resource mapping = refl
