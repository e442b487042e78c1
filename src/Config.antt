-- ===== src/Config.antt =====
-- config.rs: the configuration, the data ports it yields and its validation.
pub mod Validity
pub mod Load
pub mod Tests
use udp_director.Prelude.{
  ℕ, String, Bool, true, false, not, ◌&&◌, Option, none, some, List, [], ◌∷◌, ltb, ◌==◌, nat_eq,
  string_eq, if◌then◌else◌, is_some,
}
use udp_director.Prelude.Maps.{Map, lookup}
use udp_director.Prelude.Int.{ℤ}
use udp_director.Text.{is_empty}
use udp_director.Result.{
  Error, Result, ok, err, ◌>>=◌, ◌>>◌, ensure, or_fail, invalid_endpoint, not_internal_http,
  zero_boot_timeout, invalid_group, no_pod_mapping, no_core_pod_mapping, zero_query_port,
  no_data_port, zero_data_port, empty_port_name, empty_resource_type, empty_namespace,
  empty_mapping,
}
use udp_director.Net.{Protocol, udp}
use udp_director.Characters.Ids.{valid_character_id}

pub record DataPortConfig : Type 0 where
  pub port : ℕ
  pub protocol : Protocol
  pub name : String

pub record CapacityDemandConfig : Type 0 where
  pub endpoint : String
  pub backend_groups : Map String String
  pub boot_timeout_seconds : ℕ

pub record StatusQueryConfig : Type 0 where
  pub json_path : String
  pub expected_values : List String

pub record DefaultEndpoint : Type 0 where
  pub resource_type : String
  pub namespace : String
  pub label_selector : Option (Map String String)
  pub annotation_selector : Option (Map String String)
  pub status_query : Option StatusQueryConfig

pub record PortMapping : Type 0 where
  pub name : String
  pub port_name : Option String
  pub port_path : Option String

pub record ResourceMapping : Type 0 where
  pub group : String
  pub version : String
  pub resource : String
  pub service_selector_label : Option String
  pub service_target_port_name : Option String
  pub address_path : Option String
  pub address_type : Option String
  pub port_path : Option String
  pub port_name : Option String
  pub ports : Option (List PortMapping)

-- load_balancer.rs: `LoadBalancingStrategy` with the fields of `LabelArithmetic`.
pub data LoadBalancingStrategy : Type 0 where
  least_sessions : LoadBalancingStrategy
  label_arithmetic : String → String → ℤ → LoadBalancingStrategy

pub record LoadBalancingConfig : Type 0 where
  pub strategy : LoadBalancingStrategy

pub record Config : Type 0 where
  pub query_port : ℕ
  pub map_label : String
  pub max_characters_per_server : ℕ
  pub character_label_prefix : String
  pub disconnect_annotation : String
  pub capacity_demand : Option CapacityDemandConfig
  pub data_port : Option ℕ
  pub data_ports : Option (List DataPortConfig)
  pub default_endpoint : DefaultEndpoint
  pub session_timeout_seconds : ℕ
  pub resource_query_mapping : Map String ResourceMapping
  pub load_balancing : Option LoadBalancingConfig

unfoldable pub default_load_balancing : LoadBalancingConfig
default_load_balancing = record { strategy = least_sessions }

abbrev udp_port : ℕ → DataPortConfig
udp_port port = record { port = port; protocol = udp; name = "default" }

unfoldable pub get_data_ports : Config → List DataPortConfig
get_data_ports c = elim c.data_ports [
  | some ports ↦ ports
  | none ↦ elim c.data_port [ some port ↦ udp_port port ∷ [] | none ↦ udp_port 7777 ∷ [] ]
]

unfoldable pub get_load_balancing : Config → LoadBalancingConfig
unfolding default_load_balancing
get_load_balancing c = elim c.load_balancing [ some l ↦ l | none ↦ default_load_balancing ]

-- `hyper::Uri` is known by what `validate` asks of it.
pub record Uri : Type 0 where
  pub scheme_str : Option String
  pub authority : Option String

abbrev pub is_pod_mapping : ResourceMapping → Bool
is_pod_mapping mapping = is_empty mapping.group && (mapping.resource == "pods")

unfoldable pub validate_groups : Map String String → Result (Unit {0})
validate_groups [] = ok tt
validate_groups ((map, group) ∷ rest) = do
  ensure (valid_character_id map && valid_character_id group) invalid_group
  validate_groups rest

unfoldable pub validate_ports : List DataPortConfig → Result (Unit {0})
validate_ports [] = ok tt
validate_ports (p ∷ rest) = do
  ensure (ltb 0 p.port) zero_data_port
  ensure (not (is_empty p.name)) empty_port_name
  validate_ports rest

abbrev pub is_http : Option String → Bool
is_http none = false
is_http (some scheme) = scheme == "http"

abbrev pub is_nil {ℓ} : {A : Type ℓ} → List A → Bool
is_nil [] = true
is_nil (x ∷ xs) = false

-- `hyper::Uri`'s parser is not part of the repository.
module _ (parse_uri : String → Option Uri) where
  unfoldable pub validate_demand : Config → CapacityDemandConfig → Result (Unit {0})
  validate_demand c demand = do
    uri ← or_fail (parse_uri demand.endpoint) invalid_endpoint
    ensure (is_http uri.scheme_str && is_some uri.authority) not_internal_http
    ensure (ltb 0 demand.boot_timeout_seconds) zero_boot_timeout
    validate_groups demand.backend_groups
    mapping ←
        or_fail (lookup c.default_endpoint.resource_type c.resource_query_mapping) no_pod_mapping
    ensure (is_pod_mapping mapping) no_core_pod_mapping

  unfoldable pub validate_capacity : Config → Option CapacityDemandConfig → Result (Unit {0})
  validate_capacity c none = ok tt
  validate_capacity c (some demand) = validate_demand c demand

  unfoldable pub validate : Config → Result (Unit {0})
  validate c = do
    validate_capacity c c.capacity_demand
    ensure (not (c.query_port == 0)) zero_query_port
    ensure (not (is_nil (get_data_ports c))) no_data_port
    validate_ports (get_data_ports c)
    ensure (not (is_empty c.default_endpoint.resource_type)) empty_resource_type
    ensure (not (is_empty c.default_endpoint.namespace)) empty_namespace
    ensure (not (is_nil c.resource_query_mapping)) empty_mapping
