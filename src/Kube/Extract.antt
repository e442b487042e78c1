-- ===== src/Kube/Extract.antt =====
-- k8s_client.rs: the address and the ports of a resource.
use udp_director.Prelude.{
  ℕ, ◌^◌, String, Option, none, some, List, [], ◌∷◌, ltb, string_eq, if◌then◌else◌,
}
use udp_director.Prelude.Maps.{Map, insert}
use udp_director.Result.{
  Result, ok, err, ◌>>=◌, or_fail, not_serialized, address_path_missing, no_address_of_type,
  address_not_array, address_not_string, port_out_of_range, port_name_missing, port_path_missing,
  port_not_number, no_port_lookup,
}
use udp_director.Json.{
  Number, Value, string, number, array, elements, get_field, as_string, as_number, as_array,
}
use udp_director.Config.{PortMapping}
use udp_director.Kube.{Resource, is_text, entries}
use udp_director.Kube.Path.{extract_json_path}

-- The address of an entry of the wanted type, if it has one.
abbrev pub address_of : String → Value → Option String
address_of wanted entry =
    if is_text wanted (as_string (get_field "type" entry))
    then as_string (get_field "address" entry)
    else none

unfoldable pub find_address : String → List Value → Option String
find_address wanted [] = none
find_address wanted (entry ∷ rest) = elim (address_of wanted entry) [
  | some address ↦ some address
  | none ↦ find_address wanted rest
]

unfoldable pub typed_address : String → Value → Result String
typed_address wanted (array vs) = or_fail (find_address wanted (elements vs)) no_address_of_type
typed_address wanted _ = err address_not_array

unfoldable pub plain_address : Value → Result String
plain_address (string s) = ok s
plain_address _ = err address_not_string

unfoldable pub address_in : Option String → Value → Result String
address_in none value = plain_address value
address_in (some wanted) value = typed_address wanted value

unfoldable pub extract_address : Resource → String → Option String → Result String
extract_address resource path address_type = do
  json ← or_fail resource.json not_serialized
  found ← extract_json_path json path
  value ← or_fail found address_path_missing
  address_in address_type value

-- `as_u64().and_then(|n| u16::try_from(n).ok())`
abbrev pub u16_of : Option ℕ → Option ℕ
u16_of none = none
u16_of (some n) = if ltb n (2 ^ 16) then some n else none

abbrev pub port_of : Number → Result ℕ
port_of n = or_fail (u16_of n.as_u64) port_out_of_range

-- The number under `key` of an entry with the wanted name.
abbrev pub named_number : String → String → Value → Option Number
named_number key wanted entry =
    if is_text wanted (as_string (get_field "name" entry))
    then as_number (get_field key entry)
    else none

-- The first entry that has one decides.
unfoldable pub find_port : String → String → List Value → Option Number
find_port key wanted [] = none
find_port key wanted (entry ∷ rest) = elim (named_number key wanted entry) [
  | some n ↦ some n
  | none ↦ find_port key wanted rest
]

abbrev pub field_of : String → Option Value → Option Value
field_of key none = none
field_of key (some v) = get_field key v

-- `status.ports`, `spec.containers` and the ports of a container, where they are arrays.
abbrev pub status_ports : Value → List Value
status_ports json = entries (as_array (field_of "ports" (get_field "status" json)))

abbrev pub spec_containers : Value → List Value
spec_containers json = entries (as_array (field_of "containers" (get_field "spec" json)))

abbrev pub container_ports : Value → List Value
container_ports container = entries (as_array (get_field "ports" container))

unfoldable pub find_container_port : String → List Value → Option Number
find_container_port wanted [] = none
find_container_port wanted (container ∷ rest) =
    elim (find_port "containerPort" wanted (container_ports container)) [
      | some n ↦ some n
      | none ↦ find_container_port wanted rest
    ]

unfoldable pub port_named : Value → String → Result ℕ
port_named json wanted = elim (find_port "port" wanted (status_ports json)) [
  | some n ↦ port_of n
  | none ↦ elim (find_container_port wanted (spec_containers json)) [
    | some n ↦ port_of n
    | none ↦ err port_name_missing
  ]
]

abbrev pub port_value : Value → Result ℕ
port_value (number n) = port_of n
port_value _ = err port_not_number

unfoldable pub port_at : Value → String → Result ℕ
port_at json path = do
  found ← extract_json_path json path
  value ← or_fail found port_path_missing
  port_value value

-- A name takes precedence over a path.
abbrev pub port_by : Value → Option String → Option String → Result ℕ
port_by json port_path (some name) = port_named json name
port_by json (some path) none = port_at json path
port_by json none none = err no_port_lookup

unfoldable pub extract_port : Resource → Option String → Option String → Result ℕ
extract_port resource port_path port_name = do
  json ← or_fail resource.json not_serialized
  port_by json port_path port_name

unfoldable pub extract_ports_into :
    Resource → List PortMapping → Map String ℕ → Result (Map String ℕ)
extract_ports_into resource [] ports = ok ports
extract_ports_into resource (mapping ∷ rest) ports = do
  port ← extract_port resource mapping.port_path mapping.port_name
  extract_ports_into resource rest (insert mapping.name port ports)

unfoldable pub extract_ports : Resource → List PortMapping → Result (Map String ℕ)
unfolding extract_ports_into
extract_ports resource mappings = extract_ports_into resource mappings []
