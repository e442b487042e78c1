-- ===== src/Config/Tests.antt =====
-- config.rs: the validation of the sample configuration.
use udp_director.Prelude.{String, ◌≡◌, ◌↔◌, Option, none, some}
use udp_director.Result.{ok}
use udp_director.Config.{Uri, validate}
use udp_director.Config.Validity.{IsValid, validate_iff}
use udp_director.Config.Load.{ConfigFile, with_defaults, load, IsLoaded, load_iff}
use udp_director.Samples.{config}

abbrev no_uri : String → Option Uri
no_uri text = none

validate_iff_example : (validate no_uri config ≡ ok tt) ↔ IsValid no_uri config
validate_iff_example = validate_iff no_uri config

-- A file that leaves out what it may.
abbrev file : ConfigFile
file = record {
  query_port = 9000;
  map_label = none;
  max_characters_per_server = none;
  character_label_prefix = none;
  disconnect_annotation = none;
  capacity_demand = none;
  data_port = none;
  data_ports = config.data_ports;
  default_endpoint = config.default_endpoint;
  session_timeout_seconds = 30;
  resource_query_mapping = config.resource_query_mapping;
  load_balancing = none;
}

abbrev read_file : String → Option String
read_file path = some "queryPort: 9000"

abbrev parse_yaml : String → Option ConfigFile
parse_yaml text = some file

load_iff_example :
    (load read_file parse_yaml no_uri none ≡ ok (with_defaults file))
    ↔ IsLoaded read_file parse_yaml no_uri none (with_defaults file)
load_iff_example = load_iff read_file parse_yaml no_uri none (with_defaults file)
