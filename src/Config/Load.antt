-- ===== src/Config/Load.antt =====
-- config.rs: `Config::load`, from the file to a validated configuration, with the defaults that serde
-- fills in for fields that the file leaves out.
use udp_director.Prelude.{
  ℕ, String, Option, none, some, List, [], ◌≡◌, refl, sym, ◌↔◌, inl, inr, arith, Option-cases,
}
use udp_director.Prelude.Maps.{Map}
use udp_director.Result.{
  Result, Result-cases, ok, ◌>>=◌, ◌>>◌, or_fail, config_unreadable, config_malformed,
}
use udp_director.Config.{
  Config, CapacityDemandConfig, DataPortConfig, DefaultEndpoint, ResourceMapping,
  LoadBalancingConfig, Uri, validate,
}
use udp_director.Config.Validity.{IsValid, validate_iff}

unfoldable pub default_map_label : String
default_map_label = "map"

unfoldable pub default_capacity : ℕ
default_capacity = 128

unfoldable pub default_character_label_prefix : String
default_character_label_prefix = "characters.udp-director.io"

unfoldable pub default_disconnect_annotation : String
default_disconnect_annotation = "udp-director.io/disconnected-at"

unfoldable pub default_boot_timeout : ℕ
default_boot_timeout = 300

-- A file as the YAML parser gives it: a field with a default may be absent.
pub record DemandFile : Type 0 where
  pub endpoint : String
  pub backend_groups : Option (Map String String)
  pub boot_timeout_seconds : Option ℕ

pub record ConfigFile : Type 0 where
  pub query_port : ℕ
  pub map_label : Option String
  pub max_characters_per_server : Option ℕ
  pub character_label_prefix : Option String
  pub disconnect_annotation : Option String
  pub capacity_demand : Option DemandFile
  pub data_port : Option ℕ
  pub data_ports : Option (List DataPortConfig)
  pub default_endpoint : DefaultEndpoint
  pub session_timeout_seconds : ℕ
  pub resource_query_mapping : Map String ResourceMapping
  pub load_balancing : Option LoadBalancingConfig

abbrev pub or_default {ℓ} : {A : Type ℓ} → Option A → A → A
or_default none d = d
or_default (some a) d = a

abbrev pub demand_of : Option DemandFile → Option CapacityDemandConfig
demand_of none = none
demand_of (some d) = some (record {
  endpoint = d.endpoint;
  backend_groups = or_default d.backend_groups [];
  boot_timeout_seconds = or_default d.boot_timeout_seconds default_boot_timeout;
})

unfoldable pub with_defaults : ConfigFile → Config
unfolding default_map_label default_capacity default_character_label_prefix
    default_disconnect_annotation default_boot_timeout
with_defaults f = record {
  query_port = f.query_port;
  map_label = or_default f.map_label default_map_label;
  max_characters_per_server = or_default f.max_characters_per_server default_capacity;
  character_label_prefix = or_default f.character_label_prefix default_character_label_prefix;
  disconnect_annotation = or_default f.disconnect_annotation default_disconnect_annotation;
  capacity_demand = demand_of f.capacity_demand;
  data_port = f.data_port;
  data_ports = f.data_ports;
  default_endpoint = f.default_endpoint;
  session_timeout_seconds = f.session_timeout_seconds;
  resource_query_mapping = f.resource_query_mapping;
  load_balancing = f.load_balancing;
}

-- The variable CONFIG_PATH, or the place of the mounted ConfigMap.
unfoldable pub config_path : Option String → String
config_path variable = or_default variable "/etc/udp-director/config.yaml"

-- A value that is given, or else the default.
abbrev pub Chosen {ℓ} : {A : Type ℓ} → Option A → A → A → Type ℓ
Chosen none d a = a ≡ d
Chosen (some given) d a = a ≡ given

abbrev pub IsDemandOf : Option DemandFile → Option CapacityDemandConfig → Type 0
IsDemandOf none none = Unit
IsDemandOf (some f) (some d) =
    (d.endpoint ≡ f.endpoint)
    × Chosen f.backend_groups [] d.backend_groups
    × Chosen f.boot_timeout_seconds 300 d.boot_timeout_seconds
IsDemandOf _ _ = ⊥

-- The configuration has what the file gives, and for what the file leaves out a map label "map", room
-- for 128 characters, the label prefix, the annotation, no aliases and a boot time of 300 seconds.
pub record IsFilled (f : ConfigFile) (c : Config) : Type 0 where
  pub query_port : c.query_port ≡ f.query_port
  pub map_label : Chosen f.map_label "map" c.map_label
  pub max_characters : Chosen f.max_characters_per_server 128 c.max_characters_per_server
  pub prefix : Chosen f.character_label_prefix "characters.udp-director.io" c.character_label_prefix
  pub annotation :
      Chosen f.disconnect_annotation "udp-director.io/disconnected-at" c.disconnect_annotation
  pub demand : IsDemandOf f.capacity_demand c.capacity_demand
  pub data_port : c.data_port ≡ f.data_port
  pub data_ports : c.data_ports ≡ f.data_ports
  pub default_endpoint : c.default_endpoint ≡ f.default_endpoint
  pub timeout : c.session_timeout_seconds ≡ f.session_timeout_seconds
  pub resources : c.resource_query_mapping ≡ f.resource_query_mapping
  pub balancing : c.load_balancing ≡ f.load_balancing

Chosen-or_default {ℓ} :
    {A : Type ℓ} (given : Option A) (d : A) → Chosen given d (or_default given d)
Chosen-or_default none d = refl
Chosen-or_default (some a) d = refl

or_default_of {ℓ} :
    {A : Type ℓ} (given : Option A) (d a : A) → Chosen given d a → or_default given d ≡ a
or_default_of none d a h = sym h
or_default_of (some g) d a h = sym h

demand_of-IsDemandOf : (f : Option DemandFile) → IsDemandOf f (demand_of f)
unfolding default_boot_timeout
demand_of-IsDemandOf none = tt
demand_of-IsDemandOf (some f) =
    (refl, Chosen-or_default f.backend_groups [], Chosen-or_default f.boot_timeout_seconds 300)

demand_of_lem :
    (f : Option DemandFile) (d : Option CapacityDemandConfig) → IsDemandOf f d → demand_of f ≡ d
unfolding default_boot_timeout
demand_of_lem none none h = refl
demand_of_lem none (some d) h = absurd h
demand_of_lem (some f) none h = absurd h
demand_of_lem (some f) (some d) (endpoint, groups, boot) =
    let groups_are = or_default_of f.backend_groups [] d.backend_groups groups in
    let boot_is = or_default_of f.boot_timeout_seconds 300 d.boot_timeout_seconds boot in
    rw (groups_are, boot_is, ← endpoint) refl

with_defaults-IsFilled : (f : ConfigFile) → IsFilled f (with_defaults f)
unfolding with_defaults default_map_label default_capacity default_character_label_prefix
    default_disconnect_annotation
with_defaults-IsFilled f = record {
  query_port = refl;
  map_label = Chosen-or_default f.map_label "map";
  max_characters = Chosen-or_default f.max_characters_per_server 128;
  prefix = Chosen-or_default f.character_label_prefix "characters.udp-director.io";
  annotation = Chosen-or_default f.disconnect_annotation "udp-director.io/disconnected-at";
  demand = demand_of-IsDemandOf f.capacity_demand;
  data_port = refl;
  data_ports = refl;
  default_endpoint = refl;
  timeout = refl;
  resources = refl;
  balancing = refl;
}

with_defaults_lem : (f : ConfigFile) (c : Config) → IsFilled f c → with_defaults f ≡ c
unfolding with_defaults default_map_label default_capacity default_character_label_prefix
    default_disconnect_annotation
with_defaults_lem f c v =
    let label = or_default_of f.map_label "map" c.map_label v.map_label in
    let room =
      or_default_of f.max_characters_per_server 128 c.max_characters_per_server v.max_characters in
    let prefix =
      or_default_of f.character_label_prefix "characters.udp-director.io" c.character_label_prefix
        v.prefix in
    let annotation =
      or_default_of f.disconnect_annotation "udp-director.io/disconnected-at"
        c.disconnect_annotation v.annotation in
    let demand = demand_of_lem f.capacity_demand c.capacity_demand v.demand in
    rw
      (
        label,
        room,
        prefix,
        annotation,
        demand,
        ← v.query_port,
        ← v.data_port,
        ← v.data_ports,
        ← v.default_endpoint,
        ← v.timeout,
        ← v.resources,
        ← v.balancing,
      )
      refl

config_path-Chosen :
    (variable : Option String)
    → Chosen variable "/etc/udp-director/config.yaml" (config_path variable)
unfolding config_path
config_path-Chosen variable = Chosen-or_default variable "/etc/udp-director/config.yaml"

config_path_lem :
    (variable : Option String) (path : String)
    → Chosen variable "/etc/udp-director/config.yaml" path
    → config_path variable ≡ path
unfolding config_path
config_path_lem variable path h = or_default_of variable "/etc/udp-director/config.yaml" path h

-- The file system, and the parsers of YAML and of URIs.
module _ (read_file : String → Option String) (parse_yaml : String → Option ConfigFile)
    (parse_uri : String → Option Uri) where
  abbrev validated : Config → Result Config
  validated c = validate parse_uri c >> ok c

  unfoldable pub load : Option String → Result Config
  load variable = do
    content ← or_fail (read_file (config_path variable)) config_unreadable
    file ← or_fail (parse_yaml content) config_malformed
    validated (with_defaults file)

  -- The file was read and parsed, and the configuration says what it says and is valid.
  abbrev pub IsLoaded : Option String → Config → Type 0
  IsLoaded variable c =
      (path : String) × ((content : String) × ((file : ConfigFile) × Chosen variable
            "/etc/udp-director/config.yaml" path
          × (read_file path ≡ some content)
          × (parse_yaml content ≡ some file)
          × IsFilled file c
          × IsValid parse_uri c))

  validated-IsValid : (d c : Config) → validated d ≡ ok c → (d ≡ c) × IsValid parse_uri c
  validated-IsValid d c h = elim (Result-cases (validate parse_uri d)) [
    | inl (tt, q) ↦
        let same : d ≡ c = ground (arith, h, q) in
        (same, rw (← same) ((validate_iff parse_uri d).0 q))
    | inr (inl (e, q)) ↦ absurd (ground (arith, h, q))
    | inr (inr q) ↦ absurd (ground (arith, h, q))
  ]

  load→ : (variable : Option String) (c : Config) → load variable ≡ ok c → IsLoaded variable c
  unfolding load
  load→ variable c h = elim (Option-cases (read_file (config_path variable))) [
    | inl q ↦ absurd (ground (arith, h, q))
    | inr (content, q) ↦ elim (Option-cases (parse_yaml content)) [
      | inl p ↦ absurd (ground (arith, h, q, p))
      | inr (file, p) ↦
          let (same, valid) = validated-IsValid (with_defaults file) c (rw (load, q, p) at h) in
          (
            config_path variable,
            (
              content,
              (
                file,
                config_path-Chosen variable,
                q,
                p,
                rw (← same) (with_defaults-IsFilled file),
                valid,
              ),
            ),
          )
    ]
  ]

  load← : (variable : Option String) (c : Config) → IsLoaded variable c → load variable ≡ ok c
  unfolding load
  load← variable c (path, (content, (file, chosen, q, p, filled, valid))) =
      rw
        (
          load,
          config_path_lem variable path chosen,
          q,
          p,
          with_defaults_lem file c filled,
          (validate_iff parse_uri c).1 valid,
        )
        refl

-- A configuration is loaded exactly when the file that CONFIG_PATH names, or else /etc/udp-
-- director/config.yaml, is read and parsed, the configuration has what the file gives and for what it
-- leaves out the documented default, and it is valid.
pub load_iff :
    (read_file : String → Option String) (parse_yaml : String → Option ConfigFile)
    (parse_uri : String → Option Uri) (variable : Option String) (c : Config)
    → (load read_file parse_yaml parse_uri variable ≡ ok c)
      ↔ IsLoaded read_file parse_yaml parse_uri variable c
load_iff read_file parse_yaml parse_uri variable c = (
  load→ read_file parse_yaml parse_uri variable c,
  load← read_file parse_yaml parse_uri variable c,
)
