-- ===== src/Config/Validity.antt =====
-- What `Config::validate` (config.rs) accepts, stated without its order of tests.
use udp_director.Prelude.{
  ◌<◌, ◌≡◌, refl, ◌↔◌, inl, inr, String, true, false, Option, none, some, List, [], ◌∷◌, arith,
  nat_eq, string_eq, is_some, All, Option-cases,
}
use udp_director.Prelude.Maps.{Map, lookup}
use udp_director.Text.{is_empty}
use udp_director.Result.{ok}
use udp_director.Characters.Ids.{valid_character_id}
use udp_director.Config.{
  Config, CapacityDemandConfig, DataPortConfig, ResourceMapping, Uri, get_data_ports,
  is_pod_mapping, is_http, is_nil, validate_groups, validate_ports, validate_demand,
  validate_capacity, validate,
}

abbrev pub IsUsablePort : DataPortConfig → Type 0
IsUsablePort p = (0 < p.port) × (is_empty p.name ≡ false)

abbrev pub IsGroupAlias : String × String → Type 0
IsGroupAlias (map, group) = (valid_character_id map ≡ true) × (valid_character_id group ≡ true)

module _ (parse_uri : String → Option Uri) where
  pub record IsDemand (c : Config) (d : CapacityDemandConfig) : Type 0 where
    pub uri : Uri
    pub parsed : parse_uri d.endpoint ≡ some uri
    pub http : is_http uri.scheme_str ≡ true
    pub absolute : is_some uri.authority ≡ true
    pub boot_time : 0 < d.boot_timeout_seconds
    pub aliases : All IsGroupAlias d.backend_groups
    pub mapping : ResourceMapping
    pub mapped : lookup c.default_endpoint.resource_type c.resource_query_mapping ≡ some mapping
    pub pods : is_pod_mapping mapping ≡ true

  abbrev pub HasDemand : Config → Option CapacityDemandConfig → Type 0
  HasDemand c none = Unit
  HasDemand c (some d) = IsDemand c d

  pub record IsValid (c : Config) : Type 0 where
    pub demand : HasDemand c c.capacity_demand
    pub query_port : 0 < c.query_port
    pub ports_given : is_nil (get_data_ports c) ≡ false
    pub ports : All IsUsablePort (get_data_ports c)
    pub resource_type : is_empty c.default_endpoint.resource_type ≡ false
    pub namespace : is_empty c.default_endpoint.namespace ≡ false
    pub mapping : is_nil c.resource_query_mapping ≡ false

validate_ports_iff : (ps : List DataPortConfig) → (validate_ports ps ≡ ok tt) ↔ All IsUsablePort ps
unfolding validate_ports
validate_ports_iff [] = (λ _. tt, λ _. refl)
validate_ports_iff (p ∷ ps) = ground (arith, validate_ports_iff ps)

validate_groups_iff : (gs : Map String String) → (validate_groups gs ≡ ok tt) ↔ All IsGroupAlias gs
unfolding validate_groups
validate_groups_iff [] = (λ _. tt, λ _. refl)
validate_groups_iff ((map, group) ∷ gs) = ground (arith, validate_groups_iff gs)

module _ (parse_uri : String → Option Uri) (c : Config) where
  validate_demand→ :
      (d : CapacityDemandConfig) → validate_demand parse_uri c d ≡ ok tt → IsDemand parse_uri c d
  unfolding validate_demand
  validate_demand→ d h = elim (Option-cases (parse_uri d.endpoint)) [
    | inl e ↦ absurd (ground arith)
    | inr (uri, parsed) ↦
        elim (Option-cases (lookup c.default_endpoint.resource_type c.resource_query_mapping)) [
          | inl e ↦ absurd (ground arith)
          | inr (mapping, mapped) ↦ record {
            uri = uri;
            parsed = parsed;
            http = ground arith;
            absolute = ground arith;
            boot_time = ground arith;
            aliases = (validate_groups_iff d.backend_groups).0 (ground arith);
            mapping = mapping;
            mapped = mapped;
            pods = ground arith;
          }
        ]
  ]

  validate_demand← :
      (d : CapacityDemandConfig) → IsDemand parse_uri c d → validate_demand parse_uri c d ≡ ok tt
  unfolding validate_demand
  validate_demand← d v = ground (
    arith,
    v.parsed,
    v.http,
    v.absolute,
    v.boot_time,
    v.mapped,
    v.pods,
    (validate_groups_iff d.backend_groups).1 v.aliases,
  )

  validate_capacity_iff :
      (o : Option CapacityDemandConfig)
      → (validate_capacity parse_uri c o ≡ ok tt) ↔ HasDemand parse_uri c o
  unfolding validate_capacity
  validate_capacity_iff none = (λ _. tt, λ _. refl)
  validate_capacity_iff (some d) = (validate_demand→ d, validate_demand← d)

  validate→ : validate parse_uri c ≡ ok tt → IsValid parse_uri c
  unfolding validate
  validate→ h = record {
    demand = (validate_capacity_iff c.capacity_demand).0 (ground arith);
    query_port = ground arith;
    ports_given = ground arith;
    ports = (validate_ports_iff (get_data_ports c)).0 (ground arith);
    resource_type = ground arith;
    namespace = ground arith;
    mapping = ground arith;
  }

  validate← : IsValid parse_uri c → validate parse_uri c ≡ ok tt
  unfolding validate
  validate← v = ground (
    arith,
    v.query_port,
    v.ports_given,
    v.resource_type,
    v.namespace,
    v.mapping,
    (validate_capacity_iff c.capacity_demand).1 v.demand,
    (validate_ports_iff (get_data_ports c)).1 v.ports,
  )

  -- A configuration is accepted exactly when its query port and its data ports can be used, the
  -- default endpoint is named, a mapping is given, and the demand signal, where there is one, has an
  -- absolute HTTP endpoint, a boot time, aliases that are labels and a mapping to core Pods.
  pub validate_iff : (validate parse_uri c ≡ ok tt) ↔ IsValid parse_uri c
  validate_iff = (validate→, validate←)
