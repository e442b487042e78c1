-- ===== src/Proxy/Endpoint.antt =====
-- proxy.rs: the default endpoint that a query gives, with its ports.
use udp_director.Prelude.{
  ℕ, ◌<◌, ◌^◌, ◌≡◌, refl, inl, inr, String, some, List, [], ◌∷◌, arith, nat_eq, string_eq, pair_eq,
  All, In, Option-cases, Bool-cases,
}
use udp_director.Prelude.Maps.{Map, lookup, insert, All-insert, All-lookup}
use udp_director.Result.{ok}
use udp_director.Net.{Protocol, protocol_eq}
use udp_director.Config.{Config, DataPortConfig, ResourceMapping, get_data_ports, is_nil}
use udp_director.Balancer.{LoadBalancer, select_backend}
use udp_director.Result.{Result-cases}
use udp_director.Kube.{Resource}
use udp_director.Kube.Select.{ListCall, status_query_of, query_resources}
use udp_director.Kube.Extract.{extract_address, extract_port, extract_ports}
use udp_director.Kube.Ports.{Fits, extract_port-bound, extract_ports-Fits}
use udp_director.Session.{PortMappings}
use udp_director.Proxy.{
  named_mappings, same_mappings, endpoint_ports, extract_endpoint_target_multi_port,
  query_default_endpoint,
}

-- A route leads from a data port of the configuration to a port of 16 bits.
abbrev pub IsRoute : List DataPortConfig → (ℕ × Protocol) × ℕ → Type 0
IsRoute data_ports (key, target) =
    (target < 2 ^ 16) × ((p : DataPortConfig) × In p data_ports × (key ≡ (p.port, p.protocol)))

module _ (all_ports : List DataPortConfig) where
  named_mappings-IsRoute :
      (ports : Map String ℕ) (ps : List DataPortConfig) (mappings : PortMappings)
      → Fits ports
      → ((p : DataPortConfig) → In p ps → In p all_ports)
      → All (IsRoute all_ports) mappings
      → All (IsRoute all_ports) (named_mappings ports ps mappings)
  unfolding named_mappings
  named_mappings-IsRoute ports [] mappings fits inside h = h
  named_mappings-IsRoute ports (p ∷ ps) mappings fits inside h =
      elim (Option-cases (lookup p.name ports)) [
        | inl q ↦
            rw (named_mappings, q)
              (named_mappings-IsRoute ports ps mappings fits (λ o m. inside o (inr m)) h)
        | inr (target, q) ↦
            rw (named_mappings, q)
              (named_mappings-IsRoute ports ps (insert (p.port, p.protocol) target mappings) fits
                (λ o m. inside o (inr m))
                (All-insert (IsRoute all_ports) (p.port, p.protocol) target mappings
                  (
                    All-lookup (λ (entry : String × ℕ). entry.1 < 2 ^ 16) p.name target ports fits
                        q,
                    (p, inside p (inl refl), refl),
                  )
                  h))
      ]

  same_mappings-IsRoute :
      (target : ℕ) (ps : List DataPortConfig) (mappings : PortMappings)
      → target < 2 ^ 16
      → ((p : DataPortConfig) → In p ps → In p all_ports)
      → All (IsRoute all_ports) mappings
      → All (IsRoute all_ports) (same_mappings target ps mappings)
  unfolding same_mappings
  same_mappings-IsRoute target [] mappings fits inside h = h
  same_mappings-IsRoute target (p ∷ ps) mappings fits inside h =
      same_mappings-IsRoute target ps (insert (p.port, p.protocol) target mappings) fits
        (λ o m. inside o (inr m))
        (All-insert (IsRoute all_ports) (p.port, p.protocol) target mappings
          (fits, (p, inside p (inl refl), refl)) h)

endpoint_ports-IsRoute :
    (config : Config) (r : Resource) (mapping : ResourceMapping) (mappings : PortMappings)
    → endpoint_ports config r mapping ≡ ok mappings
    → All (IsRoute (get_data_ports config)) mappings
unfolding endpoint_ports
endpoint_ports-IsRoute config r mapping mappings h = elim (Option-cases mapping.ports) [
  | inr (configured, q) ↦ elim (Result-cases (extract_ports r configured)) [
    | inr (inl (e, x)) ↦ absurd cc
    | inr (inr x) ↦ absurd cc
    | inl (ports, x) ↦
        let is : named_mappings ports (get_data_ports config) [] ≡ mappings =
          ground (arith, h, q, x) in
        rw (← is) (
          named_mappings-IsRoute (get_data_ports config) ports (get_data_ports config) []
            (extract_ports-Fits r configured ports x) (λ p m. m) tt)
  ]
  | inl q ↦ elim (Result-cases (extract_port r mapping.port_path mapping.port_name)) [
    | inr (inl (e, x)) ↦ absurd cc
    | inr (inr x) ↦ absurd cc
    | inl (port, x) ↦
        let is : same_mappings port (get_data_ports config) [] ≡ mappings =
          ground (arith, h, q, x) in
        rw (← is) (
          same_mappings-IsRoute (get_data_ports config) port (get_data_ports config) []
            (extract_port-bound r mapping.port_path mapping.port_name port x) (λ p m. m) tt)
  ]
]

-- The address of a resource under its mapping, and routes of the data ports.
abbrev pub IsTarget : Config → ResourceMapping → Resource → String → PortMappings → Type 0
IsTarget config mapping r address mappings =
    ((path : String) × (mapping.address_path ≡ some path)
      × (extract_address r path mapping.address_type ≡ ok address))
    × All (IsRoute (get_data_ports config)) mappings

extract_endpoint_target_multi_port-IsTarget :
    (config : Config) (r : Resource) (mapping : ResourceMapping) (address : String)
    (mappings : PortMappings)
    → extract_endpoint_target_multi_port config r mapping ≡ ok (address, mappings)
    → IsTarget config mapping r address mappings
unfolding extract_endpoint_target_multi_port
extract_endpoint_target_multi_port-IsTarget config r mapping address mappings h =
    elim (Option-cases mapping.address_path) [
      | inl q ↦ absurd cc
      | inr (path, q) ↦ elim (Result-cases (extract_address r path mapping.address_type)) [
        | inr (inl (e, x)) ↦ absurd cc
        | inr (inr x) ↦ absurd cc
        | inl (found, x) ↦ elim (Result-cases (endpoint_ports config r mapping)) [
          | inr (inl (e, y)) ↦ absurd cc
          | inr (inr y) ↦ absurd cc
          | inl (ports, y) ↦
              let is : (found ≡ address) × (ports ≡ mappings) = ground (arith, h, q, x, y) in
              (
                (path, q, rw (← is.0) x),
                endpoint_ports-IsRoute config r mapping mappings (rw (← is.1) y),
              )
        ]
      ]
    ]

-- The answer comes from one of the matching resources, the one that the balancer selects.
abbrev pub IsEndpoint : ListCall → Config → LoadBalancer → String → PortMappings → Type 0
IsEndpoint list config balancer address mappings =
    let endpoint = config.default_endpoint in
    (mapping : ResourceMapping) × (path : String) × (resources : List Resource)
    × (selected : Resource) × (lookup endpoint.resource_type config.resource_query_mapping
        ≡ some mapping)
    × (query_resources list endpoint.namespace mapping (status_query_of endpoint.status_query)
          endpoint.label_selector endpoint.annotation_selector
        ≡ ok resources)
    × (select_backend balancer resources path mapping.address_type ≡ ok selected)
    × IsTarget config mapping selected address mappings

-- A default endpoint that is found is the target of the resource that the balancer selects from those
-- that match: its address, and routes that lead from data ports of the configuration to ports of 16
-- bits.
pub query_default_endpoint-IsEndpoint :
    (list : ListCall) (config : Config) (balancer : LoadBalancer) (address : String)
    (mappings : PortMappings)
    → query_default_endpoint list config balancer ≡ ok (address, mappings)
    → IsEndpoint list config balancer address mappings
unfolding query_default_endpoint
query_default_endpoint-IsEndpoint list config balancer address mappings h =
    let endpoint = config.default_endpoint in
    elim (Option-cases (lookup endpoint.resource_type config.resource_query_mapping)) [
      | inl q ↦ absurd cc
      | inr (mapping, q) ↦
          elim (Result-cases (
            query_resources list endpoint.namespace mapping (status_query_of endpoint.status_query)
              endpoint.label_selector endpoint.annotation_selector)) [
                | inr (inl (e, x)) ↦ absurd cc
                | inr (inr x) ↦ absurd cc
                | inl (rs, x) ↦ elim (Bool-cases (is_nil rs)) [
                  | inl nothing ↦ absurd cc
                  | inr some_rs ↦ elim (Option-cases mapping.address_path) [
                    | inl y ↦ absurd cc
                    | inr (path, y) ↦
                        elim (Result-cases (select_backend balancer rs path mapping.address_type)) [
                          | inr (inl (e, z)) ↦ absurd cc
                          | inr (inr z) ↦ absurd cc
                          | inl (selected, z) ↦ (
                            mapping,
                            path,
                            rs,
                            selected,
                            q,
                            x,
                            z,
                            extract_endpoint_target_multi_port-IsTarget config selected mapping
                                address mappings (ground (arith, h, q, x, some_rs, y, z)),
                          )
                        ]
                  ]
                ]
              ]
    ]
