-- ===== src/Director/Startup.antt =====
-- main.rs: `verify_default_endpoint`, the report on the default endpoint at the start.
use udp_director.Prelude.{
  ℕ, String, Option, none, some, List, [], ◌∷◌, ◌≡◌, inl, inr, string_eq, arith, length,
}
use udp_director.Prelude.Maps.{Map, lookup}
use udp_director.Result.{Error, Result, Result-cases, ok, err, panic}
use udp_director.Config.{Config, ResourceMapping}
use udp_director.Kube.{Resource}
use udp_director.Kube.Extract.{extract_address, extract_port, extract_ports}
use udp_director.Kube.Select.{ListCall, status_query_of, query_resources}
use udp_director.Proxy.SinglePort.{or_unknown, extract_direct_endpoint}

-- What is logged of the first resource's target.
pub data TargetReport : Type 0 where
  not_extracted : TargetReport
  with_ports : String → Map String ℕ → TargetReport
  with_port : String → ℕ → TargetReport
  ports_failed port_failed address_failed : Error → TargetReport
  target_panicked : TargetReport

pub data Report : Type 0 where
  unknown_type : Report
  query_failed : Error → Report
  nothing_found : Report
  found : ℕ → String → TargetReport → Report
  query_panicked : Report

abbrev report_ports : String → Result (Map String ℕ) → TargetReport
report_ports address (ok ports) = with_ports address ports
report_ports address (err e) = ports_failed e
report_ports address panic = target_panicked

abbrev report_port : String → Result ℕ → TargetReport
report_port address (ok port) = with_port address port
report_port address (err e) = port_failed e
report_port address panic = target_panicked

abbrev report_lookup : Resource → ResourceMapping → String → TargetReport
report_lookup resource mapping address = elim mapping.ports [
  | some configured ↦ report_ports address (extract_ports resource configured)
  | none ↦ report_port address (extract_port resource mapping.port_path mapping.port_name)
]

abbrev report_address : Resource → ResourceMapping → Result String → TargetReport
report_address resource mapping (ok address) = report_lookup resource mapping address
report_address resource mapping (err e) = address_failed e
report_address resource mapping panic = target_panicked

unfoldable pub extract_and_log_target : Resource → ResourceMapping → String → TargetReport
extract_and_log_target resource mapping address_path =
    report_address resource mapping (extract_address resource address_path mapping.address_type)

abbrev report_target : Resource → ResourceMapping → Option String → TargetReport
report_target resource mapping none = not_extracted
report_target resource mapping (some path) = extract_and_log_target resource mapping path

unfoldable pub handle_query_success : List Resource → ResourceMapping → Report
unfolding extract_and_log_target
handle_query_success [] mapping = nothing_found
handle_query_success (r ∷ rs) mapping =
    found (length (r ∷ rs)) (or_unknown r.name) (report_target r mapping mapping.address_path)

abbrev report_query : ResourceMapping → Result (List Resource) → Report
report_query mapping (ok resources) = handle_query_success resources mapping
report_query mapping (err e) = query_failed e
report_query mapping panic = query_panicked

unfoldable pub verify_default_endpoint : ListCall → Config → Report
unfolding handle_query_success
verify_default_endpoint list config =
    let endpoint = config.default_endpoint in
    elim (lookup endpoint.resource_type config.resource_query_mapping) [
      | none ↦ unknown_type
      | some mapping ↦ report_query mapping (
          query_resources list endpoint.namespace mapping (status_query_of endpoint.status_query)
            endpoint.label_selector endpoint.annotation_selector)
    ]

-- A target with one port that is reported is the one that can be extracted.
pub extract_and_log_target-with_port :
    (resource : Resource) (mapping : ResourceMapping) (path address : String) (port : ℕ)
    → mapping.ports ≡ none
    → extract_and_log_target resource mapping path ≡ with_port address port
    → extract_direct_endpoint resource mapping path ≡ ok (address, port)
unfolding extract_and_log_target extract_direct_endpoint
extract_and_log_target-with_port resource mapping path address port single h =
    elim (Result-cases (extract_address resource path mapping.address_type)) [
      | inr (inl (e, q)) ↦ absurd (ground (arith, h, q))
      | inr (inr q) ↦ absurd (ground (arith, h, q))
      | inl (a, q) ↦
          elim (Result-cases (extract_port resource mapping.port_path mapping.port_name)) [
            | inr (inl (e, p)) ↦ absurd (ground (arith, h, q, p, single))
            | inr (inr p) ↦ absurd (ground (arith, h, q, p, single))
            | inl (b, p) ↦ ground (arith, h, q, p, single)
          ]
    ]
