-- ===== src/Monitor/Changes.antt =====
-- resource_monitor.rs: when the monitor invalidates the cache, and what its target text leaves out.
use udp_director.Prelude.{
  ◌≡◌, ◌≢◌, refl, sym, ap, inl, inr, String, Option, none, some, arith, ◌==◌, string_eq, Bool-cases,
  eq_iff, Option-cases, ◌∙◌,
}
use udp_director.Prelude.Maps.{lookup}
use udp_director.Result.{Error, Result, ok, err, panic, not_serialized, no_port_lookup}
use udp_director.Config.{Config, ResourceMapping}
use udp_director.Kube.Select.{ListCall, status_query_of, query_resources}
use udp_director.Proxy.{DefaultEndpointCache, invalidate}
use udp_director.Kube.{Resource}
use udp_director.Kube.Extract.{extract_address, extract_port}
use udp_director.Monitor.{
  MonitorState, name_or_unknown, resource_target, note_target, target_among, noted,
  check_default_endpoint,
}

abbrev pub target_of : ListCall → Config → ResourceMapping → Result (Option String)
target_of list config mapping =
    let endpoint = config.default_endpoint in
    target_among mapping (
      query_resources list endpoint.namespace mapping (status_query_of endpoint.status_query)
        endpoint.label_selector endpoint.annotation_selector)

-- The state after a target is noted, for the target that is seen and the cache before.
abbrev pub IsNoted : Option String → MonitorState → MonitorState → Type 0
IsNoted current st st' =
    (st'.last_default_endpoint ≡ current)
    × (current ≡ st.last_default_endpoint → st'.cache ≡ st.cache)
    × (current ≢ st.last_default_endpoint → st'.cache ≡ none)

note_target-IsNoted :
    (current last : Option String) (cache : Option DefaultEndpointCache)
    → IsNoted current
        (record { last_default_endpoint = last; cache = cache })
        (note_target current (record { last_default_endpoint = last; cache = cache }))
unfolding note_target invalidate
note_target-IsNoted none none cache = (refl, λ _. refl, λ n. absurd (n refl))
note_target-IsNoted none (some last) cache = (refl, λ h. absurd (ground (arith, h)), λ _. refl)
note_target-IsNoted (some now) none cache = (refl, λ h. absurd (ground (arith, h)), λ _. refl)
note_target-IsNoted (some now) (some last) cache = elim (Bool-cases (last == now)) [
  | inl same ↦
      let e : last ≡ now = (eq_iff last now).0 same in
      rw same (ap some e, λ _. refl, λ n. absurd (n (ap some (sym e))))
  | inr other ↦ rw other (refl, λ h. absurd (ground (arith, h, eq_iff last now)), λ _. refl)
]

noted-other :
    (r : Result (Option String)) (st : MonitorState)
    → ((current : Option String) → r ≢ ok current)
    → (noted r st).0 ≡ st
noted-other (ok current) st h = absurd (h current refl)
noted-other (err e) st h = refl
noted-other panic st h = refl

-- Where the endpoint's resource type is mapped and the monitor's look succeeds, with the target of the
-- first matching resource or with none where no resource matches, the monitor records what it saw, and
-- keeps the cache if that is what it had recorded and empties it if not; where the look fails or
-- panics, nothing changes.
pub check_default_endpoint-lem :
    (list : ListCall) (config : Config) (mapping : ResourceMapping) (st : MonitorState)
    → lookup config.default_endpoint.resource_type config.resource_query_mapping ≡ some mapping
    → ((current : Option String)
        → target_of list config mapping ≡ ok current
        → IsNoted current st (check_default_endpoint list config st).0)
      × (((current : Option String) → target_of list config mapping ≢ ok current)
          → (check_default_endpoint list config st).0 ≡ st)
unfolding check_default_endpoint
check_default_endpoint-lem list config mapping st h =
    rw (check_default_endpoint, h)
      (
        λ current q. rw q (note_target-IsNoted current st.last_default_endpoint st.cache),
        noted-other (target_of list config mapping) st,
      )

port_by-nothing : (r : Resource) → (e : Error) × (extract_port r none none ≡ err e)
unfolding extract_port
port_by-nothing r = elim (Option-cases r.json) [
  | inl q ↦ (not_serialized, ground (arith, q))
  | inr (json, q) ↦ (no_port_lookup, ground (arith, q))
]

target_by_name :
    (mapping : ResourceMapping) (r : Resource) (path address : String)
    → mapping.address_path ≡ some path
    → mapping.port_path ≡ none
    → mapping.port_name ≡ none
    → extract_address r path mapping.address_type ≡ ok address
    → resource_target mapping r ≡ ok (name_or_unknown r.name)
unfolding resource_target
target_by_name mapping r path address p no_path no_name q =
    let (e, fails) = port_by-nothing r in ground (arith, p, q, no_path, no_name, fails)

-- Under a mapping with an address path and neither a port path nor a port name, two resources of the
-- same name whose addresses can be extracted have the same target text, at whatever addresses.
pub resource_target-without_port :
    (mapping : ResourceMapping) (r s : Resource) (path address other : String)
    → mapping.address_path ≡ some path
    → mapping.port_path ≡ none
    → mapping.port_name ≡ none
    → r.name ≡ s.name
    → extract_address r path mapping.address_type ≡ ok address
    → extract_address s path mapping.address_type ≡ ok other
    → resource_target mapping r ≡ resource_target mapping s
resource_target-without_port mapping r s path address other p no_path no_name same q k =
    target_by_name mapping r path address p no_path no_name q
    ∙ ap (λ (name : Option String). ok (name_or_unknown name)) same
    ∙ sym (target_by_name mapping s path other p no_path no_name k)
