-- ===== src/Monitor.antt =====
-- resource_monitor.rs: the check of the default endpoint, which invalidates the proxy's cache.
pub mod Changes
pub mod Rounds
pub mod Tests
use Prim.Native.String
use udp_director.Prelude.{
  ℕ, String, Bool, Option, none, some, List, [], ◌∷◌, ◌==◌, string_eq, if◌then◌else◌,
}
use udp_director.Prelude.Maps.{lookup}
use udp_director.Result.{Result, ok, err, panic}
use udp_director.Net.{show_u16}
use udp_director.Config.{Config, ResourceMapping}
use udp_director.Kube.{Resource}
use udp_director.Kube.Extract.{extract_address, extract_port}
use udp_director.Kube.Select.{ListCall, status_query_of, query_resources}
use udp_director.Proxy.{DefaultEndpointCache, invalidate}

pub record MonitorState : Type 0 where
  pub last_default_endpoint : Option String
  pub cache : Option DefaultEndpointCache

abbrev pub name_or_unknown : Option String → String
name_or_unknown none = "unknown"
name_or_unknown (some name) = name

-- `format!("{} ({}:{})", resource_name, address, port)`
unfoldable pub target_text : String → String → ℕ → String
target_text name address port =
    String.◌++◌ name
      (String.◌++◌ " (" (String.◌++◌ address (String.◌++◌ ":" (String.◌++◌ (show_u16 port) ")"))))

abbrev with_port : String → String → Result ℕ → Result String
with_port name address (ok port) = ok (target_text name address port)
with_port name address (err e) = ok name
with_port name address panic = panic

abbrev with_address : ResourceMapping → Resource → String → Result String → Result String
with_address mapping r name (ok address) =
    with_port name address (extract_port r mapping.port_path mapping.port_name)
with_address mapping r name (err e) = ok name
with_address mapping r name panic = panic

-- The text that stands for a resource: its name, with the address and port that can be extracted.
unfoldable pub resource_target : ResourceMapping → Resource → Result String
resource_target mapping r = elim mapping.address_path [
  | none ↦ ok (name_or_unknown r.name)
  | some path ↦
      with_address mapping r (name_or_unknown r.name) (extract_address r path mapping.address_type)
]

abbrev some_target : Result String → Result (Option String)
some_target (ok text) = ok (some text)
some_target (err e) = err e
some_target panic = panic

-- Of the matching resources the first one counts.
unfoldable pub current_target : ResourceMapping → List Resource → Result (Option String)
current_target mapping [] = ok none
current_target mapping (r ∷ rs) = some_target (resource_target mapping r)

-- The comparison with the last state that was seen.
unfoldable pub note_target : Option String → MonitorState → MonitorState
note_target current st = elim st.last_default_endpoint [
  | none ↦ elim current [
    | none ↦ st
    | some now ↦ record { last_default_endpoint = some now; cache = invalidate st.cache }
  ]
  | some last ↦ elim current [
    | none ↦ record { last_default_endpoint = none; cache = invalidate st.cache }
    | some now ↦
        if last == now
        then st
        else record { last_default_endpoint = some now; cache = invalidate st.cache }
  ]
]

abbrev pub noted : Result (Option String) → MonitorState → MonitorState × Result (Unit {0})
noted (ok current) st = (note_target current st, ok tt)
noted (err e) st = (st, err e)
noted panic st = (st, panic)

abbrev pub target_among : ResourceMapping → Result (List Resource) → Result (Option String)
target_among mapping (ok resources) = current_target mapping resources
target_among mapping (err e) = err e
target_among mapping panic = panic

unfoldable pub check_default_endpoint :
    ListCall → Config → MonitorState → MonitorState × Result (Unit {0})
check_default_endpoint list config st =
    let endpoint = config.default_endpoint in
    elim (lookup endpoint.resource_type config.resource_query_mapping) [
      | none ↦ (st, ok tt)
      | some mapping ↦
          noted
            (target_among mapping (
              query_resources list endpoint.namespace mapping
                (status_query_of endpoint.status_query) endpoint.label_selector
                endpoint.annotation_selector))
            st
    ]
