-- ===== src/Query/Process.antt =====
-- query_server.rs: `process_access` with its wait for capacity, and `process_query`. The handler runs
-- over the events that end its waits. The flight of a demand, which it takes when it first waits, is in
-- Flights; the assignment lock, which keeps other assignments out of a selection, has no state here.
use Prim.Native.String
use udp_director.Prelude.{
  ℕ, String, Bool, true, false, not, ◌&&◌, Option, none, some, List, [], ◌∷◌, ◌==◌, string_eq,
  nat_eq, pair_eq, if◌then◌else◌, any,
}
use udp_director.Prelude.Maps.{Map, lookup, insert}
use udp_director.Result.{
  Error, DemandError, Result, ok, err, panic, ◌>>=◌, ◌>>◌, ensure, or_fail, demand, unknown_group,
  maintenance, unavailable, timeout, cancelled, missing_server_mapping, not_a_pod_mapping,
  no_pod_name, no_data_ports, no_server_identity,
}
use udp_director.Net.{SocketAddr, protocol_eq}
use udp_director.Config.{Config, ResourceMapping, get_data_ports, is_nil, is_pod_mapping}
use udp_director.Kube.{Resource, entries, allocate_character}
use udp_director.Kube.Select.{ListCall, status_query_of, query_resources_snapshot}
use udp_director.Kube.Watch.{WatchStart, wait_for_pod_change}
use udp_director.Characters.{Character, CharacterStatus, allocated, used, disconnected}
use udp_director.Session.{PortMappings}
use udp_director.Session.Manager.{Store, upsert_multi_port}
use udp_director.Query.Targets.{Cluster, target_ports, routes_for}
use udp_director.Query.{
  QueryRequest, QueryResponse, success, error, Access, access_of, has_invalid, Candidate,
  candidates_from, list_servers, eligible,
}

abbrev pub invalid_text : String
invalid_text = "Invalid map or character ID"

abbrev pub no_server_text : String
no_server_text = "No server available"

-- How one wait for capacity ends: the client goes away, the deadline passes, or the demand is answered
-- and a watch and a new list follow, with the instant at which the candidates are taken.
pub data WaitEvent : Type 0 where
  disconnect deadline : WaitEvent
  answered : Option DemandError → WatchStart → ListCall → ℕ → WaitEvent

abbrev pub demand_result : Option DemandError → Result (Unit {0})
demand_result none = ok tt
demand_result (some e) = err (demand e)

-- The handler's result once it has one.
pub data Progress : Type 0 where
  waiting : Progress
  done : Result QueryResponse → Progress

unfoldable pub character_key : Config → String → String
character_key config character =
    String.◌++◌ config.character_label_prefix (String.◌++◌ "/" character)

abbrev pub is_used : CharacterStatus → Bool
is_used used = true
is_used allocated = false
is_used disconnected = false

abbrev pub is_used_by : String → Character → Bool
is_used_by character c = (c.character_id == character) && is_used c.status

-- A connected player's label is left alone.
unfoldable pub allocate_unless_used : Cluster → Config → Candidate → String → Result (Unit {0})
allocate_unless_used cluster config chosen character =
    if any (is_used_by character) chosen.characters
    then ok tt
    else allocate_character cluster.accepts config.default_endpoint.namespace chosen.pod
        (character_key config character)

-- What an assignment yields before the session is installed.
pub record Assignment : Type 0 where
  pub ip : String
  pub routes : PortMappings
  pub server : String
  pub public_ports : Map String ℕ

unfoldable pub assign : Cluster → Config → ResourceMapping → String → Candidate → Result Assignment
assign cluster config mapping character chosen = do
  name ← or_fail chosen.pod.name no_pod_name
  (ip, ports) ← target_ports cluster config chosen.resource mapping name
  (routes, public_ports) ← routes_for ports (get_data_ports config) [] []
  ensure (not (is_nil routes)) no_data_ports
  server ← or_fail chosen.pod.uid no_server_identity
  allocate_unless_used cluster config chosen character
  ok (record { ip = ip; routes = routes; server = server; public_ports = public_ports })

unfoldable pub finish_assignment : ℕ → SocketAddr → Result Assignment → Store → Store × Progress
finish_assignment now client (ok a) st = (
  upsert_multi_port now client a.ip a.routes st,
  done (ok (success "Allocated" a.server a.public_ports)),
)
finish_assignment now client (err e) st = (st, done (err e))
finish_assignment now client panic st = (st, done panic)

module _ (cluster : Cluster) (config : Config) (mapping : ResourceMapping) (client : SocketAddr)
    (clock : ℕ) where
  abbrev pub wanted_labels : String → Map String String
  wanted_labels map = insert config.map_label map (entries config.default_endpoint.label_selector)

  unfoldable pub read_snapshot : String → ListCall → Result (List Resource × String)
  read_snapshot map list =
      query_resources_snapshot list config.default_endpoint.namespace mapping
        (status_query_of config.default_endpoint.status_query) (some (wanted_labels map))
        config.default_endpoint.annotation_selector

  -- The `select!` of one wait.
  unfoldable pub wait_result : String → String → WaitEvent → Result (List Resource × String × ℕ)
  wait_result map version disconnect = err (demand cancelled)
  wait_result map version deadline = err (demand timeout)
  wait_result map version (answered refusal start list now) = do
    demand_result refusal
    wait_for_pod_change version start
    (resources, version') ← read_snapshot map list
    ok (resources, version', now)

  abbrev pub candidates_at : List Resource → ℕ → Result (List Candidate)
  candidates_at resources now = candidates_from cluster.formats cluster.to_pod config now resources

  -- The candidates for a character, in the order of preference, of one snapshot.
  unfoldable pub eligible_at : String → List String → List Resource → ℕ → Result (List Candidate)
  eligible_at character ids resources now = do
    candidates ← candidates_at resources now
    ok (eligible config character ids candidates)

  abbrev pub give_up : Store → Store × Progress
  give_up st = (st, done (ok (error no_server_text)))

  -- The loop that selects, and waits where nothing can be selected.
  unfoldable pub select_loop :
      Access → String → Result (List Candidate) → String → List WaitEvent → Store → Store × Progress
  select_loop a character (err e) version events st = (st, done (err e))
  select_loop a character panic version events st = (st, done panic)
  select_loop a character (ok (chosen ∷ _)) version events st =
      finish_assignment clock client (assign cluster config mapping character chosen) st
  select_loop a character (ok []) version [] st = elim config.capacity_demand [
    | none ↦ give_up st
    | some _ ↦ (st, waiting)
  ]
  select_loop a character (ok []) version (event ∷ events) st = elim config.capacity_demand [
    | none ↦ give_up st
    | some _ ↦ elim (wait_result a.map version event) [
      | err e ↦ (st, done (err e))
      | panic ↦ (st, done panic)
      | ok (resources, version', now) ↦
          select_loop a character (eligible_at character a.ids resources now) version' events st
    ]
  ]

  abbrev pub list_at : List String → List Resource → Result QueryResponse
  list_at ids resources = do
    candidates ← candidates_at resources cluster.now
    list_servers ids candidates

  -- The first snapshot of either kind of request.
  abbrev pub with_snapshot :
      Access
      → Option String
      → Result (List Resource × String)
      → List WaitEvent
      → Store
      → Store × Progress
  with_snapshot a character (err e) events st = (st, done (err e))
  with_snapshot a character panic events st = (st, done panic)
  with_snapshot a none (ok (resources, version)) events st = (st, done (list_at a.ids resources))
  with_snapshot a (some character) (ok (resources, version)) events st =
      select_loop a character (eligible_at character a.ids resources cluster.now) version events st

module _ (cluster : Cluster) (config : Config) (client : SocketAddr) (clock : ℕ) where
  abbrev pub with_mapping :
      Access → ListCall → List WaitEvent → Option ResourceMapping → Store → Store × Progress
  with_mapping a list events none st = (st, done (err missing_server_mapping))
  with_mapping a list events (some mapping) st =
      if is_pod_mapping mapping
      then with_snapshot cluster config mapping client clock a a.character
          (read_snapshot cluster config mapping client clock a.map list) events st
      else (st, done (err not_a_pod_mapping))

  unfoldable pub process_access :
      QueryRequest → ListCall → List WaitEvent → Store → Store × Progress
  process_access request list events st =
      let a = access_of request in
      if has_invalid a
      then (st, done (ok (error invalid_text)))
      else with_mapping a list events
          (lookup config.default_endpoint.resource_type config.resource_query_mapping) st

-- The text of an error in the response; `none` where the client has gone away.
unfoldable pub demand_text : DemandError → String
demand_text unknown_group = "Unknown backend group"
demand_text maintenance = "Backend group is under maintenance"
demand_text unavailable = "Capacity demand unavailable"
demand_text timeout = "Server startup timed out"
demand_text cancelled = "Query disconnected"

unfoldable pub error_text : Error → String
unfolding demand_text
error_text (demand e) = demand_text e
error_text _ = "Unable to establish route"

-- `matches!(error.downcast_ref(), Some(DemandError::Cancelled))`
unfoldable pub is_cancelled : Error → Bool
is_cancelled (demand cancelled) = true
is_cancelled _ = false

-- What the client is told at the end; a panic closes the connection with no response.
unfoldable pub response_of : Result QueryResponse → Option QueryResponse
response_of (ok response) = some response
response_of (err e) = if is_cancelled e then none else some (error (error_text e))
response_of panic = none
