-- ===== src/Query/Flights.antt =====
-- query_server.rs and demand.rs: the flight for capacity that a query takes when it first waits, and
-- keeps over its waits. Its answer and its deadline reach the query as the events of the waits.
use udp_director.Prelude.{ℕ, ◌≡◌, ◌≢◌, ◌⊎◌, String, Option, none, some, List, [], string_eq, nat_eq}
use udp_director.Prelude.Maps.{lookup}
use udp_director.Result.{Result}
use udp_director.Net.{SocketAddr}
use udp_director.Config.{CapacityDemandConfig, Config}
use udp_director.Demand.{CapacityDemand, signal}
use udp_director.Demand.Sharing.{IsHeld}
use udp_director.Kube.Select.{ListCall}
use udp_director.Session.Manager.{Store}
use udp_director.Query.{QueryRequest, access_of}
use udp_director.Query.Targets.{Cluster}
use udp_director.Query.Process.{WaitEvent, Progress, waiting, done, process_access}

abbrev group_or_map : String → Option String → String
group_or_map map none = map
group_or_map map (some group) = group

-- `backend_groups.get(&map).unwrap_or(&map)`
unfoldable pub demanded_group : CapacityDemandConfig → String → String
demanded_group demand map = group_or_map map (lookup map demand.backend_groups)

abbrev pub take_flight :
    Option CapacityDemandConfig → String → ℕ → CapacityDemand → Option ℕ × CapacityDemand
take_flight none map now d = (none, d)
take_flight (some demand) map now d =
    let (id, d') = signal demand (demanded_group demand map) now d in (some id, d')

-- `flight.get_or_insert_with`: the flight is taken where the first selection finds nobody.
abbrev pub flight_after :
    Progress → Option CapacityDemandConfig → String → ℕ → CapacityDemand → Option ℕ × CapacityDemand
flight_after waiting demand map now d = take_flight demand map now d
flight_after (done r) demand map now d = (none, d)

module _ (cluster : Cluster) (config : Config) (client : SocketAddr) (clock : ℕ) where
  -- The query together with the flights that all queries share.
  unfoldable pub process_with_demand :
      QueryRequest
      → ListCall
      → List WaitEvent
      → Store
      → CapacityDemand
      → (Store × Progress) × (Option ℕ × CapacityDemand)
  process_with_demand request list events st d = (
    process_access cluster config client clock request list events st,
    flight_after (process_access cluster config client clock request list [] st).1
        config.capacity_demand (access_of request).map clock d,
  )

  -- What the first selection comes to: an end, or a wait under a configured demand.
  abbrev DemandIf : Store × Progress → Type 0
  DemandIf out =
      ((r : _) × (out.1 ≡ done r))
      ⊎ ((out.1 ≡ waiting) × ((c : CapacityDemandConfig) × (config.capacity_demand ≡ some c)))

-- The alias of the map, where one is configured, or else the map.
abbrev pub IsGroupOf : CapacityDemandConfig → String → String → Type 0
IsGroupOf demand map group =
    (lookup map demand.backend_groups ≡ some group)
    ⊎ ((lookup map demand.backend_groups ≡ none) × (group ≡ map))

-- The query was settled at once and took no flight, or it waited, and holds a flight of its group.
abbrev pub TakesFlight :
    Config → String → Progress → CapacityDemand → Option ℕ × CapacityDemand → Type 0
TakesFlight config map first d taken =
    ((first ≢ waiting) × (taken ≡ (none, d)))
    ⊎ ((first ≡ waiting)
        × ((demand : CapacityDemandConfig) × ((group : String) × ((id : ℕ) × (config.capacity_demand
                  ≡ some demand)
                × IsGroupOf demand map group
                × (taken.0 ≡ some id)
                × IsHeld group d (id, taken.1)))))
