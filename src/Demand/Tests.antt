-- ===== src/Demand/Tests.antt =====
-- demand.rs: signals for two groups.
use udp_director.Prelude.{◌≡◌, [], ◌∷◌, length, List, some, string_eq, arith}
use udp_director.Config.{CapacityDemandConfig}
use udp_director.Demand.{
  CapacityDemand, signal, strong_count, retain_live, acquire, drop_flight, release,
}
use udp_director.Prelude.Maps.{lookup, insert}
use udp_director.Demand.Sharing.{IsHeld, signal-IsHeld}
use udp_director.Demand.Shared.{DemandEvent, signalled, dropped, demand_run, signal-shared}

abbrev config : CapacityDemandConfig
config = record { endpoint = "http://controller"; backend_groups = []; boot_timeout_seconds = 300 }

-- The flight of one group is held by a query, that of the other has ended.
abbrev demand : CapacityDemand
demand = record {
  flights = ("town", 0) ∷ ("arena", 1) ∷ [];
  started =
      record { group = "town"; deadline = 300; strong = 1 }
      ∷ record { group = "arena"; deadline = 200; strong = 0 }
      ∷ [];
}

signal-IsHeld_example : IsHeld "arena" demand (signal config "arena" 5 demand)
signal-IsHeld_example = signal-IsHeld config "arena" 5 demand

-- Another query joins the flight, one for the other group comes, and the first one ends.
abbrev between : List DemandEvent
between = signalled "town" 6 ∷ signalled "arena" 7 ∷ dropped 0 ∷ []

signal-shared_example :
    (let (id, first) = signal config "town" 5 demand in
      let before = demand_run config between first in
      ((signal config "town" 9 before).0 ≡ id)
      × (length (signal config "town" 9 before).1.started ≡ length before.started)
      × (lookup "town" (signal config "town" 9 before).1.flights ≡ some id))
unfolding signal strong_count retain_live acquire lookup drop_flight release insert
signal-shared_example =
    signal-shared config "town" 5 9 between demand
      (omega arith, (omega arith, (omega arith, omega arith)))
