-- ===== src/Demand.antt =====
-- demand.rs: the signal for capacity, which the live cold queries of a group share, and the reading of
-- the controller's answer. A flight is known by its position among all that were started; `strong`
-- counts the queries that hold it, and time is in nanoseconds.
pub mod Sharing
pub mod Shared
pub mod Tests
use udp_director.Prelude.{
  ℕ, zero, suc, ◌+◌, ◌-◌, ◌*◌, ◌^◌, String, Option, none, some, List, [], ◌∷◌, ◌++◌, ltb, ◌==◌,
  nat_eq, string_eq, if◌then◌else◌, length, get_elem?,
}
use udp_director.Prelude.Maps.{Map, lookup, insert}
use udp_director.Result.{DemandError, unknown_group, maintenance, unavailable, timeout}
use udp_director.Config.{CapacityDemandConfig}

pub record DemandFlight : Type 0 where
  pub group : String
  pub deadline : ℕ
  pub strong : ℕ

-- `flights` maps a group to a weak reference.
pub record CapacityDemand : Type 0 where
  pub flights : Map String ℕ
  pub started : List DemandFlight

abbrev pub count_of : Option DemandFlight → ℕ
count_of none = 0
count_of (some f) = f.strong

unfoldable pub strong_count : List DemandFlight → ℕ → ℕ
strong_count started id = count_of (get_elem? started id)

unfoldable pub retain_live : List DemandFlight → Map String ℕ → Map String ℕ
retain_live started [] = []
retain_live started ((group, id) ∷ rest) =
    if ltb 0 (strong_count started id)
    then (group, id) ∷ retain_live started rest
    else retain_live started rest

-- One more or one fewer reference to a flight.
unfoldable pub acquire : ℕ → List DemandFlight → List DemandFlight
acquire id [] = []
acquire zero (f ∷ fs) = record f { strong = f.strong + 1 } ∷ fs
acquire (suc id) (f ∷ fs) = f ∷ acquire id fs

unfoldable pub release : ℕ → List DemandFlight → List DemandFlight
release id [] = []
release zero (f ∷ fs) = record f { strong = f.strong - 1 } ∷ fs
release (suc id) (f ∷ fs) = f ∷ release id fs

-- `Weak::upgrade`
abbrev pub upgraded : List DemandFlight → Option ℕ → Option ℕ
upgraded started none = none
upgraded started (some id) = if ltb 0 (strong_count started id) then some id else none

abbrev pub new_flight : CapacityDemandConfig → String → ℕ → DemandFlight
new_flight config group now = record {
  group = group;
  deadline = now + config.boot_timeout_seconds * 10 ^ 9;
  strong = 1;
}

abbrev pub join_or_start :
    CapacityDemandConfig
    → String
    → ℕ
    → Map String ℕ
    → List DemandFlight
    → Option ℕ
    → ℕ × CapacityDemand
join_or_start config group now flights started (some id) =
    (id, record { flights = flights; started = acquire id started })
join_or_start config group now flights started none = (
  length started,
  record {
    flights = insert group (length started) flights;
    started = started ++ new_flight config group now ∷ [];
  },
)

unfoldable pub signal : CapacityDemandConfig → String → ℕ → CapacityDemand → ℕ × CapacityDemand
unfolding retain_live
signal config group now d =
    let live = retain_live d.started d.flights in
    join_or_start config group now live d.started (upgraded d.started (lookup group live))

-- A query that ends drops its reference.
unfoldable pub drop_flight : ℕ → CapacityDemand → CapacityDemand
drop_flight id d = record d { started = release id d.started }

-- The controller's answer: an HTTP status, or `none` where the request fails.
unfoldable pub post_demand : Option ℕ → Option DemandError
post_demand none = some unavailable
post_demand (some status) =
    if status == 202
    then none
    else if status == 404
    then some unknown_group
    else if status == 503
    then some maintenance
    else some unavailable

-- `timeout_at(deadline, post_demand(..))`: the answer and the time it comes, if it comes.
unfoldable pub accepted : ℕ → Option (ℕ × Option ℕ) → Option DemandError
unfolding post_demand
accepted deadline none = some timeout
accepted deadline (some (at, status)) = if ltb deadline at then some timeout else post_demand status
