-- ===== src/Demand/Shared.antt =====
-- demand.rs: a flight while other queries signal and end.
use udp_director.Prelude.{
  ℕ, ◌<◌, ◌≡◌, refl, inl, inr, String, Option, none, some, List, [], ◌∷◌, arith, ◌==◌, string_eq,
  length, eq_iff, Bool-cases,
}
use udp_director.Prelude.Maps.{Map, lookup, lookup-insert}
use udp_director.Config.{CapacityDemandConfig}
use udp_director.Demand.{
  CapacityDemand, strong_count, retain_live, upgraded, join_or_start, signal, drop_flight,
}
use udp_director.Demand.Sharing.{
  signal-IsHeld, signal-joins, lookup-retain_live, upgraded-live, length-acquire,
}

-- A query signals for a group at an instant, or ends and drops its reference to a flight.
pub data DemandEvent : Type 0 where
  signalled : String → ℕ → DemandEvent
  dropped : ℕ → DemandEvent

module _ (config : CapacityDemandConfig) where
  abbrev pub demand_step : DemandEvent → CapacityDemand → CapacityDemand
  demand_step (signalled group now) d = (signal config group now d).1
  demand_step (dropped id) d = drop_flight id d

  abbrev pub demand_run : List DemandEvent → CapacityDemand → CapacityDemand
  demand_run [] d = d
  demand_run (e ∷ events) d = demand_run events (demand_step e d)

  -- Some query holds the flight, now and after each of the events.
  abbrev pub StaysHeld : ℕ → List DemandEvent → CapacityDemand → Type 0
  StaysHeld id [] d = 0 < strong_count d.started id
  StaysHeld id (e ∷ events) d =
      (0 < strong_count d.started id) × StaysHeld id events (demand_step e d)

  StaysHeld-now :
      (id : ℕ) (events : List DemandEvent) (d : CapacityDemand)
      → StaysHeld id events d
      → 0 < strong_count d.started id
  StaysHeld-now id [] d h = h
  StaysHeld-now id (e ∷ events) d h = h.0

  -- A signal for any group keeps the registration of a flight that is held.
  join_or_start-keeps :
      (group other : String) (now id : ℕ) (d : CapacityDemand) (live : Map String ℕ)
      (found : Option ℕ)
      → lookup group live ≡ some id
      → upgraded d.started (some id) ≡ some id
      → upgraded d.started (lookup other live) ≡ found
      → lookup group (join_or_start config other now live d.started found).1.flights ≡ some id
  join_or_start-keeps group other now id d live (some joined) q up is = q
  join_or_start-keeps group other now id d live none q up is = elim (Bool-cases (other == group)) [
    | inl same ↦
        let here : lookup other live ≡ some id = rw ((eq_iff other group).0 same) q in
        absurd (ground (arith, up, rw here at is))
    | inr differs ↦ rw (lookup-insert other group (length d.started) live, differs) q
  ]

  demand_step-keeps :
      (group : String) (id : ℕ) (e : DemandEvent) (d : CapacityDemand)
      → lookup group d.flights ≡ some id
      → 0 < strong_count d.started id
      → lookup group (demand_step e d).flights ≡ some id
  unfolding signal drop_flight
  demand_step-keeps group id (dropped other) d q h = q
  demand_step-keeps group id (signalled other now) d q h =
      let live = retain_live d.started d.flights in
      join_or_start-keeps group other now id d live (upgraded d.started (lookup other live))
        (lookup-retain_live d.started group id d.flights q h) (upgraded-live d.started id h) refl

  demand_run-keeps :
      (group : String) (id : ℕ) (events : List DemandEvent) (d : CapacityDemand)
      → lookup group d.flights ≡ some id
      → StaysHeld id events d
      → (lookup group (demand_run events d).flights ≡ some id)
        × (0 < strong_count (demand_run events d).started id)
  demand_run-keeps group id [] d q h = (q, h)
  demand_run-keeps group id (e ∷ events) d q (now, later) =
      demand_run-keeps group id events (demand_step e d) (demand_step-keeps group id e d q now)
        later

-- While some query holds the flight that a signal for a group gave, whatever other queries signal, for
-- this group or others, and whichever end, a later signal for the group gives the same flight, starts
-- no other and keeps the group registered for it.
pub signal-shared :
    (config : CapacityDemandConfig) (group : String) (now later : ℕ) (events : List DemandEvent)
    (d : CapacityDemand)
    → StaysHeld config (signal config group now d).0 events (signal config group now d).1
    → (let (id, first) = signal config group now d in
        let before = demand_run config events first in
        ((signal config group later before).0 ≡ id)
        × (length (signal config group later before).1.started ≡ length before.started)
        × (lookup group (signal config group later before).1.flights ≡ some id))
signal-shared config group now later events d h =
    let id = (signal config group now d).0 in
    let first = (signal config group now d).1 in
    let before = demand_run config events first in
    let (registered, _, _) = signal-IsHeld config group now d in
    let (still, held) = demand_run-keeps config group id events first registered h in
    let joined = signal-joins config group later id before still held in
    rw joined (
      refl,
      length-acquire id before.started,
      lookup-retain_live before.started group id before.flights still held,
    )
