-- ===== src/Demand/Sharing.antt =====
-- demand.rs: the flights that signals give, and who holds them.
use udp_director.Prelude.{
  ℕ, zero, suc, ◌+◌, ◌<◌, ◌≡◌, refl, String, false, Option, none, some, List, [], ◌∷◌, ◌++◌, arith,
  ◌==◌, nat_eq, string_eq, if◌then◌else◌, length, eq_iff,
}
use udp_director.Prelude.Maps.{Map, lookup, lookup-insert_self}
use udp_director.Config.{CapacityDemandConfig}
use udp_director.Demand.{
  DemandFlight, CapacityDemand, strong_count, retain_live, acquire, upgraded, new_flight,
  join_or_start, signal,
}

strong_count-acquire :
    (id other : ℕ) (started : List DemandFlight)
    → id < length started
    → strong_count (acquire id started) other
      ≡ (if id == other then strong_count started other + 1 else strong_count started other)
unfolding strong_count acquire
strong_count-acquire id other [] h = absurd (omega (arith, h))
strong_count-acquire zero zero (f ∷ fs) h = ground arith
strong_count-acquire zero (suc other) (f ∷ fs) h = ground arith
strong_count-acquire (suc id) zero (f ∷ fs) h = ground arith
strong_count-acquire (suc id) (suc other) (f ∷ fs) h =
    ground (arith, strong_count-acquire id other fs)

strong_count-last :
    (started : List DemandFlight) (f : DemandFlight)
    → strong_count (started ++ f ∷ []) (length started) ≡ f.strong
unfolding strong_count
strong_count-last [] f = refl
strong_count-last (g ∷ started) f = strong_count-last started f

strong_count-in_range :
    (started : List DemandFlight) (id : ℕ) → 0 < strong_count started id → id < length started
unfolding strong_count
strong_count-in_range [] id h = absurd (omega (arith, h))
strong_count-in_range (f ∷ fs) zero h = omega arith
strong_count-in_range (f ∷ fs) (suc id) h = omega (arith, strong_count-in_range fs id h)

-- The flights that live are those that the map keeps.
pub lookup-retain_live :
    (started : List DemandFlight) (group : String) (id : ℕ) (flights : Map String ℕ)
    → lookup group flights ≡ some id
    → 0 < strong_count started id
    → lookup group (retain_live started flights) ≡ some id
unfolding lookup retain_live
lookup-retain_live started group id [] q h = absurd (ground (arith, q))
lookup-retain_live started group id ((g, i) ∷ flights) q h =
    ground (arith, eq_iff g group, lookup-retain_live started group id flights, q, h)

pub upgraded-live :
    (started : List DemandFlight) (id : ℕ)
    → 0 < strong_count started id
    → upgraded started (some id) ≡ some id
upgraded-live started id h = ground (arith, h)

pub length-acquire :
    (id : ℕ) (started : List DemandFlight) → length (acquire id started) ≡ length started
unfolding acquire
length-acquire id [] = refl
length-acquire zero (f ∷ fs) = omega arith
length-acquire (suc id) (f ∷ fs) = omega (arith, length-acquire id fs)

get_elem?-before :
    (started : List DemandFlight) (f : DemandFlight) (id : ℕ)
    → id < length started
    → strong_count (started ++ f ∷ []) id ≡ strong_count started id
unfolding strong_count
get_elem?-before [] f id h = absurd (omega (arith, h))
get_elem?-before (g ∷ started) f zero h = refl
get_elem?-before (g ∷ started) f (suc id) h = get_elem?-before started f id (omega (arith, h))

strong_count-length : (started : List DemandFlight) → strong_count started (length started) ≡ 0
unfolding strong_count
strong_count-length [] = refl
strong_count-length (f ∷ fs) = strong_count-length fs

-- The flight that a signal gives is registered for the group and has one holder more; the others have
-- as many as before.
abbrev pub IsHeld : String → CapacityDemand → ℕ × CapacityDemand → Type 0
IsHeld group d (id, d') =
    (lookup group d'.flights ≡ some id)
    × (strong_count d'.started id ≡ strong_count d.started id + 1)
    × ((other : ℕ)
        → (id == other) ≡ false
        → other < length d.started
        → strong_count d'.started other ≡ strong_count d.started other)

upgraded-IsLive :
    (started : List DemandFlight) (found : Option ℕ) (id : ℕ)
    → upgraded started found ≡ some id
    → (found ≡ some id) × (0 < strong_count started id)
upgraded-IsLive started none id h = absurd cc
upgraded-IsLive started (some i) id h = ground (arith, h)

join_or_start-IsHeld :
    (config : CapacityDemandConfig) (group : String) (now : ℕ) (d : CapacityDemand)
    (live : Map String ℕ) (found : Option ℕ)
    → upgraded d.started (lookup group live) ≡ found
    → IsHeld group d (join_or_start config group now live d.started found)
join_or_start-IsHeld config group now d live none h = (
  lookup-insert_self group (length d.started) live,
  ground (
    arith,
    strong_count-last d.started (new_flight config group now),
    strong_count-length d.started,
  ),
  λ other ne inside. get_elem?-before d.started (new_flight config group now) other inside,
)
join_or_start-IsHeld config group now d live (some id) h =
    let (registered, held) = upgraded-IsLive d.started (lookup group live) id h in
    let inside = strong_count-in_range d.started id held in
    (
      registered,
      ground (arith, strong_count-acquire id id d.started inside),
      λ other ne _. ground (arith, strong_count-acquire id other d.started inside, ne),
    )

-- The flight that a signal gives, joined or started, is registered for the group and held by one query
-- more, and every other flight started before by as many as before.
pub signal-IsHeld :
    (config : CapacityDemandConfig) (group : String) (now : ℕ) (d : CapacityDemand)
    → IsHeld group d (signal config group now d)
unfolding signal
signal-IsHeld config group now d =
    let live = retain_live d.started d.flights in
    join_or_start-IsHeld config group now d live (upgraded d.started (lookup group live)) refl

-- A flight that is registered and held is joined.
pub signal-joins :
    (config : CapacityDemandConfig) (group : String) (now id : ℕ) (d : CapacityDemand)
    → lookup group d.flights ≡ some id
    → 0 < strong_count d.started id
    → signal config group now d
      ≡ (id, record { flights = retain_live d.started d.flights; started = acquire id d.started })
unfolding signal
signal-joins config group now id d q h =
    simp (signal, lookup-retain_live d.started group id d.flights q h, upgraded-live d.started id h)
