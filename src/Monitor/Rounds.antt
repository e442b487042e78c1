-- ===== src/Monitor/Rounds.antt =====
-- resource_monitor.rs: `run`, a round at each tick for ever: the check of the default endpoint, whose
-- errors are logged, and the count of the sessions.
use udp_director.Prelude.{
  ℕ, String, Bool, true, false, Option, some, List, [], ◌∷◌, ◌++◌, ◌≡◌, refl, ltb, if◌then◌else◌,
  string_eq,
}
use udp_director.Result.{Error, Result, ok, err, panic}
use udp_director.Config.{Config, ResourceMapping}
use udp_director.Kube.Select.{ListCall}
use udp_director.Session.Manager.{Store, count}
use udp_director.Proxy.{DefaultEndpointCache}
use udp_director.Prelude.{All, map}
use udp_director.Prelude.Maps.{lookup}
use udp_director.Monitor.Changes.{target_of, check_default_endpoint-lem}
use udp_director.Monitor.{MonitorState, check_default_endpoint}

-- What a round logs.
pub data Note : Type 0 where
  check_failed : Error → Note
  active_sessions : ℕ → Note

unfoldable pub check_active_sessions : Store → List Note
check_active_sessions st = if ltb 0 (count st) then active_sessions (count st) ∷ [] else []

abbrev failure : Result (Unit {0}) → List Note
failure (ok _) = []
failure (err e) = check_failed e ∷ []
failure panic = []

-- Whether the task goes on: a panic ends it.
abbrev goes_on : Result (Unit {0}) → Bool
goes_on (ok _) = true
goes_on (err e) = true
goes_on panic = false

-- A tick with the API server, the sessions and the cache as they then are.
pub record Tick : Type 0 where
  pub list : ListCall
  pub store : Store
  pub cache : Option DefaultEndpointCache

-- What a round leaves: the target that it remembers, the cache, and what it logs.
pub record Left : Type 0 where
  pub last_default_endpoint : Option String
  pub cache : Option DefaultEndpointCache
  pub notes : List Note

abbrev seen_at : Option String → Tick → MonitorState
seen_at last tick = record { last_default_endpoint = last; cache = tick.cache }

abbrev left_by : Tick → MonitorState × Result (Unit {0}) → Left
left_by tick (st, r) = record {
  last_default_endpoint = st.last_default_endpoint;
  cache = st.cache;
  notes = failure r ++ (if goes_on r then check_active_sessions tick.store else []);
}

unfoldable pub run_monitor : Config → List Tick → Option String → List Left
unfolding check_active_sessions
run_monitor config [] last = []
run_monitor config (tick ∷ ticks) last =
    let checked = check_default_endpoint tick.list config (seen_at last tick) in
    let later = run_monitor config ticks checked.0.last_default_endpoint in
    if goes_on checked.1 then left_by tick checked ∷ later else left_by tick checked ∷ []

-- While the target that is seen stays the one that is remembered, no round touches the cache.
pub run_monitor-keeps :
    (config : Config) (mapping : ResourceMapping) (ticks : List Tick) (last : Option String)
    → lookup config.default_endpoint.resource_type config.resource_query_mapping ≡ some mapping
    → All (λ tick. target_of tick.list config mapping ≡ ok last) ticks
    → map (λ left. left.cache) (run_monitor config ticks last) ≡ map (λ tick. tick.cache) ticks
unfolding run_monitor check_default_endpoint
run_monitor-keeps config mapping [] last mapped h = refl
run_monitor-keeps config mapping (tick ∷ ticks) last mapped (same, h) =
    let kept =
      (check_default_endpoint-lem tick.list config mapping (seen_at last tick) mapped).0 last
        same in
    let goes : (check_default_endpoint tick.list config (seen_at last tick)).1 ≡ ok tt =
      rw (check_default_endpoint, mapped, same) refl in
    rw
      (run_monitor, goes, kept.0, kept.1 refl, run_monitor-keeps config mapping ticks last mapped h)
      refl
