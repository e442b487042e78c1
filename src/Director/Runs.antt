-- ===== src/Director/Runs.antt =====
-- main.rs: the invariant of the running program, over every sequence of events.
use udp_director.Prelude.{ℕ, ◌≡◌, refl, inl, inr, false, List, [], ◌∷◌, Option-cases}
use udp_director.Prelude.Maps.{lookup}
use udp_director.Net.{SocketAddr}
use udp_director.Config.{Config}
use udp_director.Session.{SessionKey, key_eq}
use udp_director.Session.Manager.{
  Store, SessionManager, new_manager, remove_key, remove_keys, cleanup, timed_out_keys,
}
use udp_director.Session.Homes.{IsIsolated, upsert_multi_port-IsIsolated, cleanup-IsIsolated}
use udp_director.Proxy.Handlers.{
  CountsOneAtMost, handle_udp_data_packet-IsHandled, handle_tcp_connection-IsJoined,
}
use udp_director.Query.Safety.{IsSafe, process_access-IsSafe}
use udp_director.Query.Process.{Progress, process_access}
use udp_director.Director.{
  Director, Event, udp_packet, tcp_connection, query, cleanup_tick, monitor_tick, start, step, run,
  decrement_each,
}

-- The cleanup task's manager has no callback, and the store is isolated.
abbrev pub IsSteady : Director → Type 0
IsSteady d = IsIsolated d.proxy.store × (d.cleanup_manager.has_callback ≡ false)

pub start-IsSteady : (config : Config) → IsSteady (start config)
unfolding start new_manager
start-IsSteady config = ((tt, tt), refl)

remove_key-silent :
    (manager : SessionManager) (key : SessionKey) (st : Store)
    → manager.has_callback ≡ false
    → (remove_key manager key st).1 ≡ []
unfolding remove_key
remove_key-silent manager key st h = elim (Option-cases (lookup key st.sessions)) [
  | inl q ↦ rw (remove_key, q) refl
  | inr (s, q) ↦ rw (remove_key, q, h) refl
]

remove_keys-silent :
    (manager : SessionManager) (keys : List SessionKey) (st : Store)
    → manager.has_callback ≡ false
    → (remove_keys manager keys st).1 ≡ []
unfolding remove_keys
remove_keys-silent manager [] st h = refl
remove_keys-silent manager (key ∷ keys) st h =
    rw
      (
        remove_key-silent manager key st h,
        remove_keys-silent manager keys (remove_key manager key st).0 h,
      )
      refl

cleanup-silent :
    (manager : SessionManager) (now : ℕ) (st : Store)
    → manager.has_callback ≡ false
    → (cleanup manager now st).1 ≡ []
unfolding cleanup
cleanup-silent manager now st h =
    remove_keys-silent manager (timed_out_keys now manager.timeout_seconds st.sessions) st h

IsSafe-IsIsolated :
    (now : ℕ) (client : SocketAddr) (st : Store) (r : Store × Progress)
    → IsSafe client now st r
    → IsIsolated st
    → IsIsolated r.0
IsSafe-IsIsolated now client st r (inl (a, _, q)) h =
    rw q (upsert_multi_port-IsIsolated now client a.ip a.routes st h)
IsSafe-IsIsolated now client st r (inr (q, _)) h = rw q h

-- One event keeps the program steady, the balancer of `main` as it is, and counts at most one session in
-- the balancer of the proxy.
abbrev pub Moves : Director → Director → Type 0
Moves d d' =
    IsSteady d'
    × (d'.load_balancer ≡ d.load_balancer)
    × CountsOneAtMost d.proxy.balancer d'.proxy.balancer

pub step-Moves : (d : Director) (e : Event) → IsSteady d → Moves d (step d e)
unfolding step decrement_each
step-Moves d (udp_packet env client payload port) (h, quiet) =
    let ((h', counts), _) =
      handle_udp_data_packet-IsHandled env client payload port d.config d.proxy h in
    ((h', quiet), refl, counts)
step-Moves d (tcp_connection env client port) (h, quiet) =
    let ((h', counts), _) = handle_tcp_connection-IsJoined env client port d.config d.proxy h in
    ((h', quiet), refl, counts)
step-Moves d (query cluster client clock request list events) (h, quiet) =
    let safe =
      process_access-IsSafe cluster d.config client clock request list events d.proxy.store in
    (
      (
        IsSafe-IsIsolated clock client d.proxy.store
            (process_access cluster d.config client clock request list events d.proxy.store) safe h,
        quiet,
      ),
      refl,
      inl refl,
    )
step-Moves d (cleanup_tick now) (h, quiet) = (
  (cleanup-IsIsolated d.cleanup_manager now d.proxy.store h, quiet),
  rw (cleanup-silent d.cleanup_manager now d.proxy.store quiet) refl,
  inl refl,
)
step-Moves d (monitor_tick list) (h, quiet) = ((h, quiet), refl, inl refl)

pub run-IsSteady : (d : Director) (events : List Event) → IsSteady d → IsSteady (run d events)
unfolding run
run-IsSteady d [] h = h
run-IsSteady d (e ∷ events) h = run-IsSteady (step d e) events (step-Moves d e h).0

-- In every run of the program, over every sequence of packets, connections, queries and rounds of its
-- tasks, each client IP has at most one session, which stands under that IP, and each socket of a
-- session is alive and serves the client socket and data port that it is held for.
pub run-IsIsolated :
    (config : Config) (events : List Event) → IsIsolated (run (start config) events).proxy.store
run-IsIsolated config events = (run-IsSteady (start config) events (start-IsSteady config)).0
