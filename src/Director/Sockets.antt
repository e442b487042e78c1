-- ===== src/Director/Sockets.antt =====
-- main.rs: the sockets in runs whose events do not interrupt one another, and after their end.
use udp_director.Prelude.{ℕ, ◌≡◌, inl, inr, true, some, List, [], ◌∷◌, get_elem?, arith}
use udp_director.Net.{SocketAddr}
use udp_director.Config.{Config}
use udp_director.Session.{SessionSocket}
use udp_director.Session.Manager.{Store}
use udp_director.Session.Held.{IsHeld, upsert_multi_port-IsHeld, cleanup-IsHeld}
use udp_director.Session.Cleared.{clear_all-stops}
use udp_director.Proxy.Holding.{handle_udp_data_packet-IsHeld, handle_tcp_connection-IsHeld}
use udp_director.Query.Safety.{IsSafe, process_access-IsSafe}
use udp_director.Query.Process.{Progress, process_access}
use udp_director.Director.{
  Director, Event, udp_packet, tcp_connection, query, cleanup_tick, monitor_tick, start, step, run,
  shutdown,
}
use udp_director.Director.Runs.{IsSteady, start-IsSteady, step-Moves}

IsSafe-IsHeld :
    (now : ℕ) (client : SocketAddr) (st : Store) (r : Store × Progress)
    → IsSafe client now st r
    → IsHeld st
    → IsHeld r.0
IsSafe-IsHeld now client st r (inl (a, _, q)) held =
    rw q (upsert_multi_port-IsHeld now client a.ip a.routes st held)
IsSafe-IsHeld now client st r (inr (q, _)) held = rw q held

step-IsHeld :
    (d : Director) (e : Event) → IsSteady d → IsHeld d.proxy.store → IsHeld (step d e).proxy.store
unfolding step
step-IsHeld d (udp_packet env client payload port) (h, quiet) held =
    handle_udp_data_packet-IsHeld env client payload port d.config d.proxy h held
step-IsHeld d (tcp_connection env client port) (h, quiet) held =
    handle_tcp_connection-IsHeld env client port d.config d.proxy held
step-IsHeld d (query cluster client clock request list events) (h, quiet) held =
    IsSafe-IsHeld clock client d.proxy.store
      (process_access cluster d.config client clock request list events d.proxy.store)
      (process_access-IsSafe cluster d.config client clock request list events d.proxy.store) held
step-IsHeld d (cleanup_tick now) (h, quiet) held =
    cleanup-IsHeld d.cleanup_manager now d.proxy.store held
step-IsHeld d (monitor_tick list) (h, quiet) held = held

run-IsHeld :
    (d : Director) (events : List Event)
    → IsSteady d
    → IsHeld d.proxy.store
    → IsHeld (run d events).proxy.store
unfolding run
run-IsHeld d [] h held = held
run-IsHeld d (e ∷ events) h held =
    run-IsHeld (step d e) events (step-Moves d e h).0 (step-IsHeld d e h held)

start-IsHeld : (config : Config) → IsHeld (start config).proxy.store
unfolding start
start-IsHeld config handle s at live = absurd (ground (arith, at))

-- In every run whose events are not interrupted by one another, each socket that has not been told to
-- stop is held by the session of its client, under its data port and the client's port; and after the
-- end of the program every socket that was ever bound has been told to stop.
pub run-forgets_none :
    (config : Config) (events : List Event)
    → IsHeld (run (start config) events).proxy.store
      × ((handle : ℕ) (s : SessionSocket)
          → get_elem? (shutdown (run (start config) events)).proxy.store.sockets handle ≡ some s
          → s.shutdown ≡ true)
unfolding shutdown
run-forgets_none config events =
    let held = run-IsHeld (start config) events (start-IsSteady config) (start-IsHeld config) in
    (held, λ handle s at. clear_all-stops (run (start config) events).proxy.store handle s held at)
