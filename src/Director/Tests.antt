-- ===== src/Director/Tests.antt =====
-- main.rs: runs of the program on a sample configuration.
use udp_director.Prelude.{
  ℕ, ◌≡◌, ◌≤◌, List, ◌++◌, length, String, some, true, get_elem?, ◌∷◌, [], refl, inl, inr,
}
use udp_director.Config.{get_load_balancing, DataPortConfig, get_data_ports}
use udp_director.Balancer.{new, get_session_count}
use udp_director.Session.Homes.{IsIsolated}
use udp_director.Session.Manager.{count}
use udp_director.Session.{SessionSocket}
use udp_director.Session.Held.{IsHeld}
use udp_director.Director.Delivery.{Delivery, allocated-Delivery}
use udp_director.Net.{tcp}
use udp_director.Query.Process.{process_access}
use udp_director.Query.Tests.{empty, answer_is}
use udp_director.Director.Sockets.{run-forgets_none}
use udp_director.Director.{start, run, shutdown}
use udp_director.Director.Runs.{run-IsIsolated}
use udp_director.Director.Counts.{Adds, run-never_released}
use udp_director.Samples.{config, events, cluster, alice, second, request, list, environment}

run-IsIsolated_example : IsIsolated (run (start config) events).proxy.store
run-IsIsolated_example = run-IsIsolated config events

run-never_released_example :
    ((run (start config) (events ++ events)).load_balancer
      ≡ new (get_load_balancing config).strategy)
    × ((added : List String) × (length added ≤ length events)
        × Adds added
            (run (start config) events).proxy.balancer
            (run (start config) (events ++ events)).proxy.balancer)
run-never_released_example = run-never_released config events events

abbrev counted : ℕ
counted = get_session_count (run (start config) events).proxy.balancer "10.0.0.1"

abbrev live : ℕ
live = count (run (start config) events).proxy.store

run-forgets_none_example :
    IsHeld (run (start config) events).proxy.store
    × ((handle : ℕ) (s : SessionSocket)
        → get_elem? (shutdown (run (start config) events)).proxy.store.sockets handle ≡ some s
        → s.shutdown ≡ true)
run-forgets_none_example = run-forgets_none config events

-- The client hears of the server, and sends to the chat port over TCP.
abbrev chat : DataPortConfig
chat = record { port = 7778; protocol = tcp; name = "chat" }

allocated-Delivery_example :
    Delivery cluster config
      (record alice { port = 41000 })
      "uid-one"
      (("game", 7777) ∷ ("chat", 7778) ∷ [])
      (environment second)
      (1 ∷ 2 ∷ [])
      chat
      (record (start config).proxy {
        store = (process_access cluster config alice second request list [] empty).0;
      })
unfolding start get_data_ports
allocated-Delivery_example =
    allocated-Delivery cluster config alice second 41000 request list [] (start config).proxy
      "Allocated" "uid-one" (("game", 7777) ∷ ("chat", 7778) ∷ []) (environment second) (1 ∷ 2 ∷ [])
      chat tt (inr (inl refl)) answer_is
