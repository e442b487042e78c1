-- ===== src/Tasks/Tests.antt =====
-- proxy.rs and session.rs: tasks of the sample client, alone and between one another.
use mathlib.Core.Option
use udp_director.Prelude.{
  ℕ, zero, suc, ◌*◌, ◌≡◌, refl, Bool, true, false, Option, none, some, [], ◌∷◌, length, get_elem?,
  nat_eq, pair_eq,
}
use udp_director.Net.{udp, protocol_eq}
use udp_director.Balancer.{new, get_session_count, increment_session}
use udp_director.Prelude.Maps.{lookup, insert, adjust}
use udp_director.Text.{split, split_from, digits, digits_from}
use udp_director.Net.{socket_addr, parse_socket_v4, parse_ipv4, show_u16, show_from}
use udp_director.Session.{
  Session, SessionSocket, key_eq, shutdown, shutdown_each, shutdown_sockets, touch_session,
  new_multi_port, get_or_create_udp_socket, get_target_addr,
}
use udp_director.Session.Manager.{
  count, get, get_by_addr, key_by_addr, shutdown_entry, touch, touch_by_addr,
}
use udp_director.Config.{get_load_balancing}
use udp_director.Proxy.{ProxyState, proxy_packet_bidirectional}
use udp_director.Tasks.{
  packet, assignment, Stage, looking, choosing, stopping, forwarding, advance, Task, waiting, World,
  arrive, turn, tidy, Reach, begin, later, act, clean,
}
use udp_director.Tasks.Interleaved.{IsOrderly, pending, Reach-IsIsolated}
use udp_director.Tasks.Alone.{run_alone}
use udp_director.Samples.{config, environment, alice, second}

abbrev no_session : ProxyState
no_session = record {
  store = record { sessions = []; sockets = [] };
  cache = some (record { address = "10.0.0.1"; port_mappings = ((7777, udp), 7000) ∷ [] });
  balancer = new (get_load_balancing config).strategy;
}

abbrev world : World
world = record {
  proxy = no_session;
  load_balancer = new (get_load_balancing config).strategy;
  manager = record { timeout_seconds = 30; has_callback = false };
  cleanup = waiting;
  last_default_endpoint = none;
  tasks = [];
}

abbrev first_packet : Task
first_packet = record { client = alice; port = 7777; job = packet (1 ∷ 2 ∷ []); stage = looking }

abbrev arrived : World
arrived = record world { tasks = first_packet ∷ [] }

abbrev next : World → Task → Task
next w t = record t {
  stage = (advance (environment second) config t.client t.port t.job t.stage w.proxy).1;
}

-- Turns of the only task.
abbrev turned : ℕ → World → Task → World
turned zero w t = w
turned (suc n) w t = turned n (act (environment second) config [] t [] w) (next w t)

turned-Reach :
    (n : ℕ) (w : World) (t : Task)
    → w.tasks ≡ t ∷ []
    → Reach config world w
    → Reach config world (turned n w t)
unfolding act
turned-Reach zero w t q r = r
turned-Reach (suc n) w t q r =
    turned-Reach n (act (environment second) config [] t [] w) (next w t) refl
      (later r (turn (environment second) [] t [] q))

-- The packet is handled to its end; later the cleanup collects the idle session, removes it and stops
-- its socket.
abbrev handled : World
handled = turned 10 arrived first_packet

abbrev tidied : World
tidied = clean (40 * second) (clean (40 * second) (clean (40 * second) handled))

reached : Reach config world tidied
reached =
    later
      (later
        (later (turned-Reach 10 arrived first_packet refl (later begin (arrive first_packet refl)))
          (tidy (40 * second)))
        (tidy (40 * second)))
      (tidy (40 * second))

Reach-IsIsolated_example : IsOrderly tidied.proxy.store (pending tidied.cleanup)
Reach-IsIsolated_example = Reach-IsIsolated reached (tt, tt) refl

-- A query's assignment replaces the session of a client whose packet is forwarded between the two
-- halves of the upsert.
abbrev known : ProxyState
known = (run_alone (environment second) config alice 7777 (packet (1 ∷ [])) 7 looking no_session).0

abbrev half : ProxyState × Stage
half =
    advance (environment second) config alice 7777 assignment
      (stopping "10.0.0.2" (((7777, udp), 7000) ∷ [])) known

abbrev replaced : ProxyState
replaced =
    (advance (environment second) config alice 7777 assignment half.1
      (advance (environment second) config alice 7777 (packet (2 ∷ [])) (forwarding true)
        half.0).0).0

-- The socket that the packet bound runs on, and the client's session does not hold it.
abbrev stray : Option Bool × Option ℕ
stray = (
  Option.map (λ (s : SessionSocket). s.shutdown) (get_elem? replaced.store.sockets 1),
  Option.map (λ (s : Session). length s.udp_sockets) (get_by_addr alice replaced.store),
)

-- Two first packets of a client that both look before either has installed a session.
abbrev twice : ProxyState
twice =
    (run_alone (environment second) config alice 7777 (packet (2 ∷ [])) 9 choosing
      (run_alone (environment second) config alice 7777 (packet (1 ∷ [])) 9 choosing
        no_session).0).0

-- They count two sessions where there is one.
abbrev counted_twice : ℕ × ℕ
counted_twice = (get_session_count twice.balancer "10.0.0.1", count twice.store)

stray_is : stray ≡ (some false, some 0)
unfolding run_alone advance shutdown_entry shutdown_each shutdown_sockets shutdown insert lookup
    adjust get_by_addr get key_by_addr touch_by_addr touch touch_session new_multi_port
    increment_session proxy_packet_bidirectional get_or_create_udp_socket get_target_addr
    socket_addr parse_socket_v4 parse_ipv4 show_u16 show_from split split_from digits digits_from
stray_is = refl

counted_twice_is : counted_twice ≡ (2, 1)
unfolding run_alone advance shutdown_entry shutdown_each shutdown_sockets shutdown insert lookup
    adjust get_by_addr get key_by_addr new_multi_port increment_session get_session_count count
    proxy_packet_bidirectional get_or_create_udp_socket get_target_addr socket_addr parse_socket_v4
    parse_ipv4 show_u16 show_from split split_from digits digits_from new
counted_twice_is = refl
