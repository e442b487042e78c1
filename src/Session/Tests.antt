-- ===== src/Session/Tests.antt =====
-- session.rs: the manager on a store with two sessions.
use Prim.Native.Char.{code}
use Prim.Native.String
use text.Mathlib.TextLemmas.{nil-append, cons-append, append_assoc}
use udp_director.Prelude.{
  map, String, arith, nat_beq, if◌then◌else◌, none, Option, List, ℕ, ◌≡◌, refl, true, false, some,
  [], ◌∷◌,
}
use udp_director.Prelude.Maps.{lookup}
use udp_director.Result.{Error, ok, err}
use udp_director.Net.{SocketAddr, v4, v6, ip_eq, udp, Protocol}
use udp_director.Net.Numbers.{Without}
use udp_director.Session.{legacy_ip, key_eq, PortMappings, Session, get_target_addr}
use udp_director.Session.Single.{new_session, IsV6Text, NeedsBrackets, get_target_addr-families}
use udp_director.Session.Receive.{
  Round, datagram, timed_out, receive_task, payloads, reply_to, receive_task-lem,
}
use udp_director.Session.Manager.{
  Store, SessionManager, cleanup, remove_keys, timed_out_keys, touch_by_addr,
}
use udp_director.Session.Cleanup.{
  had_timed_out, lookup-remove_keys_later, told, timed_out_targets, cleanup-told,
}

abbrev routes : PortMappings
routes = ((7777, udp), 7000) ∷ []

abbrev session : ℕ → Session
session at = record {
  target_ip = "10.0.0.1";
  port_mappings = routes;
  last_activity = at;
  udp_sockets = ((7777, 40000), 0) ∷ [];
}

abbrev two_sessions : Store
two_sessions = record {
  sessions = (legacy_ip (v4 1), session 5) ∷ (legacy_ip (v4 2), session 9000000000) ∷ [];
  sockets =
      record { client = record { ip = v4 1; port = 40000 }; proxy_port = 7777; shutdown = false }
      ∷ [];
}

abbrev manager : SessionManager
manager = record { timeout_seconds = 2; has_callback = true }

cleanup-told_example :
    (cleanup manager 10000000000 two_sessions).1
    ≡ told true (timed_out_targets 10000000000 2 two_sessions.sessions)
cleanup-told_example = cleanup-told manager 10000000000 two_sessions ((refl, tt), (tt, tt))

abbrev player : SocketAddr
player = record { ip = v4 1; port = 40000 }

abbrev backend : SocketAddr
backend = record { ip = v4 10; port = 7000 }

-- A datagram, a second of silence and another datagram.
abbrev rounds : List Round
rounds =
    record { shutdown = false; arrival = datagram (1 ∷ 2 ∷ []) backend }
    ∷ record { shutdown = false; arrival = timed_out }
    ∷ record { shutdown = false; arrival = datagram (3 ∷ []) backend }
    ∷ []

receive_task-lem_example : (receive_task player rounds).0 ≡ map (reply_to player) (payloads rounds)
receive_task-lem_example = receive_task-lem player rounds

lookup-remove_keys_later_example :
    lookup
      (legacy_ip (v4 1))
      (remove_keys manager
        (timed_out_keys 10000000000 manager.timeout_seconds two_sessions.sessions)
        (touch_by_addr 10000000000 player two_sessions)).0.sessions
    ≡ (if had_timed_out 10000000000 manager.timeout_seconds
          (lookup (legacy_ip (v4 1)) two_sessions.sessions)
        then none
        else lookup (legacy_ip (v4 1)) (touch_by_addr 10000000000 player two_sessions).sessions)
lookup-remove_keys_later_example =
    lookup-remove_keys_later manager 10000000000 (legacy_ip (v4 1)) two_sessions
      (touch_by_addr 10000000000 player two_sessions) ((refl, tt), (tt, tt))

-- A parser of bracketed addresses, which takes them all for one.
abbrev brackets : String → Option SocketAddr
brackets String.[] = none
brackets (String.◌∷◌ c s) =
    if nat_beq (code c) b'[' then some (record { ip = v6 1; port = 7000 }) else none

brackets-none :
    (before rest : String)
    → Without b'[' before
    → brackets (String.◌++◌ before (String.◌∷◌ ":" rest)) ≡ none
brackets-none String.[] rest h = rw (nil-append (String.◌∷◌ ":" rest)) refl
brackets-none (String.◌∷◌ c s) rest (ne, h) = rw (cons-append c s (String.◌∷◌ ":" rest), ne) refl

brackets-NeedsBrackets : NeedsBrackets brackets
brackets-NeedsBrackets text port (before, (after, is, _, bare)) =
    rw
      (
        is,
        append_assoc before (String.◌∷◌ ":" after) (String.◌++◌ ":" port),
        cons-append ":" after (String.◌++◌ ":" port),
      )
      (brackets-none before (String.◌++◌ after (String.◌++◌ ":" port)) bare)

abbrev show_v6 : ℕ → String
show_v6 n = "::1"

get_target_addr-families_example :
    (let target : SocketAddr = record { ip = v4 3232235777; port = 7000 } in
      get_target_addr brackets (new_session show_v6 5 target) 7000 udp ≡ ok target)
    × ((s : Session) (proxy_port : ℕ) (protocol : Protocol)
        → IsV6Text s.target_ip
        → (e : Error) × (get_target_addr brackets s proxy_port protocol ≡ err e))
get_target_addr-families_example =
    get_target_addr-families brackets show_v6 5 3232235777 7000 (omega arith) (omega arith)
      brackets-NeedsBrackets
