-- ===== src/Proxy/Table.antt =====
-- session.rs and proxy.rs: what the session manager is to its clients, a table of one route for each
-- client IP, and the operations by which tasks change it.
pub mod Refines
pub mod Kept
use mathlib.Core.Option
use mathlib.Core.Path.{fun_ext}
use udp_director.Prelude.{
  ℕ, ◌≡◌, refl, sym, ap, ◌∙◌, inl, inr, String, Bool, true, false, Option, none, some, List, [],
  ◌∷◌, arith, ltb, ◌==◌, nat_eq, pair_eq, if◌then◌else◌, Bool-cases, Option-cases, ◌-◌, ◌*◌, ◌^◌,
}
use udp_director.Prelude.Maps.{lookup, adjust, lookup-adjust}
use udp_director.Result.{Result, ok, err, panic}
use udp_director.Net.{IpAddr, ip_eq, ip_beq_iff, SocketAddr, udp}
use udp_director.Session.{
  legacy_ip, exact_socket, key_eq, Sockets, PortMappings, Session, get_or_create_udp_socket,
  bind_socket, get_target_addr, new_multi_port, is_timed_out, touch_session,
}
use udp_director.Session.Manager.{
  Store, SessionManager, get, get_by_addr, upsert_multi_port, touch, touch_by_addr, cleanup,
  clear_all,
}
use udp_director.Session.Homes.{
  IsIsolated, upsert_multi_port-IsIsolated, touch_by_addr-IsIsolated, cleanup-IsIsolated,
}
use udp_director.Session.Cleanup.{still_live, lookup-cleanup}
use udp_director.Session.Routes.{get_by_addr-lem, exact-absent, lookup-upsert_multi_port}
use udp_director.Proxy.{Environment, Sent, send_on, send_to, proxy_packet_bidirectional}
use udp_director.Proxy.Packets.{
  IfOk, IsByIp-of_IsIsolated, key_by_addr-lem, proxy_packet_bidirectional-IsSound,
}

-- What a client IP is promised.
pub record Route : Type 0 where
  pub target_ip : String
  pub port_mappings : PortMappings
  pub last_activity : ℕ

abbrev pub Table : Type 0
Table = IpAddr → Option Route

abbrev pub route_of : Session → Route
route_of s = record {
  target_ip = s.target_ip;
  port_mappings = s.port_mappings;
  last_activity = s.last_activity;
}

-- The table that a store stands for.
abbrev pub view : Store → Table
view st ip = Option.map route_of (lookup (legacy_ip ip) st.sessions)

-- The operations by which the tasks reach the manager.
pub data Operation : Type 0 where
  upserted : ℕ → SocketAddr → String → PortMappings → Operation
  touched : ℕ → SocketAddr → Operation
  forwarded : Environment → SocketAddr → List ℕ → ℕ → Operation
  cleaned : ℕ → Operation
  cleared : Operation

abbrev pub perform : SessionManager → Operation → Store → Store
perform manager (upserted now client target ports) st = upsert_multi_port now client target ports st
perform manager (touched now client) st = touch_by_addr now client st
perform manager (forwarded env client payload port) st =
    (proxy_packet_bidirectional env client payload port st).0
perform manager (cleaned now) st = (cleanup manager now st).0
perform manager cleared st = clear_all st

-- The same operations on a table. A packet leaves it as it is.
abbrev pub touched_at : ℕ → Route → Route
touched_at now r = record r { last_activity = now }

abbrev pub dropped_if : Bool → Option Route → Option Route
dropped_if true r = none
dropped_if false r = r

abbrev pub is_idle : ℕ → ℕ → Option Route → Bool
is_idle now timeout none = false
is_idle now timeout (some r) = ltb (timeout * 10 ^ 9) (now - r.last_activity)

abbrev pub specified : SessionManager → Operation → Table → Table
specified manager (upserted now client target ports) table ip =
    if client.ip == ip
    then some (record { target_ip = target; port_mappings = ports; last_activity = now })
    else table ip
specified manager (touched now client) table ip =
    if client.ip == ip then Option.map (touched_at now) (table ip) else table ip
specified manager (forwarded env client payload port) table ip = table ip
specified manager (cleaned now) table ip =
    dropped_if (is_idle now manager.timeout_seconds (table ip)) (table ip)
specified manager cleared table ip = none

abbrev pub run_store : SessionManager → List Operation → Store → Store
run_store manager [] st = st
run_store manager (op ∷ ops) st = run_store manager ops (perform manager op st)

abbrev pub run_table : SessionManager → List Operation → Table → Table
run_table manager [] table = table
run_table manager (op ∷ ops) table = run_table manager ops (specified manager op table)
