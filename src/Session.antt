-- ===== src/Session.antt =====
-- session.rs: sessions, their upstream sockets, and the session manager. A socket is a handle into the
-- list of all sockets ever bound; times are nanoseconds of the monotonic clock.
pub mod Manager
pub mod Receive
pub mod Isolation
pub mod Homes
pub mod Cleanup
pub mod Held
pub mod Cleared
pub mod Single
pub mod Routes
pub mod Tests
use udp_director.Prelude.{
  ℕ, zero, suc, ◌-◌, ◌+◌, ◌*◌, ◌^◌, ◌≡◌, refl, ◌↔◌, String, Bool, true, false, Option, none, some,
  List, [], ◌∷◌, ◌++◌, arith, ltb, HasEquality, ◌==◌, nat_eq, pair_eq, if◌then◌else◌, length,
}
use udp_director.Prelude.Maps.{Map, lookup, insert}
use udp_director.Result.{
  Result, ok, err, ◌>>=◌, ◌>>◌, ensure, or_fail, no_port_mapping, invalid_socket_address,
  bind_failed,
}
use udp_director.Net.{
  IpAddr, ip_eq, ip_beq_iff, SocketAddr, addr_eq, addr_beq_iff, Protocol, protocol_eq, socket_addr,
}

pub data SessionKey : Type 0 where
  legacy_ip : IpAddr → SessionKey
  exact_socket : SocketAddr → SessionKey

abbrev pub key_beq : SessionKey → SessionKey → Bool
key_beq (legacy_ip a) (legacy_ip b) = a == b
key_beq (exact_socket a) (exact_socket b) = a == b
key_beq (legacy_ip a) (exact_socket b) = false
key_beq (exact_socket a) (legacy_ip b) = false

pub key_beq_iff : (a b : SessionKey) → (key_beq a b ≡ true) ↔ (a ≡ b)
key_beq_iff (legacy_ip a) (legacy_ip b) = ground (arith, ip_beq_iff a b)
key_beq_iff (exact_socket a) (exact_socket b) = ground (arith, addr_beq_iff a b)
key_beq_iff (legacy_ip a) (exact_socket b) = ground arith
key_beq_iff (exact_socket a) (legacy_ip b) = ground arith

instance abbrev pub key_eq : HasEquality SessionKey
key_eq = record { same = key_beq; same_iff = key_beq_iff }

-- A bound socket with its receive task: the client socket and the data port that the task answers
-- through, and the flag that stops it.
pub record SessionSocket : Type 0 where
  pub client : SocketAddr
  pub proxy_port : ℕ
  pub shutdown : Bool

abbrev pub Sockets : Type 0
Sockets = List SessionSocket

abbrev pub PortMappings : Type 0
PortMappings = Map (ℕ × Protocol) ℕ

pub record Session : Type 0 where
  pub target_ip : String
  pub port_mappings : PortMappings
  pub last_activity : ℕ
  pub udp_sockets : Map (ℕ × ℕ) ℕ

unfoldable pub new_multi_port : ℕ → String → PortMappings → Session
new_multi_port now target_ip port_mappings = record {
  target_ip = target_ip;
  port_mappings = port_mappings;
  last_activity = now;
  udp_sockets = [];
}

-- A new socket goes behind the others, and its position is its handle.
abbrev pub bind_socket : Session → ℕ → SocketAddr → Sockets → ℕ × Session × Sockets
bind_socket s proxy_port client sockets = (
  length sockets,
  record s { udp_sockets = insert (proxy_port, client.port) (length sockets) s.udp_sockets },
  sockets ++ record { client = client; proxy_port = proxy_port; shutdown = false } ∷ [],
)

-- `bound` tells whether the system gives a socket.
unfoldable pub get_or_create_udp_socket :
    Bool → Session → ℕ → SocketAddr → Sockets → Result (ℕ × Session × Sockets)
get_or_create_udp_socket bound s proxy_port client sockets =
    elim (lookup (proxy_port, client.port) s.udp_sockets) [
      | some handle ↦ ok (handle, s, sockets)
      | none ↦ if bound then ok (bind_socket s proxy_port client sockets) else err bind_failed
    ]

unfoldable pub shutdown : ℕ → Sockets → Sockets
shutdown handle [] = []
shutdown zero (s ∷ ss) = record s { shutdown = true } ∷ ss
shutdown (suc handle) (s ∷ ss) = s ∷ shutdown handle ss

unfoldable pub shutdown_each : Map (ℕ × ℕ) ℕ → Sockets → Sockets
shutdown_each [] sockets = sockets
shutdown_each ((key, handle) ∷ rest) sockets = shutdown_each rest (shutdown handle sockets)

-- The session keeps no socket; the flags of those it had are set.
unfoldable pub shutdown_sockets : Session → Sockets → Session × Sockets
shutdown_sockets s sockets = (record s { udp_sockets = [] }, shutdown_each s.udp_sockets sockets)

unfoldable pub get_target_addr :
    (String → Option SocketAddr) → Session → ℕ → Protocol → Result SocketAddr
get_target_addr parse_v6 s proxy_port protocol = do
  target_port ← or_fail (lookup (proxy_port, protocol) s.port_mappings) no_port_mapping
  or_fail (socket_addr parse_v6 s.target_ip target_port) invalid_socket_address

unfoldable pub touch_session : ℕ → Session → Session
touch_session now s = record s { last_activity = now }

-- `elapsed` is 0 for an instant in the future.
unfoldable pub is_timed_out : ℕ → Session → ℕ → Bool
is_timed_out now s timeout_seconds = ltb (timeout_seconds * 10 ^ 9) (now - s.last_activity)
