-- ===== src/Net/Defs.antt =====
-- Addresses of clients and backends, and the protocol of a data port (config.rs). An IPv6 socket
-- address is kept without its flow label and scope id.
use udp_director.Prelude.{
  ℕ, ◌≡◌, refl, ◌↔◌, Bool, true, false, ◌&&◌, arith, HasEquality, ◌==◌, nat_eq,
}

pub data Protocol : Type 0 where
  udp tcp : Protocol

abbrev pub protocol_beq : Protocol → Protocol → Bool
protocol_beq udp udp = true
protocol_beq tcp tcp = true
protocol_beq udp tcp = false
protocol_beq tcp udp = false

pub protocol_beq_iff : (p q : Protocol) → (protocol_beq p q ≡ true) ↔ (p ≡ q)
protocol_beq_iff udp udp = (λ _. refl, λ _. refl)
protocol_beq_iff tcp tcp = (λ _. refl, λ _. refl)
protocol_beq_iff udp tcp = ground arith
protocol_beq_iff tcp udp = ground arith

instance abbrev pub protocol_eq : HasEquality Protocol
protocol_eq = record { same = protocol_beq; same_iff = protocol_beq_iff }

pub data IpAddr : Type 0 where
  v4 v6 : ℕ → IpAddr

abbrev pub ip_beq : IpAddr → IpAddr → Bool
ip_beq (v4 a) (v4 b) = a == b
ip_beq (v6 a) (v6 b) = a == b
ip_beq (v4 a) (v6 b) = false
ip_beq (v6 a) (v4 b) = false

pub ip_beq_iff : (a b : IpAddr) → (ip_beq a b ≡ true) ↔ (a ≡ b)
ip_beq_iff (v4 a) (v4 b) = ground arith
ip_beq_iff (v6 a) (v6 b) = ground arith
ip_beq_iff (v4 a) (v6 b) = ground arith
ip_beq_iff (v6 a) (v4 b) = ground arith

instance abbrev pub ip_eq : HasEquality IpAddr
ip_eq = record { same = ip_beq; same_iff = ip_beq_iff }

pub record SocketAddr : Type 0 where
  pub ip : IpAddr
  pub port : ℕ

abbrev pub addr_beq : SocketAddr → SocketAddr → Bool
addr_beq a b = (a.ip == b.ip) && (a.port == b.port)

pub addr_beq_iff : (a b : SocketAddr) → (addr_beq a b ≡ true) ↔ (a ≡ b)
addr_beq_iff a b = ground (arith, ip_beq_iff a.ip b.ip)

instance abbrev pub addr_eq : HasEquality SocketAddr
addr_eq = record { same = addr_beq; same_iff = addr_beq_iff }
