-- ===== src/Session/Routes.antt =====
-- session.rs: what the manager finds after each of its operations.
use udp_director.Prelude.{
  ℕ, ◌≡◌, refl, inl, inr, String, false, none, some, [], ◌∷◌, All, ◌==◌, if◌then◌else◌, Bool-cases,
  Option-cases,
}
use udp_director.Prelude.Maps.{Map, lookup, All-adjust, All-insert, lookup-insert, lookup-adjust}
use udp_director.Net.{IpAddr, ip_eq, SocketAddr}
use udp_director.Session.{
  SessionKey, legacy_ip, exact_socket, key_eq, PortMappings, Session, new_multi_port,
  shutdown_sockets,
}
use udp_director.Session.Manager.{Store, get, get_by_addr, shutdown_entry, upsert_multi_port}

pub lookup-shutdown_entry :
    (key other : SessionKey) (st : Store)
    → (key == other) ≡ false
    → lookup other (shutdown_entry key st).sessions ≡ lookup other st.sessions
unfolding shutdown_entry
lookup-shutdown_entry key other st ne = elim (Option-cases (lookup key st.sessions)) [
  | inl q ↦ rw (shutdown_entry, q) refl
  | inr (old, q) ↦
      rw
        (
          shutdown_entry,
          q,
          lookup-adjust key other (λ s. (shutdown_sockets s st.sockets).0) st.sessions,
          ne,
        )
        refl
]

pub lookup-upsert_multi_port :
    (now : ℕ) (client : SocketAddr) (target : String) (ports : PortMappings) (key : SessionKey)
    (st : Store)
    → lookup key (upsert_multi_port now client target ports st).sessions ≡ (
        if legacy_ip client.ip == key
        then some (new_multi_port now target ports)
        else lookup key st.sessions)
unfolding upsert_multi_port
lookup-upsert_multi_port now client target ports key st =
    elim (Bool-cases (legacy_ip client.ip == key)) [
      | inl same ↦
          rw
            (
              upsert_multi_port,
              lookup-insert (legacy_ip client.ip) key (new_multi_port now target ports)
                  (shutdown_entry (legacy_ip client.ip) st).sessions,
              same,
            )
            refl
      | inr other ↦
          rw
            (
              upsert_multi_port,
              lookup-insert (legacy_ip client.ip) key (new_multi_port now target ports)
                  (shutdown_entry (legacy_ip client.ip) st).sessions,
              other,
            )
            (lookup-shutdown_entry (legacy_ip client.ip) key st other)
    ]

-- Sessions stand under the IP address of their client alone.
abbrev pub IsByIp : SessionKey × Session → Type 0
IsByIp (key, s) = (ip : IpAddr) × (key ≡ legacy_ip ip)

pub exact-absent :
    (client : SocketAddr) (sessions : Map SessionKey Session)
    → All IsByIp sessions
    → lookup (exact_socket client) sessions ≡ none
unfolding lookup
exact-absent client [] h = refl
exact-absent client ((legacy_ip ip, s) ∷ rest) h = exact-absent client rest h.1
exact-absent client ((exact_socket a, s) ∷ rest) ((ip, q), h) = cc

pub get_by_addr-lem :
    (client : SocketAddr) (st : Store)
    → All IsByIp st.sessions
    → get_by_addr client st ≡ get client.ip st
unfolding get_by_addr get
get_by_addr-lem client st h = rw (get_by_addr, exact-absent client st.sessions h) refl

-- After an upsert every port of the client's IP finds the new session, and every other address finds
-- what it found before, where sessions stand under IP addresses only.
pub get_by_addr-upsert_multi_port :
    (now : ℕ) (client other : SocketAddr) (target : String) (ports : PortMappings) (st : Store)
    → All IsByIp st.sessions
    → get_by_addr other (upsert_multi_port now client target ports st) ≡ (
        if client.ip == other.ip
        then some (new_multi_port now target ports)
        else get_by_addr other st)
unfolding get_by_addr get
get_by_addr-upsert_multi_port now client other target ports st h =
    rw
      (
        get_by_addr,
        lookup-upsert_multi_port now client target ports (exact_socket other) st,
        exact-absent other st.sessions h,
        lookup-upsert_multi_port now client target ports (legacy_ip other.ip) st,
      )
      refl

-- Stopping the sockets of an entry leaves the keys as they were.
shutdown_entry-IsByIp :
    (key : SessionKey) (st : Store)
    → All IsByIp st.sessions
    → All IsByIp (shutdown_entry key st).sessions
unfolding shutdown_entry
shutdown_entry-IsByIp key st h = elim (Option-cases (lookup key st.sessions)) [
  | inl q ↦ rw (shutdown_entry, q) h
  | inr (old, q) ↦
      rw (shutdown_entry, q)
        (All-adjust IsByIp key (λ s. (shutdown_sockets s st.sockets).0) st.sessions (λ i w p. p) h)
]

pub upsert_multi_port-IsByIp :
    (now : ℕ) (client : SocketAddr) (target : String) (ports : PortMappings) (st : Store)
    → All IsByIp st.sessions
    → All IsByIp (upsert_multi_port now client target ports st).sessions
unfolding upsert_multi_port
upsert_multi_port-IsByIp now client target ports st h =
    All-insert IsByIp (legacy_ip client.ip) (new_multi_port now target ports)
      (shutdown_entry (legacy_ip client.ip) st).sessions (client.ip, refl)
      (shutdown_entry-IsByIp (legacy_ip client.ip) st h)
