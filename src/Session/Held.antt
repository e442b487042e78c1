-- ===== src/Session/Held.antt =====
-- session.rs: which sessions hold the sockets that have not been told to stop, over operations that
-- are not interrupted.
use udp_director.Prelude.{
  ℕ, ◌≡◌, refl, inl, inr, String, false, some, List, [], ◌∷◌, arith, ◌==◌, nat_eq, pair_eq,
  get_elem?, All, Bool-cases, Option-cases,
}
use udp_director.Prelude.Maps.{
  Map, lookup, adjust, lookup-remove, lookup-adjust, beq_refl, All-lookup,
}
use udp_director.Net.{SocketAddr}
use udp_director.Session.{
  SessionKey, legacy_ip, exact_socket, key_eq, key_beq_iff, SessionSocket, Sockets, PortMappings,
  Session, shutdown, shutdown_each, shutdown_sockets, touch_session,
}
use udp_director.Session.Manager.{
  Store, SessionManager, shutdown_entry, upsert_multi_port, touch, touch_by_addr, remove_key,
  remove_keys, timed_out_keys, cleanup,
}
use udp_director.Session.Isolation.{get_elem?-shutdown}
use udp_director.Session.Routes.{lookup-upsert_multi_port}

shutdown-live :
    (h j : ℕ) (s : SessionSocket) (ss : Sockets)
    → get_elem? (shutdown h ss) j ≡ some s
    → s.shutdown ≡ false
    → ((h == j) ≡ false) × (get_elem? ss j ≡ some s)
shutdown-live h j s ss q live = elim (Bool-cases (h == j)) [
  | inr other ↦ (other, ground (arith, get_elem?-shutdown h j ss, q, other))
  | inl same ↦ elim (Option-cases (get_elem? ss j)) [
    | inl at ↦ absurd (ground (arith, get_elem?-shutdown h j ss, q, same, at))
    | inr (o, at) ↦ absurd (ground (arith, get_elem?-shutdown h j ss, q, same, at, live))
  ]
]

-- A socket that is running after the sockets of a session were stopped is not one of them.
pub shutdown_each-live :
    (m : Map (ℕ × ℕ) ℕ) (j : ℕ) (s : SessionSocket) (ss : Sockets)
    → get_elem? (shutdown_each m ss) j ≡ some s
    → s.shutdown ≡ false
    → All (λ entry. (entry.1 == j) ≡ false) m × (get_elem? ss j ≡ some s)
unfolding shutdown_each
shutdown_each-live [] j s ss q live = (tt, q)
shutdown_each-live ((key, h) ∷ m) j s ss q live =
    let (apart, q') = shutdown_each-live m j s (shutdown h ss) q live in
    let (other, at) = shutdown-live h j s ss q' live in ((other, apart), at)

-- The session of its client holds this socket, under its data port and the client's port.
abbrev pub Holds : Map SessionKey Session → ℕ → SessionSocket → Type 0
Holds sessions handle s =
    (holder : Session) × (lookup (legacy_ip s.client.ip) sessions ≡ some holder)
    × (lookup (s.proxy_port, s.client.port) holder.udp_sockets ≡ some handle)

-- Every running socket is held.
abbrev pub IsHeld : Store → Type 0
IsHeld st =
    (handle : ℕ) (s : SessionSocket)
    → get_elem? st.sockets handle ≡ some s
    → s.shutdown ≡ false
    → Holds st.sessions handle s

-- Where the sockets of the session under a key were stopped, a running socket is held under another.
stopped-Holds :
    (key : SessionKey) (old : Session) (st : Store) (handle : ℕ) (s : SessionSocket)
    → IsHeld st
    → lookup key st.sessions ≡ some old
    → get_elem? (shutdown_each old.udp_sockets st.sockets) handle ≡ some s
    → s.shutdown ≡ false
    → ((key == legacy_ip s.client.ip) ≡ false) × Holds st.sessions handle s
stopped-Holds key old st handle s held found at live =
    let (apart, at') = shutdown_each-live old.udp_sockets handle s st.sockets at live in
    let (holder, q, has) = held handle s at' live in
    elim (Bool-cases (key == legacy_ip s.client.ip)) [
      | inr other ↦ (other, (holder, q, has))
      | inl same ↦
          let same_key : key ≡ legacy_ip s.client.ip =
            (key_beq_iff key (legacy_ip s.client.ip)).0 same in
          let same_holder : holder ≡ old = ground (arith, q, found, same_key) in
          let differs : (handle == handle) ≡ false =
            All-lookup (λ entry. (entry.1 == handle) ≡ false) (s.proxy_port, s.client.port) handle
              old.udp_sockets apart (rw (← same_holder) has) in
          absurd (ground (arith, differs, beq_refl handle))
    ]

shutdown_entry-Holds :
    (key : SessionKey) (st : Store) (handle : ℕ) (s : SessionSocket)
    → IsHeld st
    → get_elem? (shutdown_entry key st).sockets handle ≡ some s
    → s.shutdown ≡ false
    → ((key == legacy_ip s.client.ip) ≡ false) × Holds st.sessions handle s
unfolding shutdown_entry shutdown_sockets
shutdown_entry-Holds key st handle s held at live = elim (Option-cases (lookup key st.sessions)) [
  | inr (old, q) ↦ stopped-Holds key old st handle s held q (rw (shutdown_entry, q) at at) live
  | inl q ↦
      let (holder, found, has) = held handle s (rw (shutdown_entry, q) at at) live in
      elim (Bool-cases (key == legacy_ip s.client.ip)) [
        | inr other ↦ (other, (holder, found, has))
        | inl same ↦
            absurd (ground (arith, q, found, key_beq_iff key (legacy_ip s.client.ip), same))
      ]
]

pub upsert_multi_port-IsHeld :
    (now : ℕ) (client : SocketAddr) (target : String) (ports : PortMappings) (st : Store)
    → IsHeld st
    → IsHeld (upsert_multi_port now client target ports st)
unfolding upsert_multi_port
upsert_multi_port-IsHeld now client target ports st held handle s at live =
    let (other, (holder, q, has)) =
      shutdown_entry-Holds (legacy_ip client.ip) st handle s held at live in
    (
      holder,
      rw (lookup-upsert_multi_port now client target ports (legacy_ip s.client.ip) st, other) q,
      has,
    )

remove_key-IsHeld :
    (manager : SessionManager) (key : SessionKey) (st : Store)
    → IsHeld st
    → IsHeld (remove_key manager key st).0
unfolding remove_key shutdown_sockets
remove_key-IsHeld manager key st held = elim (Option-cases (lookup key st.sessions)) [
  | inl q ↦ rw (remove_key, q) held
  | inr (old, q) ↦
      rw (remove_key, q)
        (λ handle s at live.
          let (other, (holder, found, has)) = stopped-Holds key old st handle s held q at live in
          (holder, rw (lookup-remove key (legacy_ip s.client.ip) st.sessions, other) found, has))
]

remove_keys-IsHeld :
    (manager : SessionManager) (keys : List SessionKey) (st : Store)
    → IsHeld st
    → IsHeld (remove_keys manager keys st).0
unfolding remove_keys
remove_keys-IsHeld manager [] st held = held
remove_keys-IsHeld manager (key ∷ keys) st held =
    remove_keys-IsHeld manager keys (remove_key manager key st).0
      (remove_key-IsHeld manager key st held)

pub cleanup-IsHeld :
    (manager : SessionManager) (now : ℕ) (st : Store)
    → IsHeld st
    → IsHeld (cleanup manager now st).0
unfolding cleanup
cleanup-IsHeld manager now st held =
    remove_keys-IsHeld manager (timed_out_keys now manager.timeout_seconds st.sessions) st held

-- A change of one session that keeps its sockets keeps what holds them.
pub adjust-Holds :
    (key : SessionKey) (f : Session → Session) (sessions : Map SessionKey Session) (handle : ℕ)
    (s : SessionSocket)
    → ((old : Session) (slot : ℕ × ℕ) (h : ℕ)
        → lookup key sessions ≡ some old
        → lookup slot old.udp_sockets ≡ some h
        → lookup slot (f old).udp_sockets ≡ some h)
    → Holds sessions handle s
    → Holds (adjust key f sessions) handle s
adjust-Holds key f sessions handle s keeps (holder, q, has) =
    elim (Bool-cases (key == legacy_ip s.client.ip)) [
      | inr other ↦
          (holder, rw (lookup-adjust key (legacy_ip s.client.ip) f sessions, other) q, has)
      | inl same ↦
          let same_key : key ≡ legacy_ip s.client.ip =
            (key_beq_iff key (legacy_ip s.client.ip)).0 same in
          (
            f holder,
            rw (lookup-adjust key (legacy_ip s.client.ip) f sessions, same, q) refl,
            keeps holder (s.proxy_port, s.client.port) handle (rw same_key q) has,
          )
    ]

pub touch_by_addr-IsHeld :
    (now : ℕ) (client : SocketAddr) (st : Store) → IsHeld st → IsHeld (touch_by_addr now client st)
unfolding touch_by_addr touch touch_session
touch_by_addr-IsHeld now client st held =
    elim (Option-cases (lookup (exact_socket client) st.sessions)) [
      | inl q ↦
          rw (touch_by_addr, q)
            (λ handle s at live.
              adjust-Holds (legacy_ip client.ip) (touch_session now) st.sessions handle s
                (λ old slot h _ has. has) (held handle s at live))
      | inr (w, q) ↦
          rw (touch_by_addr, q)
            (λ handle s at live.
              adjust-Holds (exact_socket client) (touch_session now) st.sessions handle s
                (λ old slot h _ has. has) (held handle s at live))
    ]
