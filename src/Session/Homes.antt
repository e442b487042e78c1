-- ===== src/Session/Homes.antt =====
-- session.rs: the predicate of an isolated store. Sessions stand under the IP address of their client, at most
-- one for each, and their sockets are alive and serve the client sockets of that address.
use udp_director.Prelude.{
  ℕ, ◌≡◌, ◌≢◌, refl, inl, inr, String, false, some, List, [], ◌∷◌, ◌==◌, nat_eq, pair_eq, All,
  All-map_of, Option-cases, arith,
}
use udp_director.Prelude.Maps.{
  lookup, adjust, HasDistinctKeys, insert-HasDistinctKeys, remove-HasDistinctKeys,
  adjust-HasDistinctKeys, All-insert, All-remove_change, All-adjust, All-adjust_change, All-lookup,
}
use udp_director.Net.{IpAddr, SocketAddr}
use udp_director.Session.{
  SessionKey, legacy_ip, exact_socket, key_eq, key_beq_iff, Sockets, PortMappings, Session,
  new_multi_port, shutdown_each, shutdown_sockets, touch_session,
}
use udp_director.Session.Manager.{
  Store, SessionManager, shutdown_entry, upsert_multi_port, touch, touch_by_addr, remove_key,
  remove_keys, timed_out_keys, cleanup,
}
use udp_director.Session.Isolation.{
  Serves, StopsOnly, Serves-kept, Owns-of_Serves, shutdown_each-StopsOnly,
}

abbrev pub IsHomed : Sockets → SessionKey × Session → Type 0
IsHomed ss (key, s) = (ip : IpAddr) × (key ≡ legacy_ip ip) × All (Serves ss ip) s.udp_sockets

abbrev pub IsIsolated : Store → Type 0
IsIsolated st = HasDistinctKeys st.sessions × All (IsHomed st.sockets) st.sessions

legacy_ip_inj : (a b : IpAddr) → legacy_ip a ≡ legacy_ip b → a ≡ b
legacy_ip_inj a b h = cc

-- Stopping the sockets of one address leaves the sessions under the other keys as they were.
IsHomed-kept :
    (ip : IpAddr) (ss ss' : Sockets) (key : SessionKey) (s : Session)
    → StopsOnly ip ss ss'
    → (key == legacy_ip ip) ≡ false
    → IsHomed ss (key, s)
    → IsHomed ss' (key, s)
IsHomed-kept ip ss ss' key s f ne (other, q, sockets) =
    let apart : other ≢ ip = λ h. absurd (ground (arith, q, h, key_beq_iff key (legacy_ip ip))) in
    (
      other,
      q,
      All-map_of (λ entry. Serves-kept ip other ss ss' entry f apart) s.udp_sockets sockets,
    )

-- The session of an address is stopped by the handles that it holds.
session-StopsOnly :
    (ip : IpAddr) (s : Session) (st : Store)
    → IsIsolated st
    → lookup (legacy_ip ip) st.sessions ≡ some s
    → StopsOnly ip st.sockets (shutdown_each s.udp_sockets st.sockets)
session-StopsOnly ip s st (distinct, homed) q =
    let (other, same, sockets) =
      All-lookup (IsHomed st.sockets) (legacy_ip ip) s st.sessions homed q in
    let serving : All (Serves st.sockets ip) s.udp_sockets =
      rw (legacy_ip_inj ip other same) sockets in
    shutdown_each-StopsOnly ip s.udp_sockets st.sockets
      (All-map_of (λ entry. Owns-of_Serves st.sockets ip entry) s.udp_sockets serving)

pub shutdown_entry-IsIsolated :
    (ip : IpAddr) (st : Store) → IsIsolated st → IsIsolated (shutdown_entry (legacy_ip ip) st)
unfolding shutdown_entry shutdown_sockets
shutdown_entry-IsIsolated ip st (distinct, homed) =
    elim (Option-cases (lookup (legacy_ip ip) st.sessions)) [
      | inl q ↦ rw (shutdown_entry, q) (distinct, homed)
      | inr (old, q) ↦
          let stops = session-StopsOnly ip old st (distinct, homed) q in
          rw (shutdown_entry, q)
            (
              adjust-HasDistinctKeys (legacy_ip ip) (λ s. (shutdown_sockets s st.sockets).0)
                  st.sessions distinct,
              All-adjust_change (IsHomed st.sockets)
                  (IsHomed (shutdown_each old.udp_sockets st.sockets)) (legacy_ip ip)
                  (λ key s ne p.
                    IsHomed-kept ip st.sockets (shutdown_each old.udp_sockets st.sockets) key s
                      stops ne p)
                  (λ s. (shutdown_sockets s st.sockets).0) st.sessions distinct
                  (λ key s same p. (ip, (key_beq_iff key (legacy_ip ip)).0 same, tt)) homed,
            )
    ]

pub upsert_multi_port-IsIsolated :
    (now : ℕ) (client : SocketAddr) (target : String) (ports : PortMappings) (st : Store)
    → IsIsolated st
    → IsIsolated (upsert_multi_port now client target ports st)
unfolding upsert_multi_port new_multi_port
upsert_multi_port-IsIsolated now client target ports st h =
    let (distinct, homed) = shutdown_entry-IsIsolated client.ip st h in
    let cleared = shutdown_entry (legacy_ip client.ip) st in
    (
      insert-HasDistinctKeys (legacy_ip client.ip) (new_multi_port now target ports)
          cleared.sessions distinct,
      All-insert (IsHomed cleared.sockets) (legacy_ip client.ip) (new_multi_port now target ports)
          cleared.sessions (client.ip, refl, tt) homed,
    )

adjust_touch-IsIsolated :
    (now : ℕ) (key : SessionKey) (st : Store)
    → IsIsolated st
    → IsIsolated (record st { sessions = adjust key (touch_session now) st.sessions })
unfolding touch_session
adjust_touch-IsIsolated now key st (distinct, homed) = (
  adjust-HasDistinctKeys key (touch_session now) st.sessions distinct,
  All-adjust (IsHomed st.sockets) key (touch_session now) st.sessions (λ i w p. p) homed,
)

pub touch_by_addr-IsIsolated :
    (now : ℕ) (client : SocketAddr) (st : Store)
    → IsIsolated st
    → IsIsolated (touch_by_addr now client st)
unfolding touch_by_addr touch
touch_by_addr-IsIsolated now client st h =
    elim (Option-cases (lookup (exact_socket client) st.sessions)) [
      | inl q ↦ rw (touch_by_addr, q) (adjust_touch-IsIsolated now (legacy_ip client.ip) st h)
      | inr (s, q) ↦ rw (touch_by_addr, q) (adjust_touch-IsIsolated now (exact_socket client) st h)
    ]

remove_key-IsIsolated :
    (manager : SessionManager) (key : SessionKey) (st : Store)
    → IsIsolated st
    → IsIsolated (remove_key manager key st).0
unfolding remove_key shutdown_sockets
remove_key-IsIsolated manager key st (distinct, homed) =
    elim (Option-cases (lookup key st.sessions)) [
      | inl q ↦ rw (remove_key, q) (distinct, homed)
      | inr (s, q) ↦
          let (ip, is_legacy, _) = All-lookup (IsHomed st.sockets) key s st.sessions homed q in
          let q' : lookup (legacy_ip ip) st.sessions ≡ some s = rw (← is_legacy) q in
          let stops = session-StopsOnly ip s st (distinct, homed) q' in
          rw (remove_key, q)
            (
              remove-HasDistinctKeys key st.sessions distinct,
              All-remove_change (IsHomed st.sockets)
                  (IsHomed (shutdown_each s.udp_sockets st.sockets)) key
                  (λ other w ne p.
                    IsHomed-kept ip st.sockets (shutdown_each s.udp_sockets st.sockets) other w
                      stops (rw (← is_legacy) ne) p)
                  st.sessions homed,
            )
    ]

remove_keys-IsIsolated :
    (manager : SessionManager) (keys : List SessionKey) (st : Store)
    → IsIsolated st
    → IsIsolated (remove_keys manager keys st).0
unfolding remove_keys
remove_keys-IsIsolated manager [] st h = h
remove_keys-IsIsolated manager (key ∷ keys) st h =
    remove_keys-IsIsolated manager keys (remove_key manager key st).0
      (remove_key-IsIsolated manager key st h)

pub cleanup-IsIsolated :
    (manager : SessionManager) (now : ℕ) (st : Store)
    → IsIsolated st
    → IsIsolated (cleanup manager now st).0
unfolding cleanup
cleanup-IsIsolated manager now st h =
    remove_keys-IsIsolated manager (timed_out_keys now manager.timeout_seconds st.sessions) st h
