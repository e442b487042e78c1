-- ===== src/Session/Cleared.antt =====
-- session.rs: the sockets after the store was cleared.
use udp_director.Prelude.{
  ℕ, ◌≡◌, inl, inr, true, false, some, [], ◌∷◌, arith, ◌==◌, nat_eq, pair_eq, get_elem?, All,
  Bool-cases,
}
use udp_director.Prelude.Maps.{Map, beq_refl, All-lookup}
use udp_director.Session.{
  SessionKey, legacy_ip, key_eq, SessionSocket, Sockets, Session, shutdown_each,
}
use udp_director.Session.Manager.{Store, clear_all, shutdown_all}
use udp_director.Session.Held.{shutdown_each-live, IsHeld}

shutdown_all-live :
    (m : Map SessionKey Session) (j : ℕ) (s : SessionSocket) (ss : Sockets)
    → get_elem? (shutdown_all m ss) j ≡ some s
    → s.shutdown ≡ false
    → All (λ entry. All (λ e. (e.1 == j) ≡ false) entry.1.udp_sockets) m × (get_elem? ss j ≡ some s)
unfolding shutdown_all
shutdown_all-live [] j s ss q live = (tt, q)
shutdown_all-live ((key, w) ∷ m) j s ss q live =
    let (apart, q') = shutdown_all-live m j s (shutdown_each w.udp_sockets ss) q live in
    let (others, at) = shutdown_each-live w.udp_sockets j s ss q' live in ((others, apart), at)

-- Clearing a store that holds its running sockets stops every socket.
pub clear_all-stops :
    (st : Store) (handle : ℕ) (s : SessionSocket)
    → IsHeld st
    → get_elem? (clear_all st).sockets handle ≡ some s
    → s.shutdown ≡ true
unfolding clear_all
clear_all-stops st handle s held at = elim (Bool-cases s.shutdown) [
  | inl stopped ↦ stopped
  | inr live ↦
      let (apart, at') = shutdown_all-live st.sessions handle s st.sockets at live in
      let (holder, q, has) = held handle s at' live in
      let differs : (handle == handle) ≡ false =
        All-lookup (λ e. (e.1 == handle) ≡ false) (s.proxy_port, s.client.port) handle
          holder.udp_sockets
          (All-lookup (λ entry. All (λ e. (e.1 == handle) ≡ false) entry.1.udp_sockets)
            (legacy_ip s.client.ip) holder st.sessions apart q)
          has in
      absurd (ground (arith, differs, beq_refl handle))
]
