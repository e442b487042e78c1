-- ===== src/Proxy/Bound.antt =====
-- proxy.rs and session.rs: what holds the sockets once one was found or bound for a packet.
use udp_director.Prelude.{
  ℕ, zero, suc, ◌≡◌, refl, ap, ◌⊎◌, inl, inr, Bool, false, none, some, [], ◌∷◌, ◌++◌, arith, nat_eq,
  pair_eq, length, get_elem?, Bool-cases, Option-cases,
}
use udp_director.Prelude.Maps.{
  lookup, adjust, lookup-insert, lookup-insert_self, lookup-adjust, beq_refl,
}
use udp_director.Net.{SocketAddr}
use udp_director.Session.{
  legacy_ip, key_eq, SessionSocket, Sockets, Session, get_or_create_udp_socket, bind_socket,
}
use udp_director.Session.Manager.{Store}
use udp_director.Session.Held.{IsHeld, adjust-Holds}
use udp_director.Proxy.Packets.{IfOk}

get_elem?-append_cases :
    (xs : Sockets) (x y : SessionSocket) (j : ℕ)
    → get_elem? (xs ++ x ∷ []) j ≡ some y
    → (get_elem? xs j ≡ some y) ⊎ ((j ≡ length xs) × (x ≡ y))
get_elem?-append_cases [] x y zero q = inr (refl, ground (arith, q))
get_elem?-append_cases [] x y (suc j) q = absurd (ground (arith, q))
get_elem?-append_cases (z ∷ xs) x y zero q = inl q
get_elem?-append_cases (z ∷ xs) x y (suc j) q = elim (get_elem?-append_cases xs x y j q) [
  | inl at ↦ inl at
  | inr (last, same) ↦ inr (ap suc last, same)
]

-- With a session's socket found or bound, its entry holds what ran before and the new socket.
abbrev pub HoldsAfter : SocketAddr → Store → ℕ × Session × Sockets → Type 0
HoldsAfter client st (handle, s, ss) =
    IsHeld (record { sessions = adjust (legacy_ip client.ip) (λ _. s) st.sessions; sockets = ss })

module _ (client : SocketAddr) (s : Session) (st : Store)
    (found : lookup (legacy_ip client.ip) st.sessions ≡ some s) (held : IsHeld st) where
  same_session-HoldsAfter : (handle : ℕ) → HoldsAfter client st (handle, s, st.sockets)
  same_session-HoldsAfter handle j x at live =
      adjust-Holds (legacy_ip client.ip) (λ _. s) st.sessions j x
        (λ old slot h q has. let same : old ≡ s = ground (arith, q, found) in rw (← same) has)
        (held j x at live)

  bind_socket-HoldsAfter :
      (port : ℕ)
      → lookup (port, client.port) s.udp_sockets ≡ none
      → HoldsAfter client st (bind_socket s port client st.sockets)
  bind_socket-HoldsAfter port free j x at live =
      let new : SessionSocket = record { client = client; proxy_port = port; shutdown = false } in
      elim (get_elem?-append_cases st.sockets new x j at) [
        | inl before ↦
            adjust-Holds (legacy_ip client.ip) (λ _. (bind_socket s port client st.sockets).1)
              st.sessions j x
              (λ old slot h q has.
                let same : old ≡ s = ground (arith, q, found) in
                let has' : lookup slot s.udp_sockets ≡ some h = rw (← same) has in
                ground (
                  arith,
                  has',
                  free,
                  lookup-insert (port, client.port) slot (length st.sockets) s.udp_sockets,
                  pair_eq.same_iff (port, client.port) slot,
                ))
              (held j x before live)
        | inr (last, same) ↦ (
          (bind_socket s port client st.sockets).1,
          rw
              (
                ← same,
                lookup-adjust (legacy_ip client.ip) (legacy_ip client.ip)
                    (λ _. (bind_socket s port client st.sockets).1) st.sessions,
                beq_refl (legacy_ip client.ip),
                found,
              )
              refl,
          rw
              (
                ← same,
                last,
                lookup-insert_self (port, client.port) (length st.sockets) s.udp_sockets,
              )
              refl,
        )
      ]

  pub get_or_create_udp_socket-HoldsAfter :
      (bound : Bool) (port : ℕ)
      → IfOk (HoldsAfter client st) (get_or_create_udp_socket bound s port client st.sockets)
  unfolding get_or_create_udp_socket
  get_or_create_udp_socket-HoldsAfter bound port =
      elim (Option-cases (lookup (port, client.port) s.udp_sockets)) [
        | inr (handle, q) ↦ rw (get_or_create_udp_socket, q) (same_session-HoldsAfter handle)
        | inl q ↦ elim (Bool-cases bound) [
          | inl b ↦ rw (get_or_create_udp_socket, q, b) (bind_socket-HoldsAfter port q)
          | inr b ↦ rw (get_or_create_udp_socket, q, b) tt
        ]
      ]
