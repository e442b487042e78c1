-- ===== src/Tasks/Interleaved.antt =====
-- proxy.rs, query_server.rs and session.rs: the invariant of the sessions under every interleaving of
-- tasks.
use udp_director.Prelude.{
  ℕ, ◌<◌, length, ◌≡◌, ◌≢◌, sym, ap, ◌∙◌, inl, inr, false, some, List, [], ◌∷◌, arith, ◌==◌, nat_eq,
  pair_eq, All, All-map_of, Bool-cases, Option-cases, nat_beq_iff,
}
use udp_director.Prelude.Maps.{Map, lookup, remove, All-remove_change, All-lookup}
use udp_director.Config.{Config}
use udp_director.Net.{IpAddr, SocketAddr}
use udp_director.Session.{
  SessionKey, legacy_ip, key_eq, key_beq_iff, SessionSocket, Sockets, Session,
}
use udp_director.Session.Manager.{Store}
use udp_director.Session.Isolation.{Serves}
use udp_director.Session.Homes.{
  IsHomed, IsIsolated, shutdown_entry-IsIsolated, touch_by_addr-IsIsolated,
}
use udp_director.Proxy.{Environment, ProxyState}
use udp_director.Proxy.Packets.{proxy_packet_bidirectional-IsSound}
use udp_director.Tasks.{
  Job, Stage, looking, choosing, asking, caching, stopping, inserting, counting, forwarding,
  joining, connecting, copying, touching, finished, payload_of, CleanupStage, waiting, removing,
  ending, World, Step, arrive, turn, tidy, look, Reach, begin, later, advance, taken, clean_at,
  clean, watch, act,
}
use udp_director.Tasks.Detached.{
  Avoids, IsDetached, get_elem?-bound, shutdown-IsDetached, shutdown_entry-IsDetached,
  insert-IsDetached, touch_by_addr-IsDetached, proxy_packet_bidirectional-IsDetached,
}
use udp_director.Tasks.Released.{shutdown-IsIsolated, insert-IsIsolated, remove-IsIsolated}

-- Two sockets of sessions of different addresses are different.
Serves-apart :
    (ss : Sockets) (ip other : IpAddr) (e d : (ℕ × ℕ) × ℕ)
    → other ≢ ip
    → Serves ss ip e
    → Serves ss other d
    → (d.1 == e.1) ≡ false
Serves-apart ss ip other ((pp, cp), h) ((pp', cp'), j) ne (s, at, client, _, _)
      (s', at', client', _, _) =
    elim (Bool-cases (j == h)) [
      | inr apart ↦ apart
      | inl same ↦
          let j_is : j ≡ h = (nat_beq_iff j h).0 same in
          let s_is : s' ≡ s = ground (arith, at, at', j_is) in
          absurd (
            ne (
              sym (ap (λ (a : SocketAddr). a.ip) client')
              ∙ ap (λ (x : SessionSocket). x.client.ip) s_is
              ∙ ap (λ (a : SocketAddr). a.ip) client))
    ]

IsHomed-Avoids :
    (ss : Sockets) (ip : IpAddr) (e : (ℕ × ℕ) × ℕ) (key : SessionKey) (w : Session)
    → Serves ss ip e
    → (key == legacy_ip ip) ≡ false
    → IsHomed ss (key, w)
    → Avoids e.1 (key, w)
IsHomed-Avoids ss ip e key w serves ne (other, q, serving) =
    let apart : other ≢ ip = λ h. absurd (ground (arith, q, h, key_beq_iff key (legacy_ip ip))) in
    All-map_of (λ d p. Serves-apart ss ip other e d apart serves p) w.udp_sockets serving

Serves-bound : (ss : Sockets) (ip : IpAddr) (e : (ℕ × ℕ) × ℕ) → Serves ss ip e → e.1 < length ss
Serves-bound ss ip ((pp, cp), h) (s, at, _, _, _) = get_elem?-bound ss h s at

-- Once a session is removed, no other holds its sockets.
removed-IsDetached :
    (key : SessionKey) (s : Session) (st : Store)
    → IsIsolated st
    → lookup key st.sessions ≡ some s
    → All (λ e. IsDetached (record st { sessions = remove key st.sessions }) e.1) s.udp_sockets
removed-IsDetached key s st (distinct, homed) q =
    let (ip, is_legacy, serving) = All-lookup (IsHomed st.sockets) key s st.sessions homed q in
    All-map_of
      (λ e serves. (
        Serves-bound st.sockets ip e serves,
        All-remove_change (IsHomed st.sockets) (Avoids e.1) key
            (λ other w ne p. IsHomed-Avoids st.sockets ip e other w serves (rw (← is_legacy) ne) p)
            st.sessions homed,
      ))
      s.udp_sockets serving

-- The handles that the cleanup task has still to stop.
abbrev pub pending : CleanupStage → Map (ℕ × ℕ) ℕ
pending waiting = []
pending (removing keys) = []
pending (ending sockets keys) = sockets

abbrev AreDetached : Store → Map (ℕ × ℕ) ℕ → Type 0
AreDetached st m = All (λ e. IsDetached st e.1) m

-- A store is isolated, and no session holds what the cleanup has still to stop.
abbrev pub IsOrderly : Store → Map (ℕ × ℕ) ℕ → Type 0
IsOrderly st m = IsIsolated st × AreDetached st m

module _ (env : Environment) (config : Config) (client : SocketAddr) (port : ℕ) (job : Job)
    (m : Map (ℕ × ℕ) ℕ) where
  advance-IsOrderly :
      (stage : Stage) (st : ProxyState)
      → IsOrderly st.store m
      → IsOrderly (advance env config client port job stage st).0.store m
  unfolding advance
  advance-IsOrderly looking st h = h
  advance-IsOrderly choosing st h = h
  advance-IsOrderly (asking fresh) st h = h
  advance-IsOrderly (caching address mappings) st h = h
  advance-IsOrderly (stopping address mappings) st (iso, away) = (
    shutdown_entry-IsIsolated client.ip st.store iso,
    All-map_of (λ e. shutdown_entry-IsDetached (legacy_ip client.ip) e.1 st.store) m away,
  )
  advance-IsOrderly (inserting address mappings) st (iso, away) = (
    insert-IsIsolated env.now client.ip address mappings st.store iso,
    All-map_of (λ e. insert-IsDetached env.now (legacy_ip client.ip) address mappings e.1 st.store)
        m away,
  )
  advance-IsOrderly (counting address) st h = h
  advance-IsOrderly (forwarding before) st (iso, away) = (
    (proxy_packet_bidirectional-IsSound env client (payload_of job) port st.store iso).0,
    All-map_of
        (λ e.
          proxy_packet_bidirectional-IsDetached env client (payload_of job) port e.1 st.store iso)
        m away,
  )
  advance-IsOrderly joining st h = h
  advance-IsOrderly (connecting target) st h = h
  advance-IsOrderly (copying target) st h = h
  advance-IsOrderly (touching outcome) st (iso, away) = (
    touch_by_addr-IsIsolated env.now client st.store iso,
    All-map_of (λ e. touch_by_addr-IsDetached env.now client e.1 st.store) m away,
  )
  advance-IsOrderly (finished outcome) st h = h

abbrev IsOrderlyAt : World → Type 0
IsOrderlyAt w = IsOrderly w.proxy.store (pending w.cleanup)

taken-IsOrderly :
    (key : SessionKey) (keys : List SessionKey) (w : World)
    → IsIsolated w.proxy.store
    → IsOrderlyAt (taken key keys (lookup key w.proxy.store.sessions) w)
taken-IsOrderly key keys w iso = elim (Option-cases (lookup key w.proxy.store.sessions)) [
  | inl q ↦ simp q (iso, tt)
  | inr (s, q) ↦
      simp q (remove-IsIsolated key w.proxy.store iso, removed-IsDetached key s w.proxy.store iso q)
]

clean_at-IsOrderly :
    (now : ℕ) (stage : CleanupStage) (w : World)
    → IsOrderly w.proxy.store (pending stage)
    → IsOrderlyAt (clean_at now stage w)
clean_at-IsOrderly now waiting w (iso, away) = (iso, tt)
clean_at-IsOrderly now (removing []) w (iso, away) = (iso, tt)
clean_at-IsOrderly now (removing (key ∷ keys)) w (iso, away) = taken-IsOrderly key keys w iso
clean_at-IsOrderly now (ending [] keys) w (iso, away) = (iso, tt)
clean_at-IsOrderly now (ending ((slot, handle) ∷ rest) keys) w (iso, away) = (
  shutdown-IsIsolated handle w.proxy.store away.0 iso,
  All-map_of (λ e. shutdown-IsDetached handle e.1 w.proxy.store) rest away.1,
)

-- Every action of every task keeps the store isolated, and the sockets that the cleanup has still to
-- stop out of all sessions.
Step-IsOrderly : {config : Config} {w v : World} → Step config w v → IsOrderlyAt w → IsOrderlyAt v
unfolding act clean watch
Step-IsOrderly (arrive t fresh) h = h
Step-IsOrderly {config} {w} (turn env before t after q) h =
    advance-IsOrderly env config t.client t.port t.job (pending w.cleanup) t.stage w.proxy h
Step-IsOrderly {config} {w} (tidy now) h = clean_at-IsOrderly now w.cleanup w h
Step-IsOrderly (look list) h = h

Reach-IsOrderly : {config : Config} {w v : World} → Reach config w v → IsOrderlyAt w → IsOrderlyAt v
Reach-IsOrderly begin h = h
Reach-IsOrderly (later r st) h = Step-IsOrderly st (Reach-IsOrderly r h)

-- From a world with an isolated store whose cleanup task waits, whatever actions of packets,
-- connections, assignments, the cleanup and the monitor follow one another, and in whatever order, the
-- store stays isolated, and no session holds a socket that the cleanup has still to stop.
pub Reach-IsIsolated :
    {config : Config} {w v : World}
    → Reach config w v
    → IsIsolated w.proxy.store
    → w.cleanup ≡ waiting
    → IsOrderly v.proxy.store (pending v.cleanup)
Reach-IsIsolated r iso idle = Reach-IsOrderly r (iso, rw idle tt)
