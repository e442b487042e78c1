-- ===== src/Tasks/Released.antt =====
-- session.rs: a store after a socket that no session holds was stopped, and after a session was added
-- or removed beside it.
use udp_director.Prelude.{
  ℕ, ◌≡◌, refl, String, false, [], ◌∷◌, arith, ◌==◌, nat_eq, pair_eq, All, nat_beq_iff,
}
use udp_director.Prelude.Maps.{
  Map, insert, remove, All-insert, All-remove, remove-HasDistinctKeys, insert-HasDistinctKeys,
}
use udp_director.Net.{IpAddr}
use udp_director.Session.{
  SessionKey, legacy_ip, key_eq, Sockets, PortMappings, Session, new_multi_port, shutdown,
}
use udp_director.Session.Manager.{Store}
use udp_director.Session.Isolation.{Serves, get_elem?-shutdown}
use udp_director.Session.Homes.{IsHomed, IsIsolated}
use udp_director.Tasks.Detached.{IsDetached, Avoids}

-- Stopping a detached socket leaves the store isolated.
Serves-shutdown :
    (ip : IpAddr) (h : ℕ) (ss : Sockets) (entry : (ℕ × ℕ) × ℕ)
    → (entry.1 == h) ≡ false
    → Serves ss ip entry
    → Serves (shutdown h ss) ip entry
Serves-shutdown ip h ss ((pp, cp), j) other (s, at, client, port, alive) =
    let apart : (h == j) ≡ false = ground (arith, nat_beq_iff h j, nat_beq_iff j h, other) in
    (s, rw (get_elem?-shutdown h j ss, apart) at, client, port, alive)

All-Serves-shutdown :
    (ip : IpAddr) (h : ℕ) (ss : Sockets) (m : Map (ℕ × ℕ) ℕ)
    → All (λ e. (e.1 == h) ≡ false) m
    → All (Serves ss ip) m
    → All (Serves (shutdown h ss) ip) m
All-Serves-shutdown ip h ss [] away serving = tt
All-Serves-shutdown ip h ss (e ∷ m) away serving =
    (Serves-shutdown ip h ss e away.0 serving.0, All-Serves-shutdown ip h ss m away.1 serving.1)

All-IsHomed-shutdown :
    (h : ℕ) (ss : Sockets) (sessions : Map SessionKey Session)
    → All (Avoids h) sessions
    → All (IsHomed ss) sessions
    → All (IsHomed (shutdown h ss)) sessions
All-IsHomed-shutdown h ss [] away homed = tt
All-IsHomed-shutdown h ss ((key, s) ∷ m) away ((ip, q, serving), rest) = (
  (ip, q, All-Serves-shutdown ip h ss s.udp_sockets away.0 serving),
  All-IsHomed-shutdown h ss m away.1 rest,
)

pub shutdown-IsIsolated :
    (h : ℕ) (st : Store)
    → IsDetached st h
    → IsIsolated st
    → IsIsolated (record st { sockets = shutdown h st.sockets })
shutdown-IsIsolated h st (lt, away) (distinct, homed) =
    (distinct, All-IsHomed-shutdown h st.sockets st.sessions away homed)

pub insert-IsIsolated :
    (now : ℕ) (ip : IpAddr) (target : String) (ports : PortMappings) (st : Store)
    → IsIsolated st
    → IsIsolated (record st {
      sessions = insert (legacy_ip ip) (new_multi_port now target ports) st.sessions;
    })
unfolding new_multi_port
insert-IsIsolated now ip target ports st (distinct, homed) = (
  insert-HasDistinctKeys (legacy_ip ip) (new_multi_port now target ports) st.sessions distinct,
  All-insert (IsHomed st.sockets) (legacy_ip ip) (new_multi_port now target ports) st.sessions
      (ip, refl, tt) homed,
)

pub remove-IsIsolated :
    (key : SessionKey) (st : Store)
    → IsIsolated st
    → IsIsolated (record st { sessions = remove key st.sessions })
remove-IsIsolated key st (distinct, homed) = (
  remove-HasDistinctKeys key st.sessions distinct,
  All-remove (IsHomed st.sockets) key st.sessions homed,
)
