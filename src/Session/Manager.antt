-- ===== src/Session/Manager.antt =====
-- session.rs: `SessionManager`. Each function is the handler between two suspensions of its task; the
-- map and the sockets are shared by all clones of the manager.
use udp_director.Prelude.{
  ℕ, String, Bool, true, false, Option, none, some, List, [], ◌∷◌, ◌++◌, if◌then◌else◌, length,
}
use udp_director.Prelude.Maps.{Map, lookup, insert, remove, adjust}
use udp_director.Net.{IpAddr, SocketAddr}
use udp_director.Session.{
  SessionKey, legacy_ip, exact_socket, key_eq, Sockets, PortMappings, Session, new_multi_port,
  shutdown_each, shutdown_sockets, touch_session, is_timed_out,
}

pub record Store : Type 0 where
  pub sessions : Map SessionKey Session
  pub sockets : Sockets

-- What a clone of the manager holds beside the shared store.
pub record SessionManager : Type 0 where
  pub timeout_seconds : ℕ
  pub has_callback : Bool

unfoldable pub get : IpAddr → Store → Option Session
get ip st = lookup (legacy_ip ip) st.sessions

abbrev pub or_else {ℓ} : {A : Type ℓ} → Option A → Option A → Option A
or_else (some a) other = some a
or_else none other = other

unfoldable pub get_by_addr : SocketAddr → Store → Option Session
unfolding get
get_by_addr client st = or_else (lookup (exact_socket client) st.sessions) (get client.ip st)

-- The key of the entry that `get_mut_by_addr` borrows.
unfoldable pub key_by_addr : SocketAddr → Store → SessionKey
key_by_addr client st = elim (lookup (exact_socket client) st.sessions) [
  | some s ↦ exact_socket client
  | none ↦ legacy_ip client.ip
]

-- The sockets of the session under a key are shut down, where there is one.
unfoldable pub shutdown_entry : SessionKey → Store → Store
shutdown_entry key st = elim (lookup key st.sessions) [
  | none ↦ st
  | some old ↦ record {
    sessions = adjust key (λ s. (shutdown_sockets s st.sockets).0) st.sessions;
    sockets = (shutdown_sockets old st.sockets).1;
  }
]

unfoldable pub upsert_multi_port : ℕ → SocketAddr → String → PortMappings → Store → Store
upsert_multi_port now client target_ip port_mappings st =
    let cleared = shutdown_entry (legacy_ip client.ip) st in
    record cleared {
      sessions =
          insert (legacy_ip client.ip) (new_multi_port now target_ip port_mappings)
            cleared.sessions;
    }

unfoldable pub touch : ℕ → IpAddr → Store → Store
touch now ip st = record st { sessions = adjust (legacy_ip ip) (touch_session now) st.sessions }

unfoldable pub touch_by_addr : ℕ → SocketAddr → Store → Store
unfolding touch
touch_by_addr now client st = elim (lookup (exact_socket client) st.sessions) [
  | some s ↦ record st { sessions = adjust (exact_socket client) (touch_session now) st.sessions }
  | none ↦ touch now client.ip st
]

unfoldable pub count : Store → ℕ
count st = length st.sessions

unfoldable pub shutdown_all : Map SessionKey Session → Sockets → Sockets
shutdown_all [] sockets = sockets
shutdown_all ((key, s) ∷ rest) sockets = shutdown_all rest (shutdown_each s.udp_sockets sockets)

unfoldable pub clear_all : Store → Store
clear_all st = record { sessions = []; sockets = shutdown_all st.sessions st.sockets }

-- The first half of a round of `cleanup_loop`: the keys of the sessions that have timed out.
unfoldable pub timed_out_keys : ℕ → ℕ → Map SessionKey Session → List SessionKey
timed_out_keys now timeout [] = []
timed_out_keys now timeout ((key, s) ∷ rest) =
    if is_timed_out now s timeout
    then key ∷ timed_out_keys now timeout rest
    else timed_out_keys now timeout rest

-- The second half removes one key, and notifies the callback of the session's target.
abbrev pub notices : Bool → String → List String
notices true target = target ∷ []
notices false target = []

unfoldable pub remove_key : SessionManager → SessionKey → Store → Store × List String
remove_key manager key st = elim (lookup key st.sessions) [
  | none ↦ (st, [])
  | some s ↦ (
    record { sessions = remove key st.sessions; sockets = (shutdown_sockets s st.sockets).1 },
    notices manager.has_callback s.target_ip,
  )
]

unfoldable pub remove_keys : SessionManager → List SessionKey → Store → Store × List String
remove_keys manager [] st = (st, [])
remove_keys manager (key ∷ keys) st =
    let (st', told) = remove_key manager key st in
    let (st'', later) = remove_keys manager keys st' in (st'', told ++ later)

-- A whole round, where no other task comes between its halves.
unfoldable pub cleanup : SessionManager → ℕ → Store → Store × List String
unfolding timed_out_keys remove_keys remove_key
cleanup manager now st =
    remove_keys manager (timed_out_keys now manager.timeout_seconds st.sessions) st

-- `SessionManager::new` gives the clone of the manager that its cleanup task keeps.
unfoldable pub new_manager : ℕ → SessionManager × SessionManager
new_manager timeout =
    let manager : SessionManager = record { timeout_seconds = timeout; has_callback = false } in
    (manager, manager)

unfoldable pub set_cleanup_callback : SessionManager → SessionManager
set_cleanup_callback manager = record manager { has_callback = true }
