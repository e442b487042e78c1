-- ===== src/Proxy/Table/Kept.antt =====
-- session.rs and proxy.rs: what a client's session is after operations of all clients.
use mathlib.Core.Option
use udp_director.Prelude.{
  ℕ, ◌≡◌, refl, sym, ◌∙◌, ap, inl, inr, Option, none, some, List, [], ◌∷◌, arith, ltb, ◌==◌, ◌-◌,
  ◌*◌, ◌^◌, if◌then◌else◌, Bool-cases, Option-cases,
}
use udp_director.Net.{IpAddr, ip_eq, SocketAddr}
use udp_director.Session.{key_eq, Session}
use udp_director.Session.Manager.{Store, SessionManager, get, get_by_addr}
use udp_director.Session.Homes.{IsIsolated}
use udp_director.Session.Routes.{get_by_addr-lem}
use udp_director.Proxy.Packets.{IsByIp-of_IsIsolated}
use udp_director.Proxy.Table.{
  Route, Table, route_of, view, Operation, upserted, touched, forwarded, cleaned, cleared, perform,
  specified, run_store, run_table,
}
use udp_director.Proxy.Table.Refines.{perform-IsIsolated, run_store-refines}

-- The last activity of an address's session after an operation that leaves it in place; `none` where
-- the operation replaces or ends it.
abbrev pub active_after : SessionManager → IpAddr → Operation → ℕ → Option ℕ
active_after manager ip (upserted now client target ports) at =
    if client.ip == ip then none else some at
active_after manager ip (touched now client) at = some (if client.ip == ip then now else at)
active_after manager ip (forwarded env client payload port) at = some at
active_after manager ip (cleaned now) at =
    if ltb (manager.timeout_seconds * 10 ^ 9) (now - at) then none else some at
active_after manager ip cleared at = none

abbrev and_then : Option ℕ → (ℕ → Option ℕ) → Option ℕ
and_then none f = none
and_then (some at) f = f at

abbrev pub last_active : SessionManager → IpAddr → List Operation → ℕ → Option ℕ
last_active manager ip [] at = some at
last_active manager ip (op ∷ ops) at =
    and_then (active_after manager ip op at) (last_active manager ip ops)

abbrev at_activity : ℕ → Route → Route
at_activity at r = record r { last_activity = at }

set_activity :
    (r : Route) (a b : ℕ) → some a ≡ some b → some (at_activity a r) ≡ some (at_activity b r)
set_activity r a b h = let same : a ≡ b = cc in rw same refl

specified-kept :
    (manager : SessionManager) (ip : IpAddr) (op : Operation) (table : Table) (r : Route) (at : ℕ)
    → table ip ≡ some r
    → active_after manager ip op r.last_activity ≡ some at
    → specified manager op table ip ≡ some (at_activity at r)
specified-kept manager ip (upserted now client target ports) table r at here h =
    elim (Bool-cases (client.ip == ip)) [
      | inl mine ↦ absurd (ground (arith, h, mine))
      | inr other ↦ rw (other, here) (set_activity r r.last_activity at (rw other at h))
    ]
specified-kept manager ip (touched now client) table r at here h =
    elim (Bool-cases (client.ip == ip)) [
      | inl mine ↦ rw (mine, here) (set_activity r now at (rw mine at h))
      | inr other ↦ rw (other, here) (set_activity r r.last_activity at (rw other at h))
    ]
specified-kept manager ip (forwarded env client payload port) table r at here h =
    here ∙ set_activity r r.last_activity at h
specified-kept manager ip (cleaned now) table r at here h =
    elim (Bool-cases (ltb (manager.timeout_seconds * 10 ^ 9) (now - r.last_activity))) [
      | inl idle ↦ absurd (ground (arith, h, idle))
      | inr fresh ↦ rw (here, fresh) (set_activity r r.last_activity at (rw fresh at h))
    ]
specified-kept manager ip cleared table r at here h = absurd cc

run_table-kept :
    (manager : SessionManager) (ip : IpAddr) (ops : List Operation) (table : Table) (r : Route)
    (at : ℕ)
    → table ip ≡ some r
    → last_active manager ip ops r.last_activity ≡ some at
    → run_table manager ops table ip ≡ some (at_activity at r)
run_table-kept manager ip [] table r at here h = here ∙ set_activity r r.last_activity at h
run_table-kept manager ip (op ∷ ops) table r at here h =
    elim (Option-cases (active_after manager ip op r.last_activity)) [
      | inl q ↦ absurd (ground (arith, h, q))
      | inr (now, q) ↦
          run_table-kept manager ip ops (specified manager op table) (at_activity now r) at
            (specified-kept manager ip op table r now here q) (rw q at h)
    ]

run_store-IsIsolated :
    (manager : SessionManager) (ops : List Operation) (st : Store)
    → IsIsolated st
    → IsIsolated (run_store manager ops st)
run_store-IsIsolated manager [] st h = h
run_store-IsIsolated manager (op ∷ ops) st h =
    run_store-IsIsolated manager ops (perform manager op st) (perform-IsIsolated manager op st h)

-- What a client's look-up finds is what its address has in the table.
view-by_addr :
    (client : SocketAddr) (st : Store)
    → IsIsolated st
    → view st client.ip ≡ Option.map route_of (get_by_addr client st)
unfolding get
view-by_addr client st h = rw (get_by_addr-lem client st (IsByIp-of_IsIsolated st h)) refl

-- The client finds a session with this target and these routes, which was last active at that time.
abbrev pub StaysAt : SocketAddr → Session → ℕ → Store → Type 0
StaysAt client s at st =
    (found : Session) × (get_by_addr client st ≡ some found)
    × (found.target_ip ≡ s.target_ip)
    × (found.port_mappings ≡ s.port_mappings)
    × (found.last_activity ≡ at)

with_route-StaysAt :
    (client : SocketAddr) (s : Session) (at : ℕ) (st : Store)
    → Option.map route_of (get_by_addr client st) ≡ some (at_activity at (route_of s))
    → StaysAt client s at st
with_route-StaysAt client s at st h = elim (Option-cases (get_by_addr client st)) [
  | inl q ↦ absurd (ground (arith, h, q))
  | inr (found, q) ↦
      let same : route_of found ≡ at_activity at (route_of s) = ground (arith, h, q) in
      (
        found,
        q,
        ap (λ r. r.target_ip) same,
        ap (λ r. r.port_mappings) same,
        ap (λ r. r.last_activity) same,
      )
]

-- In an isolated store, a client that has a session keeps its target and its routes through every
-- sequence of packets, touches and upserts of all clients and rounds of the cleanup, as long as none
-- of them replaces the client's session or clears the store and no round finds it idle for more than
-- the timeout; and the time of its last activity is then that of its last touch, or as it was.
pub run_store-StaysAt :
    (manager : SessionManager) (client : SocketAddr) (ops : List Operation) (st : Store)
    (s : Session) (at : ℕ)
    → IsIsolated st
    → get_by_addr client st ≡ some s
    → last_active manager client.ip ops s.last_activity ≡ some at
    → StaysAt client s at (run_store manager ops st)
run_store-StaysAt manager client ops st s at h here active =
    let after = run_store-IsIsolated manager ops st h in
    let before : view st client.ip ≡ some (route_of s) = rw (view-by_addr client st h, here) refl in
    with_route-StaysAt client s at (run_store manager ops st) (
      sym (view-by_addr client (run_store manager ops st) after)
      ∙ ap (λ table. table client.ip) (run_store-refines manager ops st h)
      ∙ run_table-kept manager client.ip ops (view st) (route_of s) at before active)
