-- ===== src/Query/Routing.antt =====
-- query_server.rs: the routes of an assignment, one for each data port.
use udp_director.Prelude.{
  ℕ, ◌≡◌, refl, ◌⊎◌, inl, inr, String, true, false, some, List, [], ◌∷◌, nat_eq, string_eq, pair_eq,
  pair_beq_iff, All, In, arith, Bool-cases, Option-cases, HasEquality, ◌==◌, ◌∙◌, All-map_of,
  eq_iff,
}
use udp_director.Prelude.Maps.{Map, lookup, insert, contains_key, lookup-insert}
use udp_director.Result.{Result, ok, err, missing_backend_port}
use udp_director.Net.{Protocol, protocol_eq}
use udp_director.Config.{DataPortConfig}
use udp_director.Session.{PortMappings}
use udp_director.Query.Targets.{routes_for}

contains_key-insert {ℓ κ} :
    {K : Type ℓ} {V : Type κ} ⦃e : HasEquality K⦄ (key other : K) (v : V) (m : Map K V)
    → contains_key other m ≡ true
    → contains_key other (insert key v m) ≡ true
contains_key-insert key other v m h = rw (lookup-insert key other v m) (ground arith)

contains_key-insert_self {ℓ κ} :
    {K : Type ℓ} {V : Type κ} ⦃e : HasEquality K⦄ (key : K) (v : V) (m : Map K V)
    → contains_key key (insert key v m) ≡ true
contains_key-insert_self ⦃e⦄ key v m =
    rw (lookup-insert key key v m) (ground (arith, e.same_iff key key))

-- The data port has a route, and the client is told of it.
abbrev pub IsCovered : PortMappings × Map String ℕ → DataPortConfig → Type 0
IsCovered (routes, public_ports) p =
    (contains_key (p.port, p.protocol) routes ≡ true) × (contains_key p.name public_ports ≡ true)

abbrev with_port : DataPortConfig → ℕ → PortMappings × Map String ℕ → PortMappings × Map String ℕ
with_port p target (routes, public_ports) =
    (insert (p.port, p.protocol) target routes, insert p.name p.port public_ports)

IsCovered-with_port :
    (p other : DataPortConfig) (target : ℕ) (out : PortMappings × Map String ℕ)
    → IsCovered out other
    → IsCovered (with_port p target out) other
IsCovered-with_port p other target (routes, public_ports) (routed, told) = (
  contains_key-insert (p.port, p.protocol) (other.port, other.protocol) target routes routed,
  contains_key-insert p.name other.name p.port public_ports told,
)

module _ (ports : Map String ℕ) where
  -- Every port is covered, and what was covered stays so; or the backend lacks one of the ports.
  abbrev pub Covers :
      List DataPortConfig
      → PortMappings × Map String ℕ
      → Result (PortMappings × Map String ℕ)
      → Type 0
  Covers ps out r =
      ((done : PortMappings × Map String ℕ) × (r ≡ ok done)
        × All (λ p. (contains_key p.name ports ≡ true) × IsCovered done p) ps
        × ((p : DataPortConfig) → IsCovered out p → IsCovered done p))
      ⊎ ((r ≡ err missing_backend_port)
          × ((p : DataPortConfig) × In p ps × (contains_key p.name ports ≡ false)))

  -- The routes of an assignment succeed with a route and a public port for every data port, if the
  -- backend has a port of each name, and fail with the missing-port error if it lacks one.
  pub routes_for-Covers :
      (ps : List DataPortConfig) (routes : PortMappings) (public_ports : Map String ℕ)
      → Covers ps (routes, public_ports) (routes_for ports ps routes public_ports)
  unfolding routes_for
  routes_for-Covers [] routes public_ports = inl ((routes, public_ports), refl, tt, λ p h. h)
  routes_for-Covers (p ∷ ps) routes public_ports = elim (Option-cases (lookup p.name ports)) [
    | inl q ↦ rw (routes_for, q) (inr (refl, (p, inl refl, rw q refl)))
    | inr (target, q) ↦
        let out = with_port p target (routes, public_ports) in
        let mine : IsCovered out p = (
          contains_key-insert_self (p.port, p.protocol) target routes,
          contains_key-insert_self p.name p.port public_ports,
        ) in
        rw (routes_for, q)
          (elim (routes_for-Covers ps out.0 out.1) [
            | inl (done, is, rest, keeps) ↦ inl (
              done,
              is,
              ((refl, keeps p mine), rest),
              λ other h. keeps other (IsCovered-with_port p other target (routes, public_ports) h),
            )
            | inr (is, (missing, m, lacks)) ↦ inr (is, (missing, inr m, lacks))
          ])
  ]

  -- A route comes from a data port that has its key, and leads to the backend's port of that name.
  abbrev pub IsNamed : List DataPortConfig → ℕ × Protocol → ℕ → Type 0
  IsNamed ps key target =
      (p : DataPortConfig) × In p ps
      × ((p.port, p.protocol) ≡ key)
      × (lookup p.name ports ≡ some target)

  IsNamed-later :
      (p : DataPortConfig) (ps : List DataPortConfig) (key : ℕ × Protocol) (target : ℕ)
      → IsNamed ps key target
      → IsNamed (p ∷ ps) key target
  IsNamed-later p ps key target (other, m, same, q) = (other, inr m, same, q)

  pub routes_for-IsNamed :
      (ps : List DataPortConfig) (routes : PortMappings) (public_ports : Map String ℕ)
      (out : PortMappings × Map String ℕ) (key : ℕ × Protocol) (target : ℕ)
      → routes_for ports ps routes public_ports ≡ ok out
      → lookup key out.0 ≡ some target
      → IsNamed ps key target ⊎ (lookup key routes ≡ some target)
  unfolding routes_for
  routes_for-IsNamed [] routes public_ports out key target h q = inr (ground (arith, h, q))
  routes_for-IsNamed (p ∷ ps) routes public_ports out key target h q =
      elim (Option-cases (lookup p.name ports)) [
        | inl lacks ↦ absurd cc
        | inr (port, found) ↦
            let mine : ℕ × Protocol = (p.port, p.protocol) in
            elim (routes_for-IsNamed ps (insert mine port routes)
              (insert p.name p.port public_ports) out key target (rw (routes_for, found) at h) q) [
                | inl later ↦ inl (IsNamed-later p ps key target later)
                | inr now ↦ elim (Bool-cases (mine == key)) [
                  | inl same ↦
                      let set : some port ≡ some target =
                        rw (lookup-insert mine key port routes, same) at now in
                      inl (p, inl refl, (pair_beq_iff mine key).0 same, found ∙ set)
                  | inr other ↦ inr (rw (lookup-insert mine key port routes, other) at now)
                ]
              ]
      ]

  -- What the client is told of a name is the public port of a data port with that name.
  abbrev pub IsPublic : List DataPortConfig → String → ℕ → Type 0
  IsPublic ps name port = (p : DataPortConfig) × In p ps × (p.name ≡ name) × (p.port ≡ port)

  routes_for-IsPublic :
      (ps : List DataPortConfig) (routes : PortMappings) (public_ports : Map String ℕ)
      (out : PortMappings × Map String ℕ) (name : String) (port : ℕ)
      → routes_for ports ps routes public_ports ≡ ok out
      → lookup name out.1 ≡ some port
      → IsPublic ps name port ⊎ (lookup name public_ports ≡ some port)
  unfolding routes_for
  routes_for-IsPublic [] routes public_ports out name port h q = inr (ground (arith, h, q))
  routes_for-IsPublic (p ∷ ps) routes public_ports out name port h q =
      elim (Option-cases (lookup p.name ports)) [
        | inl lacks ↦ absurd cc
        | inr (target, found) ↦
            elim (routes_for-IsPublic ps (insert (p.port, p.protocol) target routes)
              (insert p.name p.port public_ports) out name port (rw (routes_for, found) at h) q) [
                | inl (other, m, same, is) ↦ inl (other, inr m, same, is)
                | inr now ↦ elim (Bool-cases (p.name == name)) [
                  | inl same ↦
                      let set : some p.port ≡ some port =
                        rw (lookup-insert p.name name p.port public_ports, same) at now in
                      inl (p, inl refl, (eq_iff p.name name).0 same, cc)
                  | inr other ↦
                      inr (rw (lookup-insert p.name name p.port public_ports, other) at now)
                ]
              ]
      ]

  -- Each data port has a route and is told of; each route leads to a port of the backend, and each
  -- port that is told of is public.
  abbrev pub IsRouting : List DataPortConfig → PortMappings × Map String ℕ → Type 0
  IsRouting ps out =
      All (IsCovered out) ps
      × ((key : ℕ × Protocol) (target : ℕ) → lookup key out.0 ≡ some target → IsNamed ps key target)
      × ((name : String) (port : ℕ) → lookup name out.1 ≡ some port → IsPublic ps name port)

  abbrev pub HasAllPorts : List DataPortConfig → Type 0
  HasAllPorts ps = All (λ p. contains_key p.name ports ≡ true) ps

  -- If the backend has a port of the name of each data port, the routes of an assignment succeed: each
  -- data port has a route and a public port, each route leads from the number and protocol of a data
  -- port to the backend's port of its name, and each public port is the number of a data port of that
  -- name. If it lacks one, they fail with the missing-port error.
  pub routes_for-IsRouting :
      (ps : List DataPortConfig)
      → ((out : PortMappings × Map String ℕ) × (routes_for ports ps [] [] ≡ ok out)
          × HasAllPorts ps
          × IsRouting ps out)
        ⊎ ((routes_for ports ps [] [] ≡ err missing_backend_port)
            × ((p : DataPortConfig) × In p ps × (contains_key p.name ports ≡ false)))
  unfolding lookup
  routes_for-IsRouting ps = elim (routes_for-Covers ps [] []) [
    | inr lacking ↦ inr lacking
    | inl (out, is, each, _) ↦ inl (
      out,
      is,
      All-map_of (λ p h. h.0) ps each,
      (
        All-map_of (λ p h. h.1) ps each,
        (λ key target q. elim (routes_for-IsNamed ps [] [] out key target is q) [
          | inl named ↦ named
          | inr never ↦ absurd cc
        ]),
        λ name port q. elim (routes_for-IsPublic ps [] [] out name port is q) [
          | inl public ↦ public
          | inr never ↦ absurd cc
        ],
      ),
    )
  ]
