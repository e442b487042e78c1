-- ===== src/Query/Placed.antt =====
-- query_server.rs: the parts of an assignment that succeeds.
use udp_director.Prelude.{
  ℕ, ◌≡◌, inl, inr, String, some, [], arith, nat_eq, string_eq, pair_eq, Option-cases,
}
use udp_director.Prelude.Maps.{Map}
use udp_director.Result.{Result-cases, ok}
use udp_director.Net.{protocol_eq}
use udp_director.Config.{Config, ResourceMapping, get_data_ports}
use udp_director.Query.{Candidate}
use udp_director.Query.Process.{Assignment, assign}
use udp_director.Query.Targets.{Cluster, target_ports, routes_for}

-- The parts of an assignment.
abbrev pub IsPlaced : Cluster → Config → ResourceMapping → Candidate → Assignment → Type 0
IsPlaced cluster config mapping chosen given =
    (name : String) × (ports : Map String ℕ) × (target_ports cluster config chosen.resource mapping
        name
      ≡ ok (given.ip, ports))
    × (routes_for ports (get_data_ports config) [] [] ≡ ok (given.routes, given.public_ports))
    × (chosen.pod.uid ≡ some given.server)

pub assign-IsPlaced :
    (cluster : Cluster) (config : Config) (mapping : ResourceMapping) (character : String)
    (chosen : Candidate) (given : Assignment)
    → assign cluster config mapping character chosen ≡ ok given
    → IsPlaced cluster config mapping chosen given
unfolding assign
assign-IsPlaced cluster config mapping character chosen given h =
    elim (Option-cases chosen.pod.name) [
      | inl q ↦ absurd cc
      | inr (name, q) ↦
          elim (Result-cases (target_ports cluster config chosen.resource mapping name)) [
            | inr (inl (e, t)) ↦ absurd cc
            | inr (inr t) ↦ absurd cc
            | inl ((ip, ports), t) ↦
                elim (Result-cases (routes_for ports (get_data_ports config) [] [])) [
                  | inr (inl (e, r)) ↦ absurd cc
                  | inr (inr r) ↦ absurd cc
                  | inl ((routes, public_ports), r) ↦ elim (Option-cases chosen.pod.uid) [
                    | inl u ↦ absurd (ground (arith, h, q, t, r, u))
                    | inr (server, u) ↦
                        let is : (ip ≡ given.ip)
                            × (routes ≡ given.routes)
                            × (public_ports ≡ given.public_ports)
                            × (server ≡ given.server) =
                          ground (arith, h, q, t, r, u) in
                        (name, ports, rw (← is.0) t, rw (← is.1, ← is.2) r, rw (← is.3) u)
                  ]
                ]
          ]
    ]
