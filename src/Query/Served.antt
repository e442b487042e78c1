-- ===== src/Query/Served.antt =====
-- query_server.rs: what stands behind an answer that a server is allocated.
use udp_director.Prelude.{
  ℕ, ◌≡◌, refl, ◌⊎◌, inl, inr, String, none, some, List, [], ◌∷◌, In, arith, string_eq,
  Option-cases,
}
use udp_director.Prelude.Maps.{Map}
use udp_director.Result.{Result, ok, err, panic}
use udp_director.Net.{SocketAddr}
use udp_director.Kube.{Resource}
use udp_director.Kube.Select.{ListCall}
use udp_director.Kube.Watch.{WatchStart, wait_for_pod_change}
use udp_director.Config.{CapacityDemandConfig, Config, ResourceMapping}
use udp_director.Session.Manager.{Store, upsert_multi_port}
use udp_director.Result.{Result-cases}
use udp_director.Query.{success, Access, Candidate, candidates_from, eligible}
use udp_director.Query.Targets.{Cluster}
use udp_director.Query.Process.{
  WaitEvent, disconnect, deadline, answered, done, Assignment, assign, finish_assignment,
  select_loop, eligible_at, wait_result, read_snapshot,
}
use udp_director.Query.Rank.{IsPreferred, eligible-IsPreferred}

module _ (cluster : Cluster) (config : Config) (mapping : ResourceMapping) (client : SocketAddr)
    (clock : ℕ) (character : String) (a : Access) where
  -- One of the candidates of the resources, as they were at some instant.
  abbrev pub Preferred : List Resource → ℕ → Candidate → Type 0
  Preferred resources now chosen =
      (cs : List Candidate) × (candidates_from cluster.formats cluster.to_pod config now resources
        ≡ ok cs)
      × IsPreferred character a.ids config cs chosen

  eligible_at-Preferred :
      (resources : List Resource) (now : ℕ) (chosen : Candidate) (rest : List Candidate)
      → eligible_at cluster config mapping client clock character a.ids resources now
        ≡ ok (chosen ∷ rest)
      → Preferred resources now chosen
  unfolding eligible_at
  eligible_at-Preferred resources now chosen rest h =
      elim (Result-cases (candidates_from cluster.formats cluster.to_pod config now resources)) [
        | inl (cs, q) ↦
            let is : eligible config character a.ids cs ≡ chosen ∷ rest = ground (arith, h, q) in
            (cs, q, eligible-IsPreferred character a.ids config cs chosen rest is)
        | inr (inl (e, q)) ↦ absurd cc
        | inr (inr q) ↦ absurd cc
      ]

  -- The session of the client is replaced by the one of the chosen candidate's assignment, and the answer
  -- names its Pod and its ports.
  abbrev pub IsGiven : Candidate → String → Map String ℕ → Store → Store → Type 0
  IsGiven chosen server ports st st' =
      (given : Assignment) × (assign cluster config mapping character chosen ≡ ok given)
      × (given.server ≡ server)
      × (given.public_ports ≡ ports)
      × (st' ≡ upsert_multi_port clock client given.ip given.routes st)

  finish_assignment-IsGiven :
      (chosen : Candidate) (st : Store) (text server : String) (ports : Map String ℕ)
      (r : Result Assignment)
      → assign cluster config mapping character chosen ≡ r
      → (finish_assignment clock client r st).1 ≡ done (ok (success text server ports))
      → IsGiven chosen server ports st (finish_assignment clock client r st).0
  unfolding finish_assignment
  finish_assignment-IsGiven chosen st text server ports (ok given) q h = (given, q, cc, cc, refl)
  finish_assignment-IsGiven chosen st text server ports (err e) q h = absurd cc
  finish_assignment-IsGiven chosen st text server ports panic q h = absurd cc

  -- After a wait that ends well the loop goes on with the new resources.
  pub select_loop-answered :
      (c : CapacityDemandConfig) (version version' : String) (e : WaitEvent)
      (events : List WaitEvent) (resources : List Resource) (now : ℕ) (st : Store)
      → config.capacity_demand ≡ some c
      → wait_result cluster config mapping client clock a.map version e
        ≡ ok (resources, version', now)
      → select_loop cluster config mapping client clock a character (ok []) version (e ∷ events) st
        ≡ select_loop cluster config mapping client clock a character
            (eligible_at cluster config mapping client clock character a.ids resources now)
            version'
            events
            st
  unfolding select_loop
  select_loop-answered c version version' e events resources now st q w = simp (select_loop, q, w)

  -- A candidate is given that is preferred among those of some resources for which `Seen` holds.
  abbrev pub IsServedFrom :
      (List Resource → ℕ → Type 0) → String → Map String ℕ → Store → Store → Type 0
  IsServedFrom Seen server ports st st' =
      (resources : List Resource) × (now : ℕ) × (chosen : Candidate) × Seen resources now
      × Preferred resources now chosen
      × IsGiven chosen server ports st st'

  module _ (Seen : List Resource → ℕ → Type 0) where
    -- Whatever a wait ends with is seen.
    abbrev pub SeesWaits : List WaitEvent → Type 0
    SeesWaits events =
        (e : WaitEvent)
        → In e events
        → (version version' : String) (resources : List Resource) (now : ℕ)
        → wait_result cluster config mapping client clock a.map version e
          ≡ ok (resources, version', now)
        → Seen resources now

    pub select_loop-IsServedFrom :
        (resources : List Resource) (now : ℕ) (found : Result (List Candidate)) (version : String)
        (events : List WaitEvent) (st : Store) (text server : String) (ports : Map String ℕ)
        → Seen resources now
        → eligible_at cluster config mapping client clock character a.ids resources now ≡ found
        → SeesWaits events
        → (select_loop cluster config mapping client clock a character found version events st).1
          ≡ done (ok (success text server ports))
        → IsServedFrom Seen server ports st
            (select_loop cluster config mapping client clock a character found version events st).0
    unfolding select_loop
    select_loop-IsServedFrom resources now (err e) version events st text server ports seen is waits
          h =
        absurd cc
    select_loop-IsServedFrom resources now panic version events st text server ports seen is waits
          h =
        absurd cc
    select_loop-IsServedFrom resources now (ok (chosen ∷ rest)) version events st text server ports
          seen is waits h =
        (
          resources,
          now,
          chosen,
          seen,
          eligible_at-Preferred resources now chosen rest is,
          finish_assignment-IsGiven chosen st text server ports
              (assign cluster config mapping character chosen) refl h,
        )
    select_loop-IsServedFrom resources now (ok []) version [] st text server ports seen is waits h =
        elim (Option-cases config.capacity_demand) [ inl q ↦ absurd cc | inr (c, q) ↦ absurd cc ]
    select_loop-IsServedFrom resources now (ok []) version (e ∷ events) st text server ports seen is
          waits h =
        elim (Option-cases config.capacity_demand) [
          | inl q ↦ absurd cc
          | inr (c, q) ↦
              elim (Result-cases
                (wait_result cluster config mapping client clock a.map version e)) [
                  | inr (inl (d, w)) ↦ absurd cc
                  | inr (inr w) ↦ absurd cc
                  | inl ((resources', version', now'), w) ↦
                      rw (select_loop-answered c version version' e events resources' now' st q w) (
                        select_loop-IsServedFrom resources' now'
                          (eligible_at cluster config mapping client clock character a.ids
                            resources' now')
                          version' events st text server ports
                          (waits e (inl refl) version version' resources' now' w) refl
                          (λ d m. waits d (inr m))
                          (rw
                            (select_loop-answered c version version' e events resources' now' st q
                              w)
                            at h))
                ]
        ]

  -- A wait that ends well was answered, and gives what a new list gave.
  pub wait_result-answered :
      (version version' : String) (resources : List Resource) (now : ℕ) (e : WaitEvent)
      → wait_result cluster config mapping client clock a.map version e
        ≡ ok (resources, version', now)
      → (start : WatchStart) × (snapshot : ListCall) × (e ≡ answered none start snapshot now)
        × (read_snapshot cluster config mapping client clock a.map snapshot
            ≡ ok (resources, version'))
  unfolding wait_result
  wait_result-answered version version' resources now disconnect h = absurd cc
  wait_result-answered version version' resources now deadline h = absurd cc
  wait_result-answered version version' resources now (answered (some refusal) start snapshot n) h =
      absurd cc
  wait_result-answered version version' resources now (answered none start snapshot n) h =
      elim (Result-cases (wait_for_pod_change version start)) [
        | inr (inl (d, w)) ↦ absurd cc
        | inr (inr w) ↦ absurd cc
        | inl (u, w) ↦
            elim (Result-cases (read_snapshot cluster config mapping client clock a.map snapshot)) [
              | inr (inl (d, r)) ↦ absurd cc
              | inr (inr r) ↦ absurd cc
              | inl ((rs, v), r) ↦
                  let is : (rs ≡ resources) × (v ≡ version') × (n ≡ now) =
                    ground (arith, w, r, h) in
                  (start, snapshot, rw is.2 refl, rw (← is.0, ← is.1) r)
            ]
      ]

  -- The resources of the first list, or of a list after a demand that was answered.
  abbrev pub IsSeen : ListCall → List WaitEvent → List Resource → ℕ → Type 0
  IsSeen list events resources now =
      (snapshot : ListCall) × (version : String) × (read_snapshot cluster config mapping client
          clock a.map snapshot
        ≡ ok (resources, version))
      × (((snapshot ≡ list) × (now ≡ cluster.now))
          ⊎ ((start : WatchStart) × In (answered none start snapshot now) events))
