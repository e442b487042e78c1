-- ===== src/Query/Safety.antt =====
-- query_server.rs: what a query does to the sessions.
use udp_director.Prelude.{
  ℕ, String, ◌≡◌, ◌≢◌, refl, ◌⊎◌, inl, inr, Option, none, some, List, [], ◌∷◌, Bool-cases,
  Option-cases, sort_by, string_eq,
}
use udp_director.Prelude.Maps.{Map, lookup}
use udp_director.Result.{Result, ok, err, panic, ◌>>=◌}
use udp_director.Net.{SocketAddr}
use udp_director.Config.{Config, ResourceMapping, is_pod_mapping}
use udp_director.Kube.{Resource}
use udp_director.Characters.{CharacterServer}
use udp_director.Kube.Select.{ListCall}
use udp_director.Session.Manager.{Store, upsert_multi_port}
use udp_director.Query.{
  QueryRequest, QueryResponse, success, Access, access_of, has_invalid, Candidate, candidates_from,
  servers, servers_of, server_leb, list_servers,
}
use udp_director.Query.Targets.{Cluster}
use udp_director.Query.Process.{
  WaitEvent, Progress, done, Assignment, assign, finish_assignment, select_loop, eligible_at,
  wait_result, read_snapshot, with_snapshot, with_mapping, process_access, list_at,
}

servers-ne-success :
    (m : Result (List CharacterServer)) (text server : String) (ports : Map String ℕ)
    → (m >>= λ found. ok (servers (sort_by server_leb found))) ≢ ok (success text server ports)
servers-ne-success (ok found) text server ports h = cc
servers-ne-success (err e) text server ports h = cc
servers-ne-success panic text server ports h = cc

pub listed-ne-success :
    (m : Result (List Candidate)) (ids : List String) (text server : String) (ports : Map String ℕ)
    → (m >>= λ cs. list_servers ids cs) ≢ ok (success text server ports)
unfolding list_servers
listed-ne-success (ok cs) ids text server ports h =
    servers-ne-success (servers_of ids cs) text server ports h
listed-ne-success (err e) ids text server ports h = cc
listed-ne-success panic ids text server ports h = cc

pub done_inj : (a b : Result QueryResponse) → done a ≡ done b → a ≡ b
done_inj a b h = cc

module _ (client : SocketAddr) (clock : ℕ) where
  -- The query allocated, and the client's session was replaced by one with the routes.
  abbrev pub Allocates : Store → Store × Progress → Type 0
  Allocates st (st', progress) =
      (a : Assignment) × (progress ≡ done (ok (success "Allocated" a.server a.public_ports)))
      × (st' ≡ upsert_multi_port clock client a.ip a.routes st)

  -- It did not, and left every session and socket alone.
  abbrev pub IsWithoutEffect : Store → Store × Progress → Type 0
  IsWithoutEffect st (st', progress) =
      (st' ≡ st)
      × ((server : String) (ports : Map String ℕ)
          → progress ≢ done (ok (success "Allocated" server ports)))

  abbrev pub IsSafe : Store → Store × Progress → Type 0
  IsSafe st r = Allocates st r ⊎ IsWithoutEffect st r

  finish_assignment-IsSafe :
      (r : Result Assignment) (st : Store) → IsSafe st (finish_assignment clock client r st)
  unfolding finish_assignment
  finish_assignment-IsSafe (ok a) st = inl (a, refl, refl)
  finish_assignment-IsSafe (err e) st = inr (refl, λ s p h. cc)
  finish_assignment-IsSafe panic st = inr (refl, λ s p h. cc)

  module _ (cluster : Cluster) (config : Config) (mapping : ResourceMapping) where
    select_loop-IsSafe :
        (a : Access) (character : String) (r : Result (List Candidate)) (version : String)
        (events : List WaitEvent) (st : Store)
        → IsSafe st
            (select_loop cluster config mapping client clock a character r version events st)
    unfolding select_loop
    select_loop-IsSafe a character (err e) version events st = inr (refl, λ s p h. cc)
    select_loop-IsSafe a character panic version events st = inr (refl, λ s p h. cc)
    select_loop-IsSafe a character (ok (chosen ∷ _)) version events st =
        finish_assignment-IsSafe (assign cluster config mapping character chosen) st
    select_loop-IsSafe a character (ok []) version [] st =
        elim (Option-cases config.capacity_demand) [
          | inl q ↦ rw (select_loop, q) (inr (refl, λ s p h. cc))
          | inr (c, q) ↦ rw (select_loop, q) (inr (refl, λ s p h. cc))
        ]
    select_loop-IsSafe a character (ok []) version (event ∷ events) st =
        elim (Option-cases config.capacity_demand) [
          | inl q ↦ rw (select_loop, q) (inr (refl, λ s p h. cc))
          | inr (c, q) ↦
              rw (select_loop, q)
                (elim (wait_result cluster config mapping client clock a.map version event)
                  as (λ w. IsSafe st (elim w [
                    | err e ↦ (st, done (err e))
                    | panic ↦ (st, done panic)
                    | ok (resources, version', now) ↦
                        select_loop cluster config mapping client clock a character
                          (eligible_at cluster config mapping client clock character a.ids resources
                            now)
                          version' events st
                  ])) [
                    | err e ↦ inr (refl, λ s p h. cc)
                    | panic ↦ inr (refl, λ s p h. cc)
                    | ok (resources, version', now) ↦
                        select_loop-IsSafe a character
                          (eligible_at cluster config mapping client clock character a.ids resources
                            now)
                          version' events st
                  ])
        ]

    with_snapshot-IsSafe :
        (a : Access) (character : Option String) (r : Result (List Resource × String))
        (events : List WaitEvent) (st : Store)
        → IsSafe st (with_snapshot cluster config mapping client clock a character r events st)
    with_snapshot-IsSafe a character (err e) events st = inr (refl, λ s p h. cc)
    with_snapshot-IsSafe a character panic events st = inr (refl, λ s p h. cc)
    with_snapshot-IsSafe a none (ok (resources, version)) events st = inr (
      refl,
      λ s p h.
          listed-ne-success
            (candidates_from cluster.formats cluster.to_pod config cluster.now resources) a.ids
            "Allocated" s p
            (done_inj (list_at cluster config mapping client clock a.ids resources)
              (ok (success "Allocated" s p)) h),
    )
    with_snapshot-IsSafe a (some character) (ok (resources, version)) events st =
        select_loop-IsSafe a character
          (eligible_at cluster config mapping client clock character a.ids resources cluster.now)
          version events st

module _ (cluster : Cluster) (config : Config) (client : SocketAddr) (clock : ℕ) where
  with_mapping-IsSafe :
      (a : Access) (list : ListCall) (events : List WaitEvent) (found : Option ResourceMapping)
      (st : Store)
      → IsSafe client clock st (with_mapping cluster config client clock a list events found st)
  with_mapping-IsSafe a list events none st = inr (refl, λ s p h. cc)
  with_mapping-IsSafe a list events (some mapping) st = elim (Bool-cases (is_pod_mapping mapping)) [
    | inl pods ↦ rw pods (
        with_snapshot-IsSafe client clock cluster config mapping a a.character
          (read_snapshot cluster config mapping client clock a.map list) events st)
    | inr others ↦ rw others (inr (refl, λ s p h. cc))
  ]

-- A query either answers that it has allocated a server, and then the store is the one in which the
-- client's session is replaced by one with the routes of an assignment, or it answers otherwise,
-- fails, panics or still waits, and then no session and no socket has changed.
pub process_access-IsSafe :
    (cluster : Cluster) (config : Config) (client : SocketAddr) (clock : ℕ) (request : QueryRequest)
    (list : ListCall) (events : List WaitEvent) (st : Store)
    → IsSafe client clock st (process_access cluster config client clock request list events st)
unfolding process_access
process_access-IsSafe cluster config client clock request list events st =
    elim (Bool-cases (has_invalid (access_of request))) [
      | inl bad ↦ rw (process_access, bad) (inr (refl, λ s p h. cc))
      | inr good ↦
          rw (process_access, good)
            (with_mapping-IsSafe cluster config client clock (access_of request) list events
              (lookup config.default_endpoint.resource_type config.resource_query_mapping) st)
    ]
