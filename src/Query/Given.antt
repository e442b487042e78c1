-- ===== src/Query/Given.antt =====
-- query_server.rs: what stands behind an answer that a server is allocated, for the whole of a query.
use udp_director.Prelude.{
  ℕ, ◌≡◌, refl, inl, inr, String, true, false, Option, none, some, List, string_eq, Bool-cases,
}
use udp_director.Prelude.Maps.{Map, lookup}
use udp_director.Result.{Result, ok, err, panic}
use udp_director.Net.{SocketAddr}
use udp_director.Kube.{Resource}
use udp_director.Kube.Select.{ListCall}
use udp_director.Config.{Config, ResourceMapping, is_pod_mapping}
use udp_director.Session.Manager.{Store}
use udp_director.Query.{QueryRequest, success, Access, access_of, has_invalid, candidates_from}
use udp_director.Query.Targets.{Cluster}
use udp_director.Query.Process.{
  WaitEvent, done, eligible_at, read_snapshot, with_snapshot, with_mapping, process_access, list_at,
}
use udp_director.Query.Safety.{listed-ne-success, done_inj}
use udp_director.Query.Served.{IsServedFrom, IsSeen, select_loop-IsServedFrom, wait_result-answered}

module _ (cluster : Cluster) (config : Config) (client : SocketAddr) (clock : ℕ) where
  with_snapshot-IsServedFrom :
      (mapping : ResourceMapping) (a : Access) (wanted : Option String) (list : ListCall)
      (events : List WaitEvent) (st : Store) (text server : String) (ports : Map String ℕ)
      (first : Result (List Resource × String))
      → read_snapshot cluster config mapping client clock a.map list ≡ first
      → (with_snapshot cluster config mapping client clock a wanted first events st).1
        ≡ done (ok (success text server ports))
      → (character : String) × (wanted ≡ some character)
        × IsServedFrom cluster config mapping client clock character a
            (IsSeen cluster config mapping client clock character a list events)
            server
            ports
            st
            (with_snapshot cluster config mapping client clock a wanted first events st).0
  with_snapshot-IsServedFrom mapping a wanted list events st text server ports (err e) is h =
      absurd cc
  with_snapshot-IsServedFrom mapping a wanted list events st text server ports panic is h =
      absurd cc
  with_snapshot-IsServedFrom mapping a none list events st text server ports
        (ok (resources, version)) is h =
      absurd (
        listed-ne-success
          (candidates_from cluster.formats cluster.to_pod config cluster.now resources) a.ids text
          server ports
          (done_inj (list_at cluster config mapping client clock a.ids resources)
            (ok (success text server ports)) h))
  with_snapshot-IsServedFrom mapping a (some character) list events st text server ports
        (ok (resources, version)) is h =
      (
        character,
        refl,
        select_loop-IsServedFrom cluster config mapping client clock character a
            (IsSeen cluster config mapping client clock character a list events) resources
            cluster.now
            (eligible_at cluster config mapping client clock character a.ids resources cluster.now)
            version events st text server ports (list, version, is, inl (refl, refl)) refl
            (λ e m before after rs now w.
              let (start, snapshot, same, read) =
                wait_result-answered cluster config mapping client clock character a before after rs
                  now e w in
              (snapshot, after, read, inr (start, rw (← same) m)))
            h,
      )

  -- The request and the configuration are in order, and the character is given a server.
  abbrev pub IsAnswered :
      QueryRequest → ListCall → List WaitEvent → String → Map String ℕ → Store → Store → Type 0
  IsAnswered request list events server ports st st' =
      let a = access_of request in
      (has_invalid a ≡ false)
      × ((mapping : ResourceMapping) × (lookup config.default_endpoint.resource_type
              config.resource_query_mapping
            ≡ some mapping)
          × (is_pod_mapping mapping ≡ true)
          × ((character : String) × (a.character ≡ some character)
              × IsServedFrom cluster config mapping client clock character a
                  (IsSeen cluster config mapping client clock character a list events) server ports
                  st st'))

  with_mapping-IsAnswered :
      (a : Access) (list : ListCall) (events : List WaitEvent) (st : Store) (text server : String)
      (ports : Map String ℕ) (found : Option ResourceMapping)
      → (with_mapping cluster config client clock a list events found st).1
        ≡ done (ok (success text server ports))
      → (mapping : ResourceMapping) × (found ≡ some mapping)
        × (is_pod_mapping mapping ≡ true)
        × ((character : String) × (a.character ≡ some character)
            × IsServedFrom cluster config mapping client clock character a
                (IsSeen cluster config mapping client clock character a list events)
                server
                ports
                st
                (with_mapping cluster config client clock a list events found st).0)
  with_mapping-IsAnswered a list events st text server ports none h = absurd cc
  with_mapping-IsAnswered a list events st text server ports (some mapping) h =
      elim (Bool-cases (is_pod_mapping mapping)) [
        | inr others ↦ absurd cc
        | inl pods ↦ (
          mapping,
          refl,
          pods,
          rw pods (
              with_snapshot-IsServedFrom mapping a a.character list events st text server ports
                (read_snapshot cluster config mapping client clock a.map list) refl (rw pods at h)),
        )
      ]

-- A query is answered with a server only if it is valid and asks for a character, and the server type
-- is mapped to Pods; then the server is one of the candidates of a list that the query read, at first
-- or after an answered demand, has room or the character already, is not draining and has no such
-- candidate before it, its assignment succeeded, the answer has its identity and ports, and the
-- client's session is replaced by one with its routes.
pub process_access-Given :
    (cluster : Cluster) (config : Config) (client : SocketAddr) (clock : ℕ) (request : QueryRequest)
    (list : ListCall) (events : List WaitEvent) (st : Store) (text server : String)
    (ports : Map String ℕ)
    → (process_access cluster config client clock request list events st).1
      ≡ done (ok (success text server ports))
    → IsAnswered cluster config client clock request list events server ports st
        (process_access cluster config client clock request list events st).0
unfolding process_access
process_access-Given cluster config client clock request list events st text server ports h =
    elim (Bool-cases (has_invalid (access_of request))) [
      | inl bad ↦ absurd cc
      | inr good ↦
          rw (process_access, good)
            (
              refl,
              with_mapping-IsAnswered cluster config client clock (access_of request) list events st
                  text server ports
                  (lookup config.default_endpoint.resource_type config.resource_query_mapping)
                  (rw (process_access, good) at h),
            )
    ]
