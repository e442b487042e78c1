-- ===== src/Query/Ending.antt =====
-- query_server.rs: how the wait for capacity ends, and with what.
use udp_director.Prelude.{
  ℕ, ◌≡◌, refl, ◌⊎◌, inl, inr, String, Option, none, some, List, [], ◌∷◌, ◌++◌, arith, Bool-cases,
  Option-cases, string_eq,
}
use udp_director.Prelude.Maps.{lookup}
use udp_director.Result.{
  Result, Result-cases, DemandError, ok, err, panic, demand, timeout, cancelled,
}
use udp_director.Net.{SocketAddr}
use udp_director.Config.{Config, ResourceMapping, is_pod_mapping}
use udp_director.Kube.{Resource}
use udp_director.Kube.Select.{ListCall}
use udp_director.Session.Manager.{Store}
use udp_director.Query.{QueryRequest, QueryResponse, Access, access_of, has_invalid, Candidate}
use udp_director.Query.Served.{select_loop-answered}
use udp_director.Query.Targets.{Cluster}
use udp_director.Query.Process.{
  WaitEvent, disconnect, deadline, answered, Progress, waiting, done, Assignment, assign,
  finish_assignment, select_loop, eligible_at, wait_result, read_snapshot, with_snapshot,
  with_mapping, process_access,
}

-- The events that no wait goes on after, with the error of each.
abbrev pub end_of : WaitEvent → Option DemandError
end_of disconnect = some cancelled
end_of deadline = some timeout
end_of (answered refusal start list now) = refusal

-- What the events of a wait come to: a result that no more events change, or a wait that the next
-- ending event turns into its error.
abbrev pub EndsBy : Store → DemandError → Store × Progress → Store × Progress → Type 0
EndsBy st e before after =
    ((r : Result QueryResponse) × (before.1 ≡ done r) × (after ≡ before))
    ⊎ ((before ≡ (st, waiting)) × (after ≡ (st, done (err (demand e)))))

settled :
    (st : Store) (e : DemandError) (st' : Store) (r : Result QueryResponse)
    → EndsBy st e (st', done r) (st', done r)
settled st e st' r = inl (r, refl, refl)

module _ (cluster : Cluster) (config : Config) (mapping : ResourceMapping) (client : SocketAddr)
    (clock : ℕ) where
  wait_result-ends :
      (map version : String) (event : WaitEvent) (e : DemandError)
      → end_of event ≡ some e
      → wait_result cluster config mapping client clock map version event ≡ err (demand e)
  unfolding wait_result
  wait_result-ends map version disconnect e h = ground arith
  wait_result-ends map version deadline e h = ground arith
  wait_result-ends map version (answered refusal start list now) e h = rw h refl

  finish_assignment-settled :
      (st : Store) (e : DemandError) (r : Result Assignment)
      → EndsBy st e (finish_assignment clock client r st) (finish_assignment clock client r st)
  unfolding finish_assignment
  finish_assignment-settled st e (ok a) = inl (_, refl, refl)
  finish_assignment-settled st e (err d) = inl (_, refl, refl)
  finish_assignment-settled st e panic = inl (_, refl, refl)

  module _ (a : Access) (character : String) (event : WaitEvent) (e : DemandError)
      (ending : end_of event ≡ some e) (after : List WaitEvent) (st : Store) where
    select_loop-EndsBy :
        (found : Result (List Candidate)) (version : String) (before : List WaitEvent)
        → EndsBy st e
            (select_loop cluster config mapping client clock a character found version before st)
            (select_loop cluster config mapping client clock a character found version
              (before ++ event ∷ after)
              st)
    unfolding select_loop
    select_loop-EndsBy (err d) version before = inl (err d, refl, refl)
    select_loop-EndsBy panic version before = inl (panic, refl, refl)
    select_loop-EndsBy (ok (chosen ∷ rest)) version before =
        finish_assignment-settled st e (assign cluster config mapping character chosen)
    select_loop-EndsBy (ok []) version [] = elim (Option-cases config.capacity_demand) [
      | inl q ↦ rw (select_loop, q) (inl (_, refl, refl))
      | inr (c, q) ↦
          rw (select_loop, q, wait_result-ends a.map version event e ending) (inr (refl, refl))
    ]
    select_loop-EndsBy (ok []) version (b ∷ before) = elim (Option-cases config.capacity_demand) [
      | inl q ↦ rw (select_loop, q) (inl (_, refl, refl))
      | inr (c, q) ↦
          elim (Result-cases (wait_result cluster config mapping client clock a.map version b)) [
            | inr (inl (d, w)) ↦ rw (select_loop, q, w) (inl (_, refl, refl))
            | inr (inr w) ↦ rw (select_loop, q, w) (inl (_, refl, refl))
            | inl ((resources, version', now), w) ↦
                rw
                  (
                    select_loop-answered cluster config mapping client clock character a c version
                        version' b before resources now st q w,
                    select_loop-answered cluster config mapping client clock character a c version
                        version' b (before ++ event ∷ after) resources now st q w,
                  )
                  (select_loop-EndsBy
                    (eligible_at cluster config mapping client clock character a.ids resources now)
                    version' before)
          ]
    ]

module _ (cluster : Cluster) (config : Config) (client : SocketAddr) (clock : ℕ) (event : WaitEvent)
    (e : DemandError) (ending : end_of event ≡ some e) (before after : List WaitEvent)
    (st : Store) where
  with_snapshot-EndsBy :
      (mapping : ResourceMapping) (a : Access) (wanted : Option String)
      (r : Result (List Resource × String))
      → EndsBy st e (with_snapshot cluster config mapping client clock a wanted r before st) (
          with_snapshot cluster config mapping client clock a wanted r (before ++ event ∷ after) st)
  with_snapshot-EndsBy mapping a wanted (err d) = inl (_, refl, refl)
  with_snapshot-EndsBy mapping a wanted panic = inl (_, refl, refl)
  with_snapshot-EndsBy mapping a none (ok (resources, version)) = inl (_, refl, refl)
  with_snapshot-EndsBy mapping a (some character) (ok (resources, version)) =
      select_loop-EndsBy cluster config mapping client clock a character event e ending after st
        (eligible_at cluster config mapping client clock character a.ids resources cluster.now)
        version before

  with_mapping-EndsBy :
      (a : Access) (list : ListCall) (found : Option ResourceMapping)
      → EndsBy st e
          (with_mapping cluster config client clock a list before found st)
          (with_mapping cluster config client clock a list (before ++ event ∷ after) found st)
  with_mapping-EndsBy a list none = inl (_, refl, refl)
  with_mapping-EndsBy a list (some mapping) = elim (Bool-cases (is_pod_mapping mapping)) [
    | inr others ↦ rw others (inl (_, refl, refl))
    | inl pods ↦ rw pods (
        with_snapshot-EndsBy mapping a a.character
          (read_snapshot cluster config mapping client clock a.map list))
  ]

-- A query ends no later than at the first disconnect, passed deadline or refused demand: if it has
-- ended before, the event and those after it change nothing, and if it still waits, it ends there with
-- the event's error, and no session or socket has changed.
pub process_access-EndsBy :
    (cluster : Cluster) (config : Config) (client : SocketAddr) (clock : ℕ) (request : QueryRequest)
    (list : ListCall) (before after : List WaitEvent) (event : WaitEvent) (e : DemandError)
    (st : Store)
    → end_of event ≡ some e
    → EndsBy st e
        (process_access cluster config client clock request list before st)
        (process_access cluster config client clock request list (before ++ event ∷ after) st)
unfolding process_access
process_access-EndsBy cluster config client clock request list before after event e st ending =
    elim (Bool-cases (has_invalid (access_of request))) [
      | inl bad ↦ rw (process_access, bad) (inl (_, refl, refl))
      | inr good ↦
          rw (process_access, good)
            (with_mapping-EndsBy cluster config client clock event e ending before after st
              (access_of request) list
              (lookup config.default_endpoint.resource_type config.resource_query_mapping))
    ]
