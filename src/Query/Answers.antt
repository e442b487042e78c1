-- ===== src/Query/Answers.antt =====
-- query_server.rs: what stands behind an answer that a server is allocated.
use udp_director.Prelude.{
  ℕ, ◌≡◌, ◌⊎◌, inl, inr, String, false, none, some, List, In, string_eq, Bool-cases, arith,
}
use udp_director.Prelude.Maps.{Map, lookup}
use udp_director.Result.{ok}
use udp_director.Net.{SocketAddr}
use udp_director.Config.{Config, ResourceMapping}
use udp_director.Kube.{Resource, pod_draining}
use udp_director.Kube.Select.{ListCall}
use udp_director.Kube.Watch.{WatchStart}
use udp_director.Session.Manager.{Store, upsert_multi_port}
use udp_director.Query.{QueryRequest, success, Access, access_of, Candidate}
use udp_director.Query.Chosen.{
  IsCandidate, candidates_from-IsCandidate, IsCandidate-candidates_from,
}
use udp_director.Query.Given.{IsAnswered, process_access-Given}
use udp_director.Query.Order.{
  HasRoom, IsDraining, ComesFirst, has_room_iff, IsDraining-iff, candidate_leb-ComesFirst,
}
use udp_director.Query.Placed.{IsPlaced, assign-IsPlaced}
use udp_director.Query.Process.{WaitEvent, answered, done, Assignment, process_access}
use udp_director.Query.Snapshots.{
  IsValidAccess, has_invalid-IsValidAccess, is_pod_mapping-parts, IsSnapshot,
  read_snapshot-IsSnapshot, IsMarked, assign-IsMarked,
}
use udp_director.Query.Targets.{Cluster}

-- Of the ready Pods among the resources, the chosen one has room for the character and is not draining,
-- and comes first among those.
pub record IsBest (cluster : Cluster) (config : Config) (now : ℕ) (character : String)
    (ids : List String) (resources : List Resource) (chosen : Candidate) : Type 0 where
  pub candidate : IsCandidate cluster.formats cluster.to_pod config now resources chosen
  pub room : HasRoom config character chosen
  pub open_for_new : ¬ IsDraining chosen.pod
  pub first :
      (c : Candidate)
      → IsCandidate cluster.formats cluster.to_pod config now resources c
      → HasRoom config character c
      → (¬ IsDraining c.pod)
      → ComesFirst character ids chosen c

not-IsDraining : (c : Candidate) → pod_draining c.pod ≡ false → ¬ IsDraining c.pod
not-IsDraining c h is =
    let drains = (IsDraining-iff c.pod).1 is in absurd (ground (arith, h, drains))

IsDraining-not : (c : Candidate) → (¬ IsDraining c.pod) → pod_draining c.pod ≡ false
IsDraining-not c h = elim (Bool-cases (pod_draining c.pod)) [
  | inl drains ↦ absurd (h ((IsDraining-iff c.pod).0 drains))
  | inr stays ↦ stays
]

pub record IsServed (cluster : Cluster) (config : Config) (client : SocketAddr) (clock : ℕ)
    (a : Access) (list : ListCall) (events : List WaitEvent) (server : String)
    (ports : Map String ℕ) (st st' : Store) : Type 0 where
  pub valid : IsValidAccess a
  pub character : String
  pub wanted : a.character ≡ some character
  pub mapping : ResourceMapping
  pub mapped :
      lookup config.default_endpoint.resource_type config.resource_query_mapping ≡ some mapping
  pub core_group : mapping.group ≡ ""
  pub pods : mapping.resource ≡ "pods"
  pub snapshot : ListCall
  pub now : ℕ
  pub asked :
      ((snapshot ≡ list) × (now ≡ cluster.now))
      ⊎ ((start : WatchStart) × In (answered none start snapshot now) events)
  pub resources : List Resource
  pub version : String
  pub listed : IsSnapshot config mapping a.map snapshot resources version
  pub chosen : Candidate
  pub best : IsBest cluster config now character a.ids resources chosen
  pub given : Assignment
  pub placed : IsPlaced cluster config mapping chosen given
  pub marked : IsMarked cluster config character chosen
  pub identity : given.server ≡ server
  pub told : given.public_ports ≡ ports
  pub installed : st' ≡ upsert_multi_port clock client given.ip given.routes st

IsAnswered-IsServed :
    (cluster : Cluster) (config : Config) (client : SocketAddr) (clock : ℕ) (request : QueryRequest)
    (list : ListCall) (events : List WaitEvent) (server : String) (ports : Map String ℕ)
    (st st' : Store)
    → IsAnswered cluster config client clock request list events server ports st st'
    → IsServed cluster config client clock (access_of request) list events server ports st st'
IsAnswered-IsServed cluster config client clock request list events server ports st st' h =
    let (
      good,
      (
        mapping,
        mapped,
        pods,
        (character, wanted, (resources, now, chosen, seen, preferred, given)),
      ),
    ) =
      h in
    let (snapshot, version, read, asked) = seen in
    let (cs, from, best) = preferred in
    let (a, is, identity, told, installed) = given in
    let (core, named) = is_pod_mapping-parts mapping pods in
    record {
      valid = has_invalid-IsValidAccess (access_of request) good;
      character = character;
      wanted = wanted;
      mapping = mapping;
      mapped = mapped;
      core_group = core;
      pods = named;
      snapshot = snapshot;
      now = now;
      asked = asked;
      resources = resources;
      version = version;
      listed =
          read_snapshot-IsSnapshot cluster config mapping client clock (access_of request).map
            snapshot resources version read;
      chosen = chosen;
      best = record {
        candidate =
            candidates_from-IsCandidate cluster.formats cluster.to_pod config now resources cs from
              chosen best.listed;
        room = (has_room_iff config character chosen).0 best.room;
        open_for_new = not-IsDraining chosen best.open_for_new;
        first = λ c is_one room draining.
            candidate_leb-ComesFirst character (access_of request).ids chosen c (
              best.best c
                (IsCandidate-candidates_from cluster.formats cluster.to_pod config now resources cs
                  from c is_one)
                ((has_room_iff config character c).1 room) (IsDraining-not c draining));
      };
      given = a;
      placed = assign-IsPlaced cluster config mapping character chosen a is;
      marked = assign-IsMarked cluster config mapping character chosen a is;
      identity = identity;
      told = told;
      installed = installed;
    }

-- A query is answered with a server only if its map, its character and its friends are valid ids and
-- the server type is mapped to core Pods; then some list that the query read, at first or after an
-- answered demand, was asked for under the configured labels with the map for the map label, and the
-- server is the identity of a ready Pod of it that has room for the character, is not draining and
-- comes first among those: the Pod that shows the character, then the one with more friends, then with
-- fewer characters, then with the lesser identity; its targets and routes are those of the assignment,
-- it shows the character as used or the server accepted the patch that labels it, and the client's
-- session is replaced by one with the routes.
pub process_access-IsServed :
    (cluster : Cluster) (config : Config) (client : SocketAddr) (clock : ℕ) (request : QueryRequest)
    (list : ListCall) (events : List WaitEvent) (st : Store) (text server : String)
    (ports : Map String ℕ)
    → (process_access cluster config client clock request list events st).1
      ≡ done (ok (success text server ports))
    → IsServed cluster config client clock
        (access_of request)
        list
        events
        server
        ports
        st
        (process_access cluster config client clock request list events st).0
process_access-IsServed cluster config client clock request list events st text server ports h =
    IsAnswered-IsServed cluster config client clock request list events server ports st
      (process_access cluster config client clock request list events st).0
      (process_access-Given cluster config client clock request list events st text server ports h)
