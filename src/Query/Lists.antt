-- ===== src/Query/Lists.antt =====
-- query_server.rs: which servers and characters a query for a map is answered with.
use udp_director.Prelude.{
  ℕ, String, ◌≡◌, ◌≢◌, refl, ◌⊎◌, ◌↔◌, inl, inr, true, some, List, [], ◌∷◌, arith, In, any-In,
  In-any, ◌==◌, eq_iff, IsSorted, Bool-cases, string_eq, ◌||◌, ap, ◌∙◌, retain,
}
use udp_director.Prelude.Maps.{lookup}
use mathlib.Core.Path.{subst}
use udp_director.Result.{ok}
use udp_director.Net.{SocketAddr}
use udp_director.Config.{Config, ResourceMapping, is_nil}
use udp_director.Kube.{Resource}
use udp_director.Kube.Select.{ListCall}
use udp_director.Characters.{Character, CharacterServer}
use udp_director.Session.Manager.{Store}
use udp_director.Query.{
  character_list, servers, Access, access_of, Candidate, sought, is_one_of, server_leb,
}
use udp_director.Query.Chosen.{
  IsCandidate, candidates_from-IsCandidate, IsCandidate-candidates_from,
}
use udp_director.Query.Listed.{process_access-listing}
use udp_director.Query.Process.{WaitEvent, done, process_access}
use udp_director.Query.Snapshots.{
  IsValidAccess, has_invalid-IsValidAccess, is_pod_mapping-parts, IsSnapshot,
  read_snapshot-IsSnapshot,
}
use udp_director.Query.Targets.{Cluster}

-- The character is asked for: its id is one of those given, or none is given.
abbrev pub IsWanted : List String → Character → Type 0
IsWanted ids c = (ids ≡ []) ⊎ In c.character_id ids

-- Those of the characters that are asked for, in their order.
abbrev pub AreWanted : List String → List Character → List Character → Type 0
AreWanted ids [] kept = kept ≡ []
AreWanted ids (c ∷ cs) kept =
    (IsWanted ids c × ((rest : List Character) × (kept ≡ c ∷ rest) × AreWanted ids cs rest))
    ⊎ ((¬ IsWanted ids c) × AreWanted ids cs kept)

IsWanted-iff :
    (ids : List String) (c : Character)
    → ((is_nil ids || is_one_of ids c.character_id) ≡ true) ↔ IsWanted ids c
IsWanted-iff [] c = (λ _. inl refl, λ _. refl)
IsWanted-iff (i ∷ ids) c = (
  λ h.
      let (found, m, same) = any-In (λ (j : String). j == c.character_id) (i ∷ ids) h in
      inr (subst (λ x. In x (i ∷ ids)) ((eq_iff found c.character_id).0 same) m),
  λ w. elim w [
    | inl none_given ↦ absurd (ground (arith, none_given))
    | inr m ↦
        In-any (λ (j : String). j == c.character_id) c.character_id (i ∷ ids) m
          ((eq_iff c.character_id c.character_id).1 refl)
  ],
)

sought-AreWanted : (ids : List String) (cs : List Character) → AreWanted ids cs (sought ids cs)
unfolding retain
sought-AreWanted ids [] = refl
sought-AreWanted ids (c ∷ cs) = elim (Bool-cases (is_nil ids || is_one_of ids c.character_id)) [
  | inl w ↦ rw w (inl ((IsWanted-iff ids c).0 w, (sought ids cs, refl, sought-AreWanted ids cs)))
  | inr n ↦
      rw n
        (inr ((λ w. absurd (ground (arith, n, (IsWanted-iff ids c).1 w))), sought-AreWanted ids cs))
]

AreWanted-sought :
    (ids : List String) (cs kept : List Character) → AreWanted ids cs kept → kept ≡ sought ids cs
unfolding retain
AreWanted-sought ids [] kept h = h
AreWanted-sought ids (c ∷ cs) kept (inl (w, (rest, is, later))) =
    let keeps = (IsWanted-iff ids c).1 w in
    rw keeps (is ∙ ap (λ r. c ∷ r) (AreWanted-sought ids cs rest later))
AreWanted-sought ids (c ∷ cs) kept (inr (n, later)) =
    elim (Bool-cases (is_nil ids || is_one_of ids c.character_id)) [
      | inl w ↦ absurd (n ((IsWanted-iff ids c).0 w))
      | inr drops ↦ rw drops (AreWanted-sought ids cs kept later)
    ]

-- A ready Pod of the resources has this identity, and shows these characters of those asked for.
abbrev pub IsShownBy : Cluster → Config → List String → List Resource → CharacterServer → Type 0
IsShownBy cluster config ids resources s =
    (c : Candidate) × IsCandidate cluster.formats cluster.to_pod config cluster.now resources c
    × (c.pod.uid ≡ some s.server)
    × AreWanted ids c.characters s.characters
    × (s.characters ≢ [])

pub record IsListed (cluster : Cluster) (config : Config) (a : Access) (list : ListCall)
    (ss : List CharacterServer) : Type 0 where
  pub valid : IsValidAccess a
  pub mapping : ResourceMapping
  pub mapped :
      lookup config.default_endpoint.resource_type config.resource_query_mapping ≡ some mapping
  pub core_group : mapping.group ≡ ""
  pub pods : mapping.resource ≡ "pods"
  pub resources : List Resource
  pub version : String
  pub listed : IsSnapshot config mapping a.map list resources version
  pub ordered : IsSorted server_leb ss
  pub exactly : (s : CharacterServer) → In s ss ↔ IsShownBy cluster config a.ids resources s

-- A query for the characters of a map that is answered with servers has valid ids, and the server type
-- is mapped to core Pods; the servers are in the order of their identities, and are exactly those of
-- the ready Pods listed under the map's label that show characters that are asked for, each with just
-- these in their order; where no ids are given, all are asked for.
pub process_access-IsListed :
    (cluster : Cluster) (config : Config) (client : SocketAddr) (clock : ℕ) (map : String)
    (ids : List String) (list : ListCall) (events : List WaitEvent) (st : Store)
    (ss : List CharacterServer)
    → (process_access cluster config client clock (character_list map ids) list events st).1
      ≡ done (ok (servers ss))
    → IsListed cluster config (access_of (character_list map ids)) list ss
unfolding access_of
process_access-IsListed cluster config client clock map ids list events st ss h =
    let (
      good,
      (mapping, mapped, pods, (resources, (version, (cs, read, from, (ordered, exactly))))),
    ) =
      process_access-listing cluster config client clock map ids list events st ss h in
    let a = access_of (character_list map ids) in
    let (core, named) = is_pod_mapping-parts mapping pods in
    record {
      valid = has_invalid-IsValidAccess a good;
      mapping = mapping;
      mapped = mapped;
      core_group = core;
      pods = named;
      resources = resources;
      version = version;
      listed =
          read_snapshot-IsSnapshot cluster config mapping client clock map list resources version
            read;
      ordered = ordered;
      exactly = λ s. (
        λ m.
            let (c, at, (uid, is, some_of)) = (exactly s).0 m in
            (
              c,
              candidates_from-IsCandidate cluster.formats cluster.to_pod config cluster.now
                  resources cs from c at,
              uid,
              rw is (sought-AreWanted ids c.characters),
              some_of,
            ),
        λ (c, is_one, uid, wanted, some_of). (exactly s).1 (
          c,
          IsCandidate-candidates_from cluster.formats cluster.to_pod config cluster.now resources cs
              from c is_one,
          (uid, AreWanted-sought ids c.characters s.characters wanted, some_of),
        ),
      );
    }
