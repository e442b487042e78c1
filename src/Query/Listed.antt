-- ===== src/Query/Listed.antt =====
-- query_server.rs: what a query for the characters of a map is answered.
use udp_director.Prelude.{
  ℕ, String, ◌≡◌, ◌≢◌, refl, sym, ap, ◌⊎◌, ◌↔◌, inl, inr, true, false, Option, none, some, List, [],
  ◌∷◌, arith, In, IsSorted, IsOrder, sort_by, sort_by-IsSorted, In-sort_by→, In-sort_by←,
  Bool-cases, Option-cases, string_eq,
}
use udp_director.Prelude.Maps.{lookup}
use udp_director.Text.Laws.{str_leb-IsOrder}
use udp_director.Result.{Result, Result-cases, ok, err, panic}
use udp_director.Net.{SocketAddr}
use udp_director.Config.{Config, ResourceMapping, is_pod_mapping}
use udp_director.Kube.{Resource}
use udp_director.Kube.Select.{ListCall}
use udp_director.Characters.{Character, CharacterServer}
use udp_director.Session.Manager.{Store}
use udp_director.Query.{
  character_list, servers, Access, access_of, has_invalid, Candidate, candidates_from, sought,
  add_server, servers_of, server_leb, list_servers,
}
use udp_director.Query.Safety.{done_inj}
use udp_director.Query.Targets.{Cluster}
use udp_director.Query.Process.{
  WaitEvent, done, process_access, with_snapshot, list_at, read_snapshot,
}

-- A candidate has an identity and shows characters that are sought.
abbrev pub Shows : List String → Candidate → CharacterServer → Type 0
Shows ids c s =
    (c.pod.uid ≡ some s.server) × (s.characters ≡ sought ids c.characters) × (s.characters ≢ [])

abbrev pub ShownBy : List String → List Candidate → CharacterServer → Type 0
ShownBy ids cs s = (c : Candidate) × In c cs × Shows ids c s

add_server-In :
    (uid : Option String) (characters : List Character) (rest found : List CharacterServer)
    (s : CharacterServer)
    → add_server uid characters rest ≡ ok found
    → In s found
      ↔ (In s rest ⊎ ((uid ≡ some s.server) × (s.characters ≡ characters) × (s.characters ≢ [])))
add_server-In uid [] rest found s h =
    let same : rest ≡ found = cc in
    rw (← same)
      ((λ m. inl m), λ m. elim m [ inl m ↦ m | inr (_, is, some_of) ↦ absurd (some_of is) ])
add_server-In none (c ∷ cs) rest found s h = absurd cc
add_server-In (some server) (c ∷ cs) rest found s h =
    let same : record { server = server; characters = c ∷ cs } ∷ rest ≡ found = cc in
    rw (← same) (
      (λ m. elim m [
        | inl e ↦ inr (
          ap (λ (x : CharacterServer). some x.server) e,
          sym (ap (λ (x : CharacterServer). x.characters) e),
          λ q. absurd (ground (arith, ap (λ (x : CharacterServer). x.characters) e, q)),
        )
        | inr m ↦ inl m
      ]),
      λ m. elim m [ inl m ↦ inr m | inr (uid, is, _) ↦ inl (ground (arith, uid, is)) ],
    )

servers_of-In :
    (ids : List String) (cs : List Candidate) (found : List CharacterServer)
    → servers_of ids cs ≡ ok found
    → (s : CharacterServer) → In s found ↔ ShownBy ids cs s
unfolding servers_of
servers_of-In ids [] found h s =
    let same : [] ≡ found = cc in rw (← same) ((λ m. absurd m), λ m. absurd m.1)
servers_of-In ids (c ∷ cs) found h s = elim (Result-cases (servers_of ids cs)) [
  | inr (inl (e, q)) ↦ absurd (ground (arith, h, q))
  | inr (inr q) ↦ absurd (ground (arith, h, q))
  | inl (rest, q) ↦
      let here = add_server-In c.pod.uid (sought ids c.characters) rest found s (rw q at h) in
      let there = servers_of-In ids cs rest q s in
      (
        (λ m. elim (here.0 m) [
          | inl before ↦ let (d, at, shows) = there.0 before in (d, inr at, shows)
          | inr shows ↦ (c, inl refl, shows)
        ]),
        λ m.
            let (d, at, shows) = m in
            here.1 (elim at [
              | inl is ↦ inr (rw is shows)
              | inr later ↦ inl (there.1 (d, later, shows))
            ]),
      )
]

server_leb-IsOrder : IsOrder server_leb
server_leb-IsOrder = record {
  total = λ a b h. str_leb-IsOrder.total a.server b.server h;
  trans = λ a b c h k. str_leb-IsOrder.trans a.server b.server c.server h k;
}

-- The servers are in the order of their identities, and are those that a candidate shows.
abbrev pub IsListing : List String → List Candidate → List CharacterServer → Type 0
IsListing ids cs ss = IsSorted server_leb ss × ((s : CharacterServer) → In s ss ↔ ShownBy ids cs s)

list_servers-IsListing :
    (ids : List String) (cs : List Candidate) (ss : List CharacterServer)
    → list_servers ids cs ≡ ok (servers ss)
    → IsListing ids cs ss
unfolding list_servers
list_servers-IsListing ids cs ss h = elim (Result-cases (servers_of ids cs)) [
  | inr (inl (e, q)) ↦ absurd (ground (arith, h, q))
  | inr (inr q) ↦ absurd (ground (arith, h, q))
  | inl (found, q) ↦
      let is : sort_by server_leb found ≡ ss = ground (arith, h, q) in
      rw (← is) (
        sort_by-IsSorted server_leb server_leb-IsOrder found,
        λ s. (
          λ m. (servers_of-In ids cs found q s).0 (In-sort_by→ server_leb s found m),
          λ shown. In-sort_by← server_leb s found ((servers_of-In ids cs found q s).1 shown),
        ),
      )
]

module _ (cluster : Cluster) (config : Config) (client : SocketAddr) (clock : ℕ) where
  -- The snapshot that the query read under the map's label gives the candidates that are listed.
  abbrev pub IsListedFrom : ResourceMapping → Access → ListCall → List CharacterServer → Type 0
  IsListedFrom mapping a list ss =
      (resources : List Resource) × ((version : String) × ((candidates : List Candidate)
          × (read_snapshot cluster config mapping client clock a.map list ≡ ok (resources, version))
          × (candidates_from cluster.formats cluster.to_pod config cluster.now resources
              ≡ ok candidates)
          × IsListing a.ids candidates ss))

  list_at-IsListing :
      (mapping : ResourceMapping) (ids : List String) (resources : List Resource)
      (ss : List CharacterServer)
      → list_at cluster config mapping client clock ids resources ≡ ok (servers ss)
      → (candidates : List Candidate) × (candidates_from cluster.formats cluster.to_pod config
            cluster.now resources
          ≡ ok candidates)
        × IsListing ids candidates ss
  list_at-IsListing mapping ids resources ss h =
      elim (Result-cases
        (candidates_from cluster.formats cluster.to_pod config cluster.now resources)) [
          | inr (inl (e, q)) ↦ absurd (ground (arith, h, q))
          | inr (inr q) ↦ absurd (ground (arith, h, q))
          | inl (candidates, q) ↦
              (candidates, q, list_servers-IsListing ids candidates ss (rw q at h))
        ]

  with_snapshot-IsListed :
      (mapping : ResourceMapping) (a : Access) (list : ListCall) (events : List WaitEvent)
      (st : Store) (ss : List CharacterServer) (snapshot : Result (List Resource × String))
      → read_snapshot cluster config mapping client clock a.map list ≡ snapshot
      → (with_snapshot cluster config mapping client clock a none snapshot events st).1
        ≡ done (ok (servers ss))
      → IsListedFrom mapping a list ss
  with_snapshot-IsListed mapping a list events st ss (err e) q h = absurd cc
  with_snapshot-IsListed mapping a list events st ss panic q h = absurd cc
  with_snapshot-IsListed mapping a list events st ss (ok (resources, version)) q h =
      let (candidates, from, listing) = list_at-IsListing mapping a.ids resources ss (
        done_inj (list_at cluster config mapping client clock a.ids resources) (ok (servers ss))
          h) in
      (resources, (version, (candidates, q, from, listing)))

pub process_access-listing :
    (cluster : Cluster) (config : Config) (client : SocketAddr) (clock : ℕ) (map : String)
    (ids : List String) (list : ListCall) (events : List WaitEvent) (st : Store)
    (ss : List CharacterServer)
    → (process_access cluster config client clock (character_list map ids) list events st).1
      ≡ done (ok (servers ss))
    → (let a = access_of (character_list map ids) in
        (has_invalid a ≡ false)
        × ((mapping : ResourceMapping) × (lookup config.default_endpoint.resource_type
                config.resource_query_mapping
              ≡ some mapping)
            × (is_pod_mapping mapping ≡ true)
            × IsListedFrom cluster config client clock mapping a list ss))
unfolding process_access access_of
process_access-listing cluster config client clock map ids list events st ss h =
    let a = access_of (character_list map ids) in
    elim (Bool-cases (has_invalid a)) [
      | inl bad ↦ absurd (ground (arith, h, bad))
      | inr good ↦
          elim (Option-cases
            (lookup config.default_endpoint.resource_type config.resource_query_mapping)) [
              | inl q ↦ absurd (ground (arith, h, good, q))
              | inr (mapping, q) ↦ elim (Bool-cases (is_pod_mapping mapping)) [
                | inr others ↦ absurd (ground (arith, h, good, q, others))
                | inl pods ↦ (
                  good,
                  (
                    mapping,
                    q,
                    pods,
                    with_snapshot-IsListed cluster config client clock mapping a list events st ss
                        (read_snapshot cluster config mapping client clock a.map list) refl
                        (rw (process_access, good, q, pods) at h),
                  ),
                )
              ]
            ]
    ]
