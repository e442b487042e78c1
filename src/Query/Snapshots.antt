-- ===== src/Query/Snapshots.antt =====
-- query_server.rs: what a query checks and asks the API server for, and the label of an assignment.
use Prim.Native.String
use udp_director.Prelude.{
  ◌≡◌, refl, ◌⊎◌, inl, inr, String, true, false, Option, none, some, List, arith, In, In-any,
  any-In, any, ◌==◌, string_eq, eq_iff, Bool-cases, ℕ, not,
}
use udp_director.Prelude.Maps.{Map, lookup, lookup-insert, insert}
use udp_director.Result.{Result-cases, ok}
use udp_director.Text.{is_empty}
use udp_director.Net.{SocketAddr}
use udp_director.Config.{Config, ResourceMapping, is_pod_mapping}
use udp_director.Kube.{Resource, LabelPatch, entries}
use udp_director.Kube.Select.{ListCall, status_query_of, query_resources_snapshot}
use udp_director.Characters.{Character, CharacterStatus, used, allocated, disconnected}
use udp_director.Characters.Ids.{valid_character_id}
use udp_director.Query.{Access, has_invalid, is_invalid, Candidate}
use udp_director.Query.Targets.{Cluster}
use udp_director.Query.Process.{
  Assignment, assign, allocate_unless_used, is_used_by, is_used, character_key, read_snapshot,
}
use udp_director.Query.Room.{IsAccepted, allocate_character-IsAccepted}

abbrev pub HasValid : Option String → Type 0
HasValid none = Unit
HasValid (some id) = valid_character_id id ≡ true

-- The map, every id of the list and the character that is asked for are valid ids.
abbrev pub IsValidAccess : Access → Type 0
IsValidAccess a =
    (valid_character_id a.map ≡ true)
    × ((id : String) → In id a.ids → valid_character_id id ≡ true)
    × HasValid a.character

is_invalid-HasValid : (wanted : Option String) → is_invalid wanted ≡ false → HasValid wanted
is_invalid-HasValid none h = tt
is_invalid-HasValid (some id) h = ground (arith, h)

pub has_invalid-IsValidAccess : (a : Access) → has_invalid a ≡ false → IsValidAccess a
unfolding has_invalid
has_invalid-IsValidAccess a h = (
  ground (arith, h),
  (λ id m. elim (Bool-cases (valid_character_id id)) [
    | inl valid ↦ valid
    | inr bad ↦
        let found = In-any (λ i. not (valid_character_id i)) id a.ids m (ground (arith, bad)) in
        absurd (ground (arith, h, found))
  ]),
  is_invalid-HasValid a.character (ground (arith, h)),
)

is_empty-eq : (s : String) → is_empty s ≡ true → s ≡ ""
is_empty-eq String.[] h = refl
is_empty-eq (String.◌∷◌ c s) h = absurd cc

pub is_pod_mapping-parts :
    (m : ResourceMapping) → is_pod_mapping m ≡ true → (m.group ≡ "") × (m.resource ≡ "pods")
is_pod_mapping-parts m h =
    (is_empty-eq m.group (ground (arith, h)), (eq_iff m.resource "pods").0 (ground (arith, h)))

-- The resources were listed under the configured labels with the map's name for its label.
abbrev pub IsSnapshot :
    Config → ResourceMapping → String → ListCall → List Resource → String → Type 0
IsSnapshot config mapping map list resources version =
    (labels : Map String String) × (lookup config.map_label labels ≡ some map)
    × ((key : String)
        → (config.map_label == key) ≡ false
        → lookup key labels ≡ lookup key (entries config.default_endpoint.label_selector))
    × (query_resources_snapshot list config.default_endpoint.namespace mapping
          (status_query_of config.default_endpoint.status_query) (some labels)
          config.default_endpoint.annotation_selector
        ≡ ok (resources, version))

pub read_snapshot-IsSnapshot :
    (cluster : Cluster) (config : Config) (mapping : ResourceMapping) (client : SocketAddr)
    (clock : ℕ) (map : String) (list : ListCall) (resources : List Resource) (version : String)
    → read_snapshot cluster config mapping client clock map list ≡ ok (resources, version)
    → IsSnapshot config mapping map list resources version
unfolding read_snapshot
read_snapshot-IsSnapshot cluster config mapping client clock map list resources version h =
    let given = entries config.default_endpoint.label_selector in
    (
      insert config.map_label map given,
      rw
          (
            lookup-insert config.map_label config.map_label map given,
            (eq_iff config.map_label config.map_label).1 refl,
          )
          refl,
      (λ key other. rw (lookup-insert config.map_label key map given, other) refl),
      h,
    )

-- The Pod shows the character as used, or the server accepted the patch that labels it.
abbrev pub IsMarked : Cluster → Config → String → Candidate → Type 0
IsMarked cluster config character chosen =
    ((c : Character) × In c chosen.characters × (c.character_id ≡ character) × (c.status ≡ used))
    ⊎ ((patch : LabelPatch) × IsAccepted cluster.accepts chosen.pod
          (String.◌++◌ config.character_label_prefix (String.◌++◌ "/" character)) patch)

used_of : (s : CharacterStatus) → is_used s ≡ true → s ≡ used
used_of used h = refl
used_of allocated h = absurd cc
used_of disconnected h = absurd cc

is_used_by-status :
    (character : String) (c : Character)
    → is_used_by character c ≡ true
    → (c.character_id ≡ character) × (c.status ≡ used)
is_used_by-status character c h =
    ((eq_iff c.character_id character).0 (ground (arith, h)), used_of c.status (ground (arith, h)))

allocate_unless_used-IsMarked :
    (cluster : Cluster) (config : Config) (chosen : Candidate) (character : String)
    → allocate_unless_used cluster config chosen character ≡ ok tt
    → IsMarked cluster config character chosen
unfolding allocate_unless_used character_key
allocate_unless_used-IsMarked cluster config chosen character h =
    elim (Bool-cases (any (is_used_by character) chosen.characters)) [
      | inl plays ↦
          let (c, m, is) = any-In (is_used_by character) chosen.characters plays in
          let (same, status) = is_used_by-status character c is in inl (c, m, same, status)
      | inr not_yet ↦ inr (
          allocate_character-IsAccepted cluster.accepts config.default_endpoint.namespace chosen.pod
            (character_key config character) (rw not_yet at h))
    ]

pub assign-IsMarked :
    (cluster : Cluster) (config : Config) (mapping : ResourceMapping) (character : String)
    (chosen : Candidate) (given : Assignment)
    → assign cluster config mapping character chosen ≡ ok given
    → IsMarked cluster config character chosen
unfolding assign
assign-IsMarked cluster config mapping character chosen given h =
    elim (Result-cases (allocate_unless_used cluster config chosen character)) [
      | inl (tt, q) ↦ allocate_unless_used-IsMarked cluster config chosen character q
      | inr (inl (e, q)) ↦ absurd (ground (arith, h, q))
      | inr (inr q) ↦ absurd (ground (arith, h, q))
    ]
