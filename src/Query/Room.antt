-- ===== src/Query/Room.antt =====
-- query_server.rs: what the label of an assignment does to the room on the Pod that was chosen.
use Prim.Native.String
use text.Mathlib.TextLemmas.{append_assoc}
use udp_director.Prelude.{
  ℕ, suc, ◌≤◌, ◌≡◌, refl, sym, inl, inr, String, true, none, some, Bool, List, [], string_eq, In,
  arith, length, length-sort_by, In-sort_by→, Option-cases,
}
use udp_director.Prelude.Maps.{insert, HasDistinctKeys}
use udp_director.Result.{ok}
use udp_director.Config.{Config}
use udp_director.Kube.{Pod, LabelPatch, entries, allocate_character}
use udp_director.Characters.{
  Character, allocated, Formats, disconnect_times, characters_on_pod, label_prefix, shown, id_leb,
}
use udp_director.Characters.Ids.{valid_character_id}
use udp_director.Characters.Listing.{characters_on_pod_iff}
use udp_director.Characters.Allocation.{In-insert, length-shown-insert, length-shown-insert_held}
use udp_director.Query.Process.{character_key}

character_key-lem :
    (config : Config) (character : String)
    → character_key config character ≡ String.◌++◌ (label_prefix config) character
unfolding character_key label_prefix
character_key-lem config character = sym (append_assoc config.character_label_prefix "/" character)

-- The patch that the API server accepted, for the version of the Pod that was read.
abbrev pub IsAccepted : (LabelPatch → Bool) → Pod → String → LabelPatch → Type 0
IsAccepted accepts pod key patch =
    (accepts patch ≡ true)
    × (pod.name ≡ some patch.pod)
    × (pod.resource_version ≡ some patch.resource_version)
    × (patch.key ≡ key)
    × (patch.value ≡ "Allocated")

pub allocate_character-IsAccepted :
    (accepts : LabelPatch → Bool) (namespace : String) (pod : Pod) (key : String)
    → allocate_character accepts namespace pod key ≡ ok tt
    → (patch : LabelPatch) × IsAccepted accepts pod key patch
unfolding allocate_character
allocate_character-IsAccepted accepts namespace pod key h = elim (Option-cases pod.name) [
  | inl q ↦ absurd (ground (arith, h, q))
  | inr (name, q) ↦ elim (Option-cases pod.resource_version) [
    | inl v ↦ absurd (ground (arith, h, q, v))
    | inr (version, v) ↦
        let patch : LabelPatch = record {
          namespace = namespace;
          pod = name;
          resource_version = version;
          key = key;
          value = "Allocated";
        } in
        (patch, (ground (arith, h, q, v), q, v, refl, refl))
  ]
]

module _ (formats : Formats) (config : Config) (now : ℕ) where
  abbrev shown_on : Pod → List Character
  shown_on p = shown formats config (disconnect_times formats p config) now [] (entries p.labels)

  pub length-characters_on_pod :
      (p : Pod) → length (characters_on_pod formats p config [] now) ≡ length (shown_on p)
  unfolding characters_on_pod
  length-characters_on_pod p = length-sort_by id_leb (shown_on p)

  pub In-characters_on_pod :
      (p : Pod) (c : Character)
      → In c (characters_on_pod formats p config [] now)
      → In c (shown_on p)
  unfolding characters_on_pod
  In-characters_on_pod p c m = In-sort_by→ id_leb c (shown_on p) m

  module _ (pod labelled : Pod) (character : String)
      (labels : entries labelled.labels
        ≡ insert (character_key config character) "Allocated" (entries pod.labels))
      (annotations : labelled.annotations ≡ pod.annotations) where
    times_same : disconnect_times formats labelled config ≡ disconnect_times formats pod config
    unfolding disconnect_times
    times_same = rw annotations refl

    shown_same :
        shown_on labelled
        ≡ shown formats config
            (disconnect_times formats pod config)
            now
            []
            (insert (character_key config character) "Allocated" (entries pod.labels))
    shown_same = rw (times_same, labels) refl

    pub labelled-one_more : length (shown_on labelled) ≤ suc (length (shown_on pod))
    labelled-one_more = rw shown_same (
        length-shown-insert formats config (disconnect_times formats pod config) [] now
          (character_key config character) "Allocated" (entries pod.labels))

    pub labelled-held :
        (c : Character)
        → HasDistinctKeys (entries pod.labels)
        → In c (shown_on pod)
        → c.character_id ≡ character
        → length (shown_on labelled) ≤ length (shown_on pod)
    labelled-held c distinct m same = rw shown_same (
        length-shown-insert_held formats config (disconnect_times formats pod config) [] now
          (character_key config character) "Allocated" (entries pod.labels) c distinct m
          (rw same (character_key-lem config character)))

    -- The character is shown, as allocated.
    abbrev newcomer : Character
    newcomer = record { character_id = character; status = allocated; disconnected_at = none }

    pub labelled-shows :
        valid_character_id character ≡ true
        → In newcomer (characters_on_pod formats labelled config [] now)
    labelled-shows valid = (characters_on_pod_iff formats labelled config [] now newcomer).1 (
      (character_key config character, "Allocated"),
      rw labels (In-insert (character_key config character) "Allocated" (entries pod.labels)),
      record {
        key = character_key-lem config character;
        value = refl;
        valid = valid;
        wanted = refl;
        time = refl;
      },
    )
