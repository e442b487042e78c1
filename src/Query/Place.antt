-- ===== src/Query/Place.antt =====
-- query_server.rs: the place that an assignment gives a character on the Pod that was chosen.
use udp_director.Prelude.{
  ℕ, ◌≤◌, ◌<◌, ◌≡◌, ap, ◌∙◌, ◌⊎◌, inl, inr, String, true, Option, none, Bool, List, [], ◌∷◌, ◌==◌,
  string_eq, eq_iff, In, any-In, arith, length, Bool-cases,
}
use udp_director.Prelude.Maps.{insert, HasDistinctKeys}
use udp_director.Result.{ok}
use udp_director.Config.{Config}
use udp_director.Kube.{Resource, Pod, LabelPatch, entries, allocate_character}
use udp_director.Characters.{Character, allocated, Formats, characters_on_pod}
use udp_director.Characters.Ids.{valid_character_id}
use udp_director.Query.{Candidate, candidates_from, eligible, has_room, holds_character}
use udp_director.Query.Chosen.{candidates_from-IsCandidate}
use udp_director.Query.Process.{character_key}
use udp_director.Query.Rank.{eligible-IsPreferred}
use udp_director.Query.Room.{
  IsAccepted, allocate_character-IsAccepted, length-characters_on_pod, In-characters_on_pod,
  labelled-one_more, labelled-held, labelled-shows,
}

-- What the API server makes of a Pod by a merge patch of one label.
pub record IsMergePatch (apply : LabelPatch → Pod → Pod) : Type 0 where
  pub sets :
      (patch : LabelPatch) (pod : Pod)
      → entries (apply patch pod).labels ≡ insert patch.key patch.value (entries pod.labels)
  pub keeps : (patch : LabelPatch) (pod : Pod) → (apply patch pod).annotations ≡ pod.annotations

module _ (formats : Formats) (config : Config) (now : ℕ) (character : String) where
  -- The Pod after the patch shows the character as allocated, and no more characters than the maximum
  -- or than it showed before.
  abbrev pub HasPlace : Pod → Pod → Type 0
  HasPlace pod labelled =
      In (record { character_id = character; status = allocated; disconnected_at = none })
        (characters_on_pod formats labelled config [] now)
      × ((length (characters_on_pod formats labelled config [] now)
            ≤ length (characters_on_pod formats pod config [] now))
          ⊎ (length (characters_on_pod formats labelled config [] now)
              ≤ config.max_characters_per_server))

  labelled-HasPlace :
      (chosen : Candidate) (labelled : Pod)
      → valid_character_id character ≡ true
      → HasDistinctKeys (entries chosen.pod.labels)
      → entries labelled.labels
        ≡ insert (character_key config character) "Allocated" (entries chosen.pod.labels)
      → labelled.annotations ≡ chosen.pod.annotations
      → chosen.characters ≡ characters_on_pod formats chosen.pod config [] now
      → has_room config character chosen ≡ true
      → HasPlace chosen.pod labelled
  unfolding has_room holds_character
  labelled-HasPlace chosen labelled valid distinct labels annotations shows room =
      let here = length-characters_on_pod formats config now chosen.pod in
      let there = length-characters_on_pod formats config now labelled in
      (
        labelled-shows formats config now chosen.pod labelled character labels annotations valid,
        elim (Bool-cases (holds_character character chosen)) [
          | inl held ↦
              let (c, m, same) =
                any-In (λ (h : Character). h.character_id == character) chosen.characters held in
              let fits =
                labelled-held formats config now chosen.pod labelled character labels annotations c
                  distinct (In-characters_on_pod formats config now chosen.pod c (rw shows at m))
                  ((eq_iff c.character_id character).0 same) in
              inl (rw (there, here) fits)
          | inr new ↦
              let one =
                labelled-one_more formats config now chosen.pod labelled character labels
                  annotations in
              let space : length chosen.characters < config.max_characters_per_server =
                ground (arith, room, new) in
              let same = ap length shows ∙ here in inr (rw there (omega arith))
        ],
      )

-- Where the API server merges a patch as it is documented to, each label key stands once and the id is
-- valid: the label that an assignment sets on the chosen Pod is asked of the server for the Pod and
-- the version that were read, and the Pod then shows the character as allocated, and no more
-- characters than the maximum or than it showed before.
pub allocate_character-HasPlace :
    (formats : Formats) (to_pod : Resource → Option Pod) (config : Config) (now : ℕ)
    (accepts : LabelPatch → Bool) (apply : LabelPatch → Pod → Pod) (namespace character : String)
    (ids : List String) (rs : List Resource) (cs : List Candidate) (chosen : Candidate)
    (rest : List Candidate)
    → IsMergePatch apply
    → HasDistinctKeys (entries chosen.pod.labels)
    → valid_character_id character ≡ true
    → candidates_from formats to_pod config now rs ≡ ok cs
    → eligible config character ids cs ≡ chosen ∷ rest
    → allocate_character accepts namespace chosen.pod (character_key config character) ≡ ok tt
    → (patch : LabelPatch) × IsAccepted accepts chosen.pod (character_key config character) patch
      × HasPlace formats config now character chosen.pod (apply patch chosen.pod)
allocate_character-HasPlace formats to_pod config now accepts apply namespace character ids rs cs
      chosen rest merge distinct valid listed first given =
    let preferred = eligible-IsPreferred character ids config cs chosen rest first in
    let candidate =
      candidates_from-IsCandidate formats to_pod config now rs cs listed chosen preferred.listed in
    let (patch, accepted) =
      allocate_character-IsAccepted accepts namespace chosen.pod (character_key config character)
        given in
    let (_, _, _, key, value) = accepted in
    (
      patch,
      accepted,
      labelled-HasPlace formats config now character chosen (apply patch chosen.pod) valid distinct
          (rw (← key, ← value) (merge.sets patch chosen.pod)) (merge.keeps patch chosen.pod)
          candidate.shown preferred.room,
    )
