-- ===== src/Query/Tests/Places.antt =====
-- query_server.rs: a place for a newcomer on the sample Pod.
use udp_director.Prelude.{
  ◌≡◌, refl, [], ◌∷◌, any, all, sort_by, retain, string_eq, arith, some, none,
}
use udp_director.Prelude.Maps.{lookup, insert}
use udp_director.Result.{ok}
use udp_director.Text.{as_bytes, strip_prefix, str_leb, cut}
use udp_director.Config.{Config}
use udp_director.Characters.{allocated, used}
use udp_director.Kube.{pod_ready, pod_draining}
use udp_director.Characters.{characters_on_pod, character_of, label_prefix, status_of}
use udp_director.Characters.Ids.{valid_character_id}
use udp_director.Query.{candidates_from, eligible, has_room, holds_character, Candidate}
use udp_director.Samples.{pod_one, game_pod, formats, cluster, config, second}
use udp_director.Prelude.Maps.{HasDistinctKeys}
use udp_director.Kube.{Pod, LabelPatch, entries, allocate_character}
use udp_director.Query.Place.{IsMergePatch, HasPlace, allocate_character-HasPlace}
use udp_director.Query.Room.{IsAccepted}
use udp_director.Query.Process.{character_key}

abbrev roomier : Config
roomier = record config { max_characters_per_server = 3 }

abbrev merged : LabelPatch → Pod → Pod
merged patch pod = record pod { labels = some (insert patch.key patch.value (entries pod.labels)) }

abbrev sample : Candidate
sample = record {
  resource = pod_one;
  pod = game_pod;
  characters =
      record { character_id = "bard"; status = allocated; disconnected_at = none }
      ∷ record { character_id = "hero"; status = used; disconnected_at = none }
      ∷ [];
}

merged-IsMergePatch : IsMergePatch merged
merged-IsMergePatch = record { sets = λ patch pod. refl; keeps = λ patch pod. refl }

game_pod-HasDistinctKeys : HasDistinctKeys (entries game_pod.labels)
game_pod-HasDistinctKeys = ground arith

sample_listed :
    candidates_from formats cluster.to_pod roomier second (pod_one ∷ []) ≡ ok (sample ∷ [])
unfolding candidates_from pod_ready any characters_on_pod sort_by character_of strip_prefix
    label_prefix status_of valid_character_id as_bytes all lookup str_leb cut
sample_listed = refl

sample_first : eligible roomier "monk" [] (sample ∷ []) ≡ sample ∷ []
unfolding eligible retain has_room holds_character any sort_by pod_draining lookup
sample_first = refl

sample_given :
    allocate_character cluster.accepts "games" game_pod (character_key roomier "monk") ≡ ok tt
unfolding allocate_character pod_draining lookup
sample_given = refl

allocate_character-HasPlace_example :
    (patch : LabelPatch) × IsAccepted cluster.accepts game_pod (character_key roomier "monk") patch
    × HasPlace formats roomier second "monk" game_pod (merged patch game_pod)
unfolding valid_character_id as_bytes all
allocate_character-HasPlace_example =
    allocate_character-HasPlace formats cluster.to_pod roomier second cluster.accepts merged "games"
      "monk" [] (pod_one ∷ []) (sample ∷ []) sample [] merged-IsMergePatch game_pod-HasDistinctKeys
      refl sample_listed sample_first sample_given
