-- ===== src/Characters/Tests.antt =====
-- characters.rs: the characters of a sample Pod.
use udp_director.Prelude.{◌≡◌, ◌↔◌, true, In, none, []}
use udp_director.Text.{as_bytes}
use udp_director.Kube.{entries}
use udp_director.Characters.{Character, used, disconnect_times, characters_on_pod}
use udp_director.Characters.Ids.{valid_character_id, IsLabelName, valid_character_id_iff}
use udp_director.Characters.Listing.{ShownIn, characters_on_pod_iff}
use udp_director.Samples.{formats, game_pod, config, second}

valid_character_id_iff_example :
    (valid_character_id "hero-1" ≡ true) ↔ IsLabelName (as_bytes "hero-1")
valid_character_id_iff_example = valid_character_id_iff "hero-1"

abbrev hero : Character
hero = record { character_id = "hero"; status = used; disconnected_at = none }

characters_on_pod_iff_example :
    In hero (characters_on_pod formats game_pod config [] second)
    ↔ ShownIn formats config
        (disconnect_times formats game_pod config)
        []
        second
        hero
        (entries game_pod.labels)
characters_on_pod_iff_example = characters_on_pod_iff formats game_pod config [] second hero
