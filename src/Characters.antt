-- ===== src/Characters.antt =====
-- characters.rs: the characters that the labels of a Pod show.
pub mod Ids
pub mod Listing
pub mod Shown
pub mod Allocation
pub mod Tests
use Prim.Native.String
use udp_director.Prelude.{
  ℕ, ◌+◌, ◌*◌, ◌^◌, String, Bool, true, false, not, ◌&&◌, ◌||◌, Option, none, some, List, [], ◌∷◌,
  ltb, leb, ◌==◌, string_eq, if◌then◌else◌, any, sort_by, is_some,
}
use udp_director.Prelude.Maps.{Map, lookup}
use udp_director.Text.{strip_prefix, str_leb}
use udp_director.Config.{Config, is_nil}
use udp_director.Kube.{Pod, entries}
use udp_director.Characters.Ids.{valid_character_id}

-- Instants are nanoseconds since the earliest date of the `time` crate.
abbrev pub nanos_per_second : ℕ
nanos_per_second = 10 ^ 9

abbrev pub reconnect_seconds : ℕ
reconnect_seconds = 120

pub data CharacterStatus : Type 0 where
  allocated used disconnected : CharacterStatus

pub record Character : Type 0 where
  pub character_id : String
  pub status : CharacterStatus
  pub disconnected_at : Option String

pub record CharacterServer : Type 0 where
  pub server : String
  pub characters : List Character

-- The parsers that the code takes from other crates: a JSON object of texts, and an RFC 3339 date.
pub record Formats : Type 0 where
  pub parse_map : String → Option (Map String String)
  pub parse_time : String → Option ℕ

unfoldable pub status_of : String → Option CharacterStatus
status_of text =
    if text == "Allocated"
    then some allocated
    else if text == "Used"
    then some used
    else if text == "Disconnected"
    then some disconnected
    else none

unfoldable pub label_prefix : Config → String
label_prefix config = String.◌++◌ config.character_label_prefix "/"

-- The id is valid, and is asked for where ids are given.
abbrev pub is_wanted : List String → String → Bool
is_wanted requested id = valid_character_id id && (is_nil requested || any (λ r. r == id) requested)

-- Reconnection is open from the time of the disconnect for 120 seconds.
abbrev pub reconnect_open : ℕ → Option ℕ → Bool
reconnect_open now none = false
reconnect_open now (some at) = leb at now && ltb now (at + reconnect_seconds * nanos_per_second)

abbrev pub push : Option Character → List Character → List Character
push none cs = cs
push (some c) cs = c ∷ cs

abbrev pub id_leb : Character → Character → Bool
id_leb a b = str_leb a.character_id b.character_id

module _ (formats : Formats) where
  open formats use {parse_map, parse_time}

  abbrev pub parsed_or_empty : Option String → Map String String
  parsed_or_empty none = []
  parsed_or_empty (some text) = entries (parse_map text)

  unfoldable pub disconnect_times : Pod → Config → Map String String
  disconnect_times pod config =
      parsed_or_empty (lookup config.disconnect_annotation (entries pod.annotations))

  abbrev pub seen_at : ℕ → String → Option String → Option Character
  seen_at now id none = none
  seen_at now id (some raw) =
      if reconnect_open now (parse_time raw)
      then some (record { character_id = id; status = disconnected; disconnected_at = some raw })
      else none

  abbrev pub character_with :
      Map String String → ℕ → String → Option CharacterStatus → Option Character
  character_with times now id none = none
  character_with times now id (some allocated) =
      some (record { character_id = id; status = allocated; disconnected_at = none })
  character_with times now id (some used) =
      some (record { character_id = id; status = used; disconnected_at = none })
  character_with times now id (some disconnected) = seen_at now id (lookup id times)

  abbrev pub character_named :
      Map String String → ℕ → List String → String → Option String → Option Character
  character_named times now requested value none = none
  character_named times now requested value (some id) =
      if is_wanted requested id then character_with times now id (status_of value) else none

  -- One round of the loop: the character that a label shows, or `none` where it goes on.
  unfoldable pub character_of :
      Config → Map String String → ℕ → List String → String → String → Option Character
  character_of config times now requested key value =
      character_named times now requested value (strip_prefix (label_prefix config) key)

  unfoldable pub shown :
      Config → Map String String → ℕ → List String → Map String String → List Character
  shown config times now requested [] = []
  shown config times now requested ((key, value) ∷ labels) =
      push (character_of config times now requested key value)
        (shown config times now requested labels)

  unfoldable pub characters_on_pod : Pod → Config → List String → ℕ → List Character
  unfolding shown
  characters_on_pod pod config requested now =
      sort_by id_leb (shown config (disconnect_times pod config) now requested (entries pod.labels))
