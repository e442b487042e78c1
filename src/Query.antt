-- ===== src/Query.antt =====
-- query_server.rs: requests, responses, the checks of a request and the candidates for it.
pub mod Read
pub mod Targets
pub mod Process
pub mod Rank
pub mod Order
pub mod Chosen
pub mod Place
pub mod Placed
pub mod Served
pub mod Routing
pub mod Given
pub mod Snapshots
pub mod Answers
pub mod Ending
pub mod Flights
pub mod Requests
pub mod Connection
pub mod Listed
pub mod Lists
pub mod Room
pub mod Safety
pub mod Tests
use udp_director.Prelude.{
  ℕ, String, Bool, true, false, not, ◌&&◌, ◌||◌, Option, none, some, List, [], ◌∷◌, ltb, leb, ◌==◌,
  nat_eq, string_eq, if◌then◌else◌, length, any, retain, sort_by,
}
use udp_director.Prelude.Maps.{Map, insert}
use udp_director.Text.{str_leb}
use udp_director.Result.{Result, ok, err, ◌>>=◌, or_fail, not_a_pod, no_server_identity}
use udp_director.Config.{Config, is_nil}
use udp_director.Kube.{Resource, Pod, entries, pod_ready, pod_draining}
use udp_director.Characters.{Character, CharacterServer, Formats, characters_on_pod}
use udp_director.Characters.Ids.{valid_character_id}

pub data QueryRequest : Type 0 where
  character_list : String → List String → QueryRequest
  query : String → String → List String → QueryRequest

pub data QueryResponse : Type 0 where
  servers : List CharacterServer → QueryResponse
  success : String → String → Map String ℕ → QueryResponse
  error : String → QueryResponse

-- A request taken apart: the map, the ids of friends or of characters sought, and the character that
-- wants a server.
pub record Access : Type 0 where
  pub map : String
  pub ids : List String
  pub character : Option String

unfoldable pub access_of : QueryRequest → Access
access_of (character_list map ids) = record { map = map; ids = ids; character = none }
access_of (query map character friends) = record {
  map = map;
  ids = friends;
  character = some character;
}

abbrev pub is_invalid : Option String → Bool
is_invalid none = false
is_invalid (some id) = not (valid_character_id id)

unfoldable pub has_invalid : Access → Bool
has_invalid a =
    not (valid_character_id a.map)
    || any (λ id. not (valid_character_id id)) a.ids
    || is_invalid a.character

pub record Candidate : Type 0 where
  pub resource : Resource
  pub pod : Pod
  pub characters : List Character

abbrev pub is_one_of : List String → String → Bool
is_one_of ids id = any (λ i. i == id) ids

-- What `serde_json::from_value` makes of a resource, if it is a Pod, and the parsers of characters.rs.
module _ (formats : Formats) (to_pod : Resource → Option Pod) (config : Config) (now : ℕ) where
  abbrev pub candidate_if : Bool → Resource → Pod → List Candidate → List Candidate
  candidate_if false r pod rest = rest
  candidate_if true r pod rest =
      record { resource = r; pod = pod; characters = characters_on_pod formats pod config [] now }
      ∷ rest

  unfoldable pub candidates_from : List Resource → Result (List Candidate)
  candidates_from [] = ok []
  candidates_from (r ∷ rs) = do
    pod ← or_fail (to_pod r) not_a_pod
    rest ← candidates_from rs
    ok (candidate_if (pod_ready pod) r pod rest)

abbrev pub sought : List String → List Character → List Character
sought ids cs = retain (λ c. is_nil ids || is_one_of ids c.character_id) cs

abbrev pub add_server :
    Option String → List Character → List CharacterServer → Result (List CharacterServer)
add_server uid [] rest = ok rest
add_server uid (c ∷ cs) rest = do
  server ← or_fail uid no_server_identity
  ok (record { server = server; characters = c ∷ cs } ∷ rest)

unfoldable pub servers_of : List String → List Candidate → Result (List CharacterServer)
servers_of ids [] = ok []
servers_of ids (c ∷ cs) = do
  rest ← servers_of ids cs
  add_server c.pod.uid (sought ids c.characters) rest

abbrev pub server_leb : CharacterServer → CharacterServer → Bool
server_leb a b = str_leb a.server b.server

unfoldable pub list_servers : List String → List Candidate → Result QueryResponse
list_servers ids cs = do found ← servers_of ids cs; ok (servers (sort_by server_leb found))

unfoldable pub holds_character : String → Candidate → Bool
holds_character character c = any (λ h. h.character_id == character) c.characters

unfoldable pub has_room : Config → String → Candidate → Bool
has_room config character c =
    holds_character character c || ltb (length c.characters) config.max_characters_per_server

unfoldable pub friends_on : List String → Candidate → ℕ
friends_on ids c = length (retain (λ h. is_one_of ids h.character_id) c.characters)

-- `Option<String>`: a Pod without a uid is first.
abbrev pub uid_leb : Option String → Option String → Bool
uid_leb none b = true
uid_leb (some a) none = false
uid_leb (some a) (some b) = str_leb a b

abbrev pub bit : Bool → ℕ
bit true = 1
bit false = 0

-- The order of the sort's key: who has the character, then more friends, fewer characters, the uid.
unfoldable pub candidate_leb : String → List String → Candidate → Candidate → Bool
candidate_leb character ids a b =
    let held_a = bit (holds_character character a) in
    let held_b = bit (holds_character character b) in
    if ltb held_b held_a
    then true
    else if ltb held_a held_b
    then false
    else if ltb (friends_on ids b) (friends_on ids a)
    then true
    else if ltb (friends_on ids a) (friends_on ids b)
    then false
    else if ltb (length a.characters) (length b.characters)
    then true
    else if ltb (length b.characters) (length a.characters)
    then false
    else uid_leb a.pod.uid b.pod.uid

unfoldable pub eligible : Config → String → List String → List Candidate → List Candidate
eligible config character ids cs =
    sort_by (candidate_leb character ids)
      (retain (λ c. not (pod_draining c.pod)) (retain (has_room config character) cs))
