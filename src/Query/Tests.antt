-- ===== src/Query/Tests.antt =====
-- query_server.rs: a query on the sample cluster.
pub mod Waits
pub mod Places
use udp_director.Prelude.{
  ℕ, ◌≡◌, refl, String, List, [], ◌∷◌, any, all, sort_by, retain, ltb, if◌then◌else◌, length,
  length-append, string_eq, arith, some, none, true, false, ap, inl, ◌⊎◌, ◌++◌,
}
use udp_director.Prelude.Maps.{Map, lookup, insert}
use udp_director.Result.{timeout, ok, Error}
use udp_director.Text.{split, as_bytes, strip_prefix, str_leb, cut}
use udp_director.Json.{get_field}
use udp_director.Config.{Config, ResourceMapping, get_data_ports, is_pod_mapping}
use udp_director.Query.Lists.{IsListed, process_access-IsListed}
use udp_director.Characters.{CharacterServer, allocated, used}
use udp_director.Kube.{pod_ready, pod_draining}
use udp_director.Kube.Path.{extract_json_path}
use udp_director.Kube.Extract.{extract_address, address_in, plain_address, extract_port, port_at}
use udp_director.Kube.Select.{query_resources_snapshot, api_resource, selector_text}
use udp_director.Characters.{characters_on_pod, character_of, label_prefix, status_of}
use udp_director.Characters.Ids.{valid_character_id}
use udp_director.Session.Manager.{Store}
use udp_director.Query.{
  character_list, servers, list_servers, servers_of, success, access_of, has_invalid,
  candidates_from, eligible, has_room, holds_character, candidate_leb, friends_on, Candidate,
}
use udp_director.Query.Targets.{
  target_ports, extract_target_info, extract_direct_target, same_ports, routes_for,
}
use udp_director.Query.Process.{
  WaitEvent, disconnect, deadline, answered, waiting, wait_result, done, process_access,
  read_snapshot, eligible_at, select_loop, assign, allocate_unless_used, finish_assignment,
}
use udp_director.Query.Safety.{IsSafe, process_access-IsSafe}
use udp_director.Query.Ending.{EndsBy, process_access-EndsBy}
use udp_director.Kube.Watch.{opened, changed, wait_for_pod_change, watched, await_change}
use udp_director.Kube.Select.{ListCall}
use udp_director.Query.Answers.{IsServed, process_access-IsServed}
use udp_director.Query.Requests.{IsMessage, bytes_of, reads_of, Pieces, read_request-message}
use udp_director.Query.Read.{Parsed, complete, truncated, read_request}
use udp_director.Query.Connection.{
  handle_connection, IsAllocated, IsWithoutRoute, handle_connection-cases,
}
use udp_director.Query.Routing.{HasAllPorts, IsRouting, routes_for-IsRouting}
use udp_director.Session.{PortMappings}
use udp_director.Prelude.{In}
use udp_director.Prelude.Maps.{contains_key}
use udp_director.Result.{err, missing_backend_port}
use udp_director.Config.{DataPortConfig}
use udp_director.Query.Chosen.{IsCandidate, candidates_from-IsCandidate}
use udp_director.Samples.{pod_one, game_pod, formats, cluster, config, alice, second, request, list}

abbrev pub empty : Store
empty = record { sessions = []; sockets = [] }

process_access-IsSafe_example :
    IsSafe alice second empty (process_access cluster config alice second request list [] empty)
process_access-IsSafe_example =
    process_access-IsSafe cluster config alice second request list [] empty

pub answer_is :
    (process_access cluster config alice second request list [] empty).1
    ≡ done (ok (success "Allocated" "uid-one" (("game", 7777) ∷ ("chat", 7778) ∷ [])))
unfolding process_access access_of has_invalid valid_character_id lookup read_snapshot
    query_resources_snapshot api_resource selector_text insert eligible_at candidates_from pod_ready
    characters_on_pod eligible select_loop assign target_ports extract_target_info
    extract_direct_target extract_address extract_json_path split get_field address_in plain_address
    extract_port port_at same_ports get_data_ports routes_for allocate_unless_used finish_assignment
    any as_bytes all sort_by retain has_room holds_character character_of strip_prefix label_prefix
    status_of str_leb pod_draining candidate_leb friends_on cut
answer_is = refl

process_access-IsServed_example :
    IsServed cluster config alice second
      (access_of request)
      list
      []
      "uid-one"
      (("game", 7777) ∷ ("chat", 7778) ∷ [])
      empty
      (process_access cluster config alice second request list [] empty).0
process_access-IsServed_example =
    process_access-IsServed cluster config alice second request list [] empty "Allocated" "uid-one"
      (("game", 7777) ∷ ("chat", 7778) ∷ []) answer_is

-- A parser that asks for more until it has three bytes.
abbrev three_bytes : List ℕ → Parsed
three_bytes bytes = if ltb (length bytes) 3 then truncated else complete request

-- Two bytes and one byte more.
abbrev pieces : Pieces
pieces = (3, []) ∷ []

three-IsMessage : IsMessage three_bytes (bytes_of ((1, 2 ∷ []) ∷ pieces)) request
three-IsMessage = (
  refl,
  λ part rest is some_part some_rest. ground (arith, ap length is, length-append part rest),
)

read_request-message_example :
    read_request three_bytes (reads_of ((1, 2 ∷ []) ∷ pieces)) ≡ some (ok (some request))
read_request-message_example =
    read_request-message three_bytes request 1 (2 ∷ []) pieces three-IsMessage (omega arith)

abbrev targets : Map String ℕ
targets = ("game", 7000) ∷ ("chat", 7001) ∷ []

routes_for-IsRouting_example :
    ((out : PortMappings × Map String ℕ) × (routes_for targets (get_data_ports config) [] []
        ≡ ok out)
      × HasAllPorts targets (get_data_ports config)
      × IsRouting targets (get_data_ports config) out)
    ⊎ ((routes_for targets (get_data_ports config) [] [] ≡ err missing_backend_port)
        × ((p : DataPortConfig) × In p (get_data_ports config)
            × (contains_key p.name targets ≡ false)))
routes_for-IsRouting_example = routes_for-IsRouting targets (get_data_ports config)

abbrev candidate : Candidate
candidate = record {
  resource = pod_one;
  pod = game_pod;
  characters = characters_on_pod formats game_pod config [] second;
}

one_candidate :
    candidates_from formats cluster.to_pod config second (pod_one ∷ []) ≡ ok (candidate ∷ [])
unfolding candidates_from pod_ready any
one_candidate = refl

abbrev foreign : Error → String
foreign e = "expected value"

handle_connection-cases_example :
    (let r =
        handle_connection three_bytes foreign cluster config second list []
          (some alice)
          (reads_of ((1, 2 ∷ []) ∷ pieces))
          empty in
      IsAllocated three_bytes foreign cluster config second list []
        (some alice)
        (reads_of ((1, 2 ∷ []) ∷ pieces))
        empty
        r
      ⊎ IsWithoutRoute three_bytes foreign cluster config second list [] empty r)
handle_connection-cases_example =
    handle_connection-cases three_bytes foreign cluster config second list [] (some alice)
      (reads_of ((1, 2 ∷ []) ∷ pieces)) empty

abbrev shown_server : CharacterServer
shown_server = record {
  server = "uid-one";
  characters =
      record { character_id = "bard"; status = allocated; disconnected_at = none }
      ∷ record { character_id = "hero"; status = used; disconnected_at = none }
      ∷ [];
}

listing_is :
    (process_access cluster config alice second (character_list "town" []) list [] empty).1
    ≡ done (ok (servers (shown_server ∷ shown_server ∷ [])))
unfolding process_access access_of has_invalid valid_character_id lookup read_snapshot
    query_resources_snapshot api_resource selector_text insert candidates_from pod_ready
    characters_on_pod list_servers servers_of any as_bytes all sort_by retain character_of
    strip_prefix label_prefix status_of str_leb cut
listing_is = refl

process_access-IsListed_example :
    IsListed cluster config
      (access_of (character_list "town" []))
      list
      (shown_server ∷ shown_server ∷ [])
process_access-IsListed_example =
    process_access-IsListed cluster config alice second "town" [] list [] empty
      (shown_server ∷ shown_server ∷ []) listing_is
