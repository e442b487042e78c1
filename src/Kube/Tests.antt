-- ===== src/Kube/Tests.antt =====
-- k8s_client.rs: queries and extractions on sample resources.
use udp_director.Prelude.{◌≡◌, ◌↔◌, refl, none, some, List, [], ◌∷◌, arith, In, string_eq}
use udp_director.Result.{ok, panic}
use udp_director.Text.{split, cut, but_last_byte}
use udp_director.Json.{Value, null, number, array, nil, item, string, object, field, end, get_field}
use udp_director.Kube.{Resource}
use udp_director.Kube.Path.{extract_json_path}
use udp_director.Kube.Walk.{PathStep, key, element_of, path_text, follow, extract_json_path-follow}
use udp_director.Kube.Extract.{extract_port, port_at}
use udp_director.Kube.Select.{Listing, api_resource, query_resources_snapshot, selector_of}
use udp_director.Kube.Filters.{MeetsStatus, MeetsAnnotations, query_resources_snapshot_iff}
use udp_director.Samples.{pod_one, pod_two, mapping, list}

both_listed :
    query_resources_snapshot list "games" mapping none none none ≡ ok (pod_one ∷ pod_two ∷ [], "7")
unfolding query_resources_snapshot
both_listed = refl

query_resources_snapshot_iff_example :
    (listing : Listing) × (list "games" (api_resource mapping) (selector_of none) ≡ some listing)
    × ((a : Resource)
        → In a (pod_one ∷ pod_two ∷ [])
          ↔ (In a listing.items × MeetsStatus none a × MeetsAnnotations none a))
query_resources_snapshot_iff_example =
    query_resources_snapshot_iff list "games" mapping none none none (pod_one ∷ pod_two ∷ []) "7"
      both_listed

port_is : extract_port pod_one (some "status.port") none ≡ ok 7000
unfolding extract_port port_at extract_json_path split cut get_field
port_is = refl

-- A path that ends in an open bracket.
unclosed : extract_json_path (object (field "ports" (string "x") end)) "ports[" ≡ panic
unfolding extract_json_path split cut but_last_byte
unclosed = refl

-- status.ports[1].port
abbrev steps : List PathStep
steps = element_of "ports" 1 ∷ key "port" ∷ []

abbrev two_ports : Value
two_ports = object (
    field "status"
      (object (
        field "ports"
          (array (
            item null (
              item
                (object (field "port" (number (record { as_u64 = some 7000; text = "7000" })) end))
                nil)))
          end))
      end)

extract_json_path-follow_example :
    extract_json_path two_ports (path_text (key "status") steps)
    ≡ ok (follow two_ports (key "status" ∷ steps))
extract_json_path-follow_example =
    extract_json_path-follow two_ports (key "status") steps
      (
        (refl, (refl, (refl, (refl, (refl, (refl, tt)))))),
        (refl, (refl, (refl, (refl, (refl, (refl, tt)))))),
      )
      (
        (
          ((refl, (refl, (refl, (refl, (refl, tt))))), (refl, (refl, (refl, (refl, (refl, tt)))))),
          omega arith,
        ),
        (((refl, (refl, (refl, (refl, tt)))), (refl, (refl, (refl, (refl, tt))))), tt),
      )
