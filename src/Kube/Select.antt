-- ===== src/Kube/Select.antt =====
-- k8s_client.rs: `query_resources_snapshot` and its filters.
use Prim.Native.String
use udp_director.Prelude.{
  String, Bool, true, false, Option, none, some, List, [], ◌∷◌, ◌==◌, string_eq, if◌then◌else◌, any,
  all, retain,
}
use udp_director.Prelude.Maps.{Map, lookup}
use udp_director.Text.{is_empty}
use udp_director.Result.{Result, ok, ◌>>=◌, or_fail, list_failed}
use udp_director.Json.{Value, string, number, bool}
use udp_director.Config.{ResourceMapping, StatusQueryConfig}
use udp_director.Kube.{Resource, is_text}
use udp_director.Kube.Path.{extract_json_path}

pub record StatusQuery : Type 0 where
  pub json_path : String
  pub expected_values : List String

abbrev pub status_query_of : Option StatusQueryConfig → Option StatusQuery
status_query_of none = none
status_query_of (some s) =
    some (record { json_path = s.json_path; expected_values = s.expected_values })

pub record ApiResource : Type 0 where
  pub group : String
  pub version : String
  pub api_version : String
  pub plural : String

unfoldable pub api_resource : ResourceMapping → ApiResource
api_resource mapping = record {
  group = mapping.group;
  version = mapping.version;
  api_version =
      if is_empty mapping.group
      then mapping.version
      else String.◌++◌ mapping.group (String.◌++◌ "/" mapping.version);
  plural = mapping.resource;
}

-- `map(|(k, v)| format!("{k}={v}"))` and `join(",")`
unfoldable pub selector_text : Map String String → String
selector_text [] = ""
selector_text ((k, v) ∷ []) = String.◌++◌ k (String.◌++◌ "=" v)
selector_text ((k, v) ∷ (l, w) ∷ rest) =
    String.◌++◌ k
      (String.◌++◌ "=" (String.◌++◌ v (String.◌++◌ "," (selector_text ((l, w) ∷ rest)))))

pub record Listing : Type 0 where
  pub items : List Resource
  pub resource_version : Option String

-- What the API server answers to a list request: namespace, resource type and label selector.
abbrev pub ListCall : Type 0
ListCall = String → ApiResource → Option String → Option Listing

abbrev pub bool_text : Bool → String
bool_text true = "true"
bool_text false = "false"

abbrev pub value_text : Option Value → Option String
value_text (some (string s)) = some s
value_text (some (number n)) = some n.text
value_text (some (bool b)) = some (bool_text b)
value_text _ = none

abbrev pub is_expected : List String → Option String → Bool
is_expected expected none = false
is_expected expected (some text) = any (λ e. e == text) expected

abbrev pub status_matches : StatusQuery → Option Value → Result Bool
status_matches query none = ok false
status_matches query (some json) = do
  value ← extract_json_path json query.json_path
  ok (is_expected query.expected_values (value_text value))

unfoldable pub matches_status_query : Resource → StatusQuery → Result Bool
matches_status_query resource query = status_matches query resource.json

unfoldable pub matches_annotation_selector : Resource → Map String String → Bool
matches_annotation_selector resource selector = elim resource.annotations [
  | none ↦ false
  | some annotations ↦ all (λ wanted. is_text wanted.1 (lookup wanted.0 annotations)) selector
]

abbrev pub keep_if : Bool → Resource → List Resource → List Resource
keep_if b r rs = if b then r ∷ rs else rs

unfoldable pub filter_by_status : StatusQuery → List Resource → Result (List Resource)
filter_by_status query [] = ok []
filter_by_status query (r ∷ rs) = do
  keep ← matches_status_query r query
  rest ← filter_by_status query rs
  ok (keep_if keep r rest)

abbrev pub by_status : Option StatusQuery → List Resource → Result (List Resource)
by_status none rs = ok rs
by_status (some query) rs = filter_by_status query rs

abbrev pub by_annotations : Option (Map String String) → List Resource → List Resource
by_annotations none rs = rs
by_annotations (some selector) rs = retain (λ r. matches_annotation_selector r selector) rs

abbrev pub selector_of : Option (Map String String) → Option String
selector_of none = none
selector_of (some labels) = some (selector_text labels)

abbrev version_or_empty : Option String → String
version_or_empty none = ""
version_or_empty (some v) = v

unfoldable pub query_resources_snapshot :
    ListCall
    → String
    → ResourceMapping
    → Option StatusQuery
    → Option (Map String String)
    → Option (Map String String)
    → Result (List Resource × String)
query_resources_snapshot list namespace mapping status labels annotations = do
  listing ← or_fail (list namespace (api_resource mapping) (selector_of labels)) list_failed
  matching ← by_status status listing.items
  ok (by_annotations annotations matching, version_or_empty listing.resource_version)

unfoldable pub query_resources :
    ListCall
    → String
    → ResourceMapping
    → Option StatusQuery
    → Option (Map String String)
    → Option (Map String String)
    → Result (List Resource)
query_resources list namespace mapping status labels annotations = do
  (resources, version) ← query_resources_snapshot list namespace mapping status labels annotations
  ok resources
