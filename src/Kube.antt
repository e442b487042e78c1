-- ===== src/Kube.antt =====
-- k8s_client.rs: resources, Pods and Services as the cluster gives them, and the tests on a Pod. The
-- cluster's answers are arguments of the functions that ask for them.
pub mod Path
pub mod Walk
pub mod Extract
pub mod Service
pub mod Select
pub mod Watch
pub mod Ports
pub mod Filters
pub mod Tests
use udp_director.Prelude.{
  ℕ, String, Bool, true, false, not, ◌&&◌, Option, none, some, List, [], ◌==◌, string_eq,
  if◌then◌else◌, is_some, any,
}
use udp_director.Prelude.Maps.{Map, lookup}
use udp_director.Result.{
  Result, ok, err, ◌>>=◌, ◌>>◌, ensure, or_fail, pod_is_draining, no_pod_name, no_resource_version,
  patch_rejected,
}
use udp_director.Json.{Value}

-- `DynamicObject`: its metadata, and what `serde_json::to_value` makes of the whole.
pub record Resource : Type 0 where
  pub name : Option String
  pub labels : Option (Map String String)
  pub annotations : Option (Map String String)
  pub json : Option Value

pub record PodCondition : Type 0 where
  pub condition_type : String
  pub status : String

pub record PodStatus : Type 0 where
  pub phase : Option String
  pub pod_ip : Option String
  pub conditions : Option (List PodCondition)

pub record Pod : Type 0 where
  pub name : Option String
  pub uid : Option String
  pub resource_version : Option String
  pub deletion_timestamp : Option String
  pub labels : Option (Map String String)
  pub annotations : Option (Map String String)
  pub status : Option PodStatus

abbrev pub drain_label : String
drain_label = "udp-director.io/draining"

-- `labels.iter().flatten()`, `as_ref().and_then(|m| m.get(key))` and `unwrap_or_default()`
abbrev pub entries {ℓ} : {A : Type ℓ} → Option (List A) → List A
entries none = []
entries (some m) = m

abbrev pub is_text : String → Option String → Bool
is_text expected none = false
is_text expected (some actual) = actual == expected

unfoldable pub pod_draining : Pod → Bool
pod_draining pod = is_text "true" (lookup drain_label (entries pod.labels))

abbrev pub is_ready_condition : PodCondition → Bool
is_ready_condition c = (c.condition_type == "Ready") && (c.status == "True")

abbrev pub status_ready : Option PodStatus → Bool
status_ready none = false
status_ready (some s) =
    is_text "Running" s.phase && is_some s.pod_ip && any is_ready_condition (entries s.conditions)

unfoldable pub pod_ready : Pod → Bool
pod_ready pod = not (is_some pod.deletion_timestamp) && status_ready pod.status

-- The merge patch that sets one label, under the version that was read.
pub record LabelPatch : Type 0 where
  pub namespace : String
  pub pod : String
  pub resource_version : String
  pub key : String
  pub value : String

-- `accepts` is the answer of the API server to the patch.
unfoldable pub allocate_character : (LabelPatch → Bool) → String → Pod → String → Result (Unit {0})
allocate_character accepts namespace pod key = do
  ensure (not (pod_draining pod)) pod_is_draining
  name ← or_fail pod.name no_pod_name
  version ← or_fail pod.resource_version no_resource_version
  ensure
      (accepts (record {
        namespace = namespace;
        pod = name;
        resource_version = version;
        key = key;
        value = "Allocated";
      }))
      patch_rejected
