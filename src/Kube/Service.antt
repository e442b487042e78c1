-- ===== src/Kube/Service.antt =====
-- k8s_client.rs: `find_service_for_resource`.
use udp_director.Prelude.{
  ℕ, ◌-◌, ◌%◌, ◌^◌, String, Option, none, some, List, [], ◌∷◌, string_eq, if◌then◌else◌,
}
use udp_director.Prelude.Int.{ℤ, pos, negsuc}
use udp_director.Prelude.Maps.{Map, lookup}
use udp_director.Result.{Result, ok, or_fail, ◌>>=◌, list_failed}
use udp_director.Kube.{entries, is_text}

pub record ServicePort : Type 0 where
  pub name : Option String
  pub port : ℤ

pub record ServiceSpec : Type 0 where
  pub cluster_ip : Option String
  pub ports : Option (List ServicePort)

pub record Service : Type 0 where
  pub labels : Option (Map String String)
  pub spec : Option ServiceSpec

-- `as u16` on an `i32`
unfoldable pub as_u16 : ℤ → ℕ
as_u16 (pos n) = n % 2 ^ 16
as_u16 (negsuc n) = 2 ^ 16 - 1 - n % 2 ^ 16

abbrev pub text_or_empty : Option String → String
text_or_empty none = ""
text_or_empty (some s) = s

unfoldable pub find_named_port : String → List ServicePort → Option ServicePort
find_named_port wanted [] = none
find_named_port wanted (p ∷ rest) =
    if is_text wanted p.name then some p else find_named_port wanted rest

abbrev pub target_of : String → Option ServiceSpec → Option (String × ℕ)
target_of port_name none = none
target_of port_name (some spec) = elim (find_named_port port_name (entries spec.ports)) [
  | none ↦ none
  | some p ↦ some (text_or_empty spec.cluster_ip, as_u16 p.port)
]

-- The target of one service; `none` sends the loop on to the next.
abbrev pub service_target : String → String → String → Service → Option (String × ℕ)
service_target resource_name selector_label port_name service =
    if is_text resource_name (lookup selector_label (entries service.labels))
    then target_of port_name service.spec
    else none

unfoldable pub find_service : String → String → String → List Service → Option (String × ℕ)
find_service resource_name selector_label port_name [] = none
find_service resource_name selector_label port_name (service ∷ rest) =
    elim (service_target resource_name selector_label port_name service) [
      | some target ↦ some target
      | none ↦ find_service resource_name selector_label port_name rest
    ]

-- `listed` is the cluster's answer: the services of the namespace, if it gives them.
unfoldable pub find_service_for_resource :
    Option (List Service) → String → String → String → Result (Option (String × ℕ))
find_service_for_resource listed resource_name selector_label port_name = do
  services ← or_fail listed list_failed
  ok (find_service resource_name selector_label port_name services)
