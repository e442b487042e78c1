-- ===== src/Balancer/Tests.antt =====
-- load_balancer.rs: choices between sample backends.
use mathlib.Core.Path.{subst}
use udp_director.Prelude.Int.{ltb_ℤ, ◌+ℤ◌, ℤ}
use udp_director.Kube.{entries}
use udp_director.Balancer.{max_value, current_value}
use udp_director.Balancer.Capacity.{IsSmall, HasRoom, selected-within_max}
use udp_director.Prelude.{
  string_eq, true, In, inl, inr, sym, ◌∙◌, some, String, String, ◌≡◌, refl, none, some, List, [],
  ◌∷◌, All, sort_by, ◌↔◌, ◌<◌, arith, ◌^◌,
}
use udp_director.Prelude.Int.{pos, ◌-ℤ◌, wrap_i64}
use udp_director.Prelude.Maps.{lookup, insert}
use udp_director.Text.{split, cut, parse_i64}
use udp_director.Json.{get_field}
use udp_director.Kube.Path.{extract_json_path}
use udp_director.Kube.Extract.{extract_address, address_in, plain_address}
use udp_director.Samples.{pod_one, pod_two}
use udp_director.Result.{ok, err, no_valid_backends}
use udp_director.Config.{least_sessions}
use udp_director.Kube.{Resource}
use udp_director.Balancer.{
  LoadBalancer, new, get_session_count, increment_session, select_least_sessions,
  select_label_arithmetic, capacity, backend_of, backends_of, gather, candidates_of,
}
use udp_director.Balancer.Gather.{HasNoAddress}
use udp_director.Balancer.Least.{
  IsLeastLoaded, select_least_sessions-IsLeastLoaded, select_least_sessions-fails_iff,
}
use udp_director.Balancer.Capacity.{IsRoomiest, select_label_arithmetic-IsRoomiest}

abbrev plain : String → Resource
plain name = record { name = some name; labels = none; annotations = none; json = none }

abbrev two_pods : List Resource
two_pods = pod_one ∷ pod_two ∷ []

-- The first of two backends has a session.
abbrev busy : LoadBalancer
busy = increment_session (new least_sessions) "10.0.0.1"

second_selected : select_least_sessions busy "status.podIP" none two_pods ≡ ok pod_two
unfolding select_least_sessions backends_of gather extract_address extract_json_path split cut
    get_field address_in plain_address sort_by get_session_count lookup increment_session insert new
second_selected = refl

select_least_sessions-IsLeastLoaded_example :
    IsLeastLoaded busy "status.podIP" none two_pods pod_two
select_least_sessions-IsLeastLoaded_example =
    select_least_sessions-IsLeastLoaded busy "status.podIP" none two_pods pod_two second_selected

first_selected :
    select_label_arithmetic busy "status.podIP" none "current" "max"
      (pos 1)
      (pod_two ∷ pod_one ∷ [])
    ≡ ok pod_two
unfolding select_label_arithmetic candidates_of gather extract_address extract_json_path split cut
    get_field address_in plain_address sort_by get_session_count lookup increment_session insert new
    parse_i64 capacity wrap_i64 ◌-ℤ◌
first_selected = refl

select_label_arithmetic-IsRoomiest_example :
    IsRoomiest busy "status.podIP" none "current" "max" (pos 1) (pod_two ∷ pod_one ∷ []) pod_two
select_label_arithmetic-IsRoomiest_example =
    select_label_arithmetic-IsRoomiest busy "status.podIP" none "current" "max" (pos 1)
      (pod_two ∷ pod_one ∷ []) pod_two first_selected

select_least_sessions-fails_iff_example :
    (select_least_sessions busy "status.podIP" none (plain "x" ∷ []) ≡ err no_valid_backends)
    ↔ All (HasNoAddress "status.podIP" none (backend_of busy "status.podIP" none)) (plain "x" ∷ [])
select_least_sessions-fails_iff_example =
    select_least_sessions-fails_iff busy "status.podIP" none (plain "x" ∷ [])

max_is : max_value (lookup "max" (entries pod_two.labels)) ≡ some (pos 10)
unfolding lookup parse_i64
max_is = refl

current_is : current_value (lookup "current" (entries pod_two.labels)) ≡ some (pos 4)
unfolding lookup parse_i64
current_is = refl

abbrev Room : Resource → Type 0
Room = HasRoom busy "status.podIP" none "current" "max" (pos 1)

some-inj : (a b : ℤ) → some a ≡ some b → a ≡ b
some-inj a b h = cc

-- No backend has more than one session.
few : (address : String) → get_session_count busy address < 2 ^ 60
unfolding get_session_count increment_session lookup insert new
few address = ground arith

bounded_by_limit :
    (r : Resource) (v : Room r)
    → In r (pod_two ∷ [])
    → IsSmall v.max × IsSmall v.current × (get_session_count busy v.address < 2 ^ 60)
bounded_by_limit r v (inl e) =
    let max_10 : pos 10 ≡ v.max = some-inj (pos 10) v.max (
      sym max_is
      ∙ subst (λ (x : Resource). max_value (lookup "max" (entries x.labels)) ≡ some v.max) (sym e)
          v.max_read) in
    let current_4 : pos 4 ≡ v.current = some-inj (pos 4) v.current (
      sym current_is
      ∙ subst
          (λ (x : Resource). current_value (lookup "current" (entries x.labels)) ≡ some v.current)
          (sym e) v.current_read) in
    (
      rw (← max_10) (omega arith, omega arith),
      rw (← current_4) (omega arith, omega arith),
      few v.address,
    )
bounded_by_limit r v (inr m) = absurd m

only_selected :
    select_label_arithmetic busy "status.podIP" none "current" "max" (pos 1) (pod_two ∷ [])
    ≡ ok pod_two
unfolding select_label_arithmetic candidates_of gather extract_address extract_json_path split cut
    get_field address_in plain_address sort_by get_session_count lookup increment_session insert new
    parse_i64 capacity wrap_i64 ◌-ℤ◌
only_selected = refl

selected-within_max_example :
    (v : Room pod_two) × (ltb_ℤ (v.current +ℤ pos (get_session_count busy v.address) +ℤ pos 1) v.max
      ≡ true)
selected-within_max_example =
    selected-within_max busy "status.podIP" none "current" "max" (pos 1) (pod_two ∷ []) pod_two
      only_selected (omega arith, omega arith) bounded_by_limit
