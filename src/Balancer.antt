-- ===== src/Balancer.antt =====
-- load_balancer.rs: the counts of sessions for each backend address, and the choice of a backend. The
-- counts are `usize` and the capacities `i64`, both of 64 bits, which wrap in a release build.
pub mod Counts
pub mod Gather
pub mod Order
pub mod Least
pub mod Capacity
pub mod Tests
use udp_director.Prelude.{
  ℕ, ◌+◌, ◌-◌, ◌%◌, ◌^◌, String, Bool, true, false, Option, none, some, List, [], ◌∷◌, ltb, leb,
  ◌==◌, string_eq, if◌then◌else◌, sort_by, map,
}
use udp_director.Prelude.Int.{ℤ, pos, ◌-ℤ◌, ltb_ℤ, wrap_i64}
use udp_director.Prelude.Maps.{Map, lookup, insert, remove, adjust}
use udp_director.Text.{parse_i64}
use udp_director.Result.{
  Result, ok, err, panic, ◌>>=◌, no_resources, no_valid_backends, no_backend_with_capacity,
}
use udp_director.Config.{LoadBalancingStrategy, least_sessions, label_arithmetic}
use udp_director.Kube.{Resource, entries}
use udp_director.Kube.Extract.{extract_address}

pub record LoadBalancer : Type 0 where
  pub strategy : LoadBalancingStrategy
  pub session_counts : Map String ℕ

unfoldable pub new : LoadBalancingStrategy → LoadBalancer
new strategy = record { strategy = strategy; session_counts = [] }

abbrev pub or_zero : Option ℕ → ℕ
or_zero none = 0
or_zero (some n) = n

unfoldable pub get_session_count : LoadBalancer → String → ℕ
get_session_count lb address = or_zero (lookup address lb.session_counts)

unfoldable pub increment_session : LoadBalancer → String → LoadBalancer
unfolding get_session_count
increment_session lb address = record lb {
  session_counts = insert address ((get_session_count lb address + 1) % 2 ^ 64) lb.session_counts;
}

abbrev pub less_one : ℕ → ℕ
less_one n = if ltb 0 n then n - 1 else n

unfoldable pub decrement_session : LoadBalancer → String → LoadBalancer
decrement_session lb address = record lb {
  session_counts = adjust address less_one lb.session_counts;
}

unfoldable pub clear_backend : LoadBalancer → String → LoadBalancer
clear_backend lb address = record lb { session_counts = remove address lb.session_counts }

unfoldable pub sum_counts : Map String ℕ → ℕ
sum_counts [] = 0
sum_counts ((address, n) ∷ rest) = (n + sum_counts rest) % 2 ^ 64

unfoldable pub get_total_sessions : LoadBalancer → ℕ
unfolding sum_counts
get_total_sessions lb = sum_counts lb.session_counts

unfoldable pub get_all_session_counts : LoadBalancer → List (String × ℕ)
get_all_session_counts lb = map (λ entry. (entry.0, entry.1)) lb.session_counts

pub record Backend : Type 0 where
  pub resource : Resource
  pub address : String
  pub session_count : ℕ

-- What a round of either loop adds; a resource whose address cannot be extracted is passed over.
abbrev pub with_address {ℓ} :
    {A : Type ℓ} → Result String → (String → Option A) → Result (List A) → Result (List A)
with_address (err e) f rest = rest
with_address panic f rest = panic
with_address (ok address) f rest = elim (f address) [
  | none ↦ rest
  | some a ↦ rest >>= λ as'. ok (a ∷ as')
]

-- Either loop over the resources, with what a resource and its address add.
module _ {ℓ} {A : Type ℓ} (path : String) (address_type : Option String)
    (f : Resource → String → Option A) where
  unfoldable pub gather : List Resource → Result (List A)
  gather [] = ok []
  gather (r ∷ rs) = with_address (extract_address r path address_type) (f r) (gather rs)

module _ (lb : LoadBalancer) (path : String) (address_type : Option String) where
  abbrev pub backend_of : Resource → String → Option Backend
  backend_of r address =
      some
        (record { resource = r; address = address; session_count = get_session_count lb address })

  unfoldable pub backends_of : List Resource → Result (List Backend)
  backends_of = gather path address_type backend_of

  abbrev pub first_backend : List Backend → Result Resource
  first_backend [] = err no_valid_backends
  first_backend (b ∷ bs) = ok b.resource

  unfoldable pub select_least_sessions : List Resource → Result Resource
  select_least_sessions rs = do
    backends ← backends_of rs
    first_backend (sort_by (λ a b. leb a.session_count b.session_count) backends)

pub record Candidate : Type 0 where
  pub resource : Resource
  pub address : String
  pub available : ℤ
  pub current : ℤ

-- More available capacity first, then the lower current load.
abbrev pub candidate_leb : Candidate → Candidate → Bool
candidate_leb a b =
    if ltb_ℤ b.available a.available
    then true
    else if ltb_ℤ a.available b.available
    then false
    else if ltb_ℤ b.current a.current
    then false
    else true

-- A missing current count is 0, and a missing maximum passes the resource over.
abbrev pub current_value : Option String → Option ℤ
current_value none = some (pos 0)
current_value (some text) = parse_i64 text

abbrev pub max_value : Option String → Option ℤ
max_value none = none
max_value (some text) = parse_i64 text

-- `max - current - sessions - overlap` on `i64`
unfoldable pub capacity : ℤ → ℤ → ℕ → ℤ → ℤ
capacity max current sessions overlap =
    wrap_i64 (wrap_i64 (wrap_i64 (max -ℤ current) -ℤ wrap_i64 (pos sessions)) -ℤ overlap)

module _ (lb : LoadBalancer) (path : String) (address_type : Option String)
    (current_label max_label : String) (overlap : ℤ) where
  abbrev pub with_room : Resource → String → ℤ → ℤ → Option Candidate
  with_room r address available current =
      if ltb_ℤ (pos 0) available
      then some
          (record { resource = r; address = address; available = available; current = current })
      else none

  abbrev pub candidate_with : Resource → String → Option ℤ → Option ℤ → Option Candidate
  candidate_with r address (some current) (some max) =
      with_room r address (capacity max current (get_session_count lb address) overlap) current
  candidate_with r address _ _ = none

  abbrev pub candidate_of : Resource → String → Option Candidate
  candidate_of r address =
      candidate_with r address (current_value (lookup current_label (entries r.labels)))
        (max_value (lookup max_label (entries r.labels)))

  unfoldable pub candidates_of : List Resource → Result (List Candidate)
  candidates_of = gather path address_type candidate_of

  abbrev pub first_candidate : List Candidate → Result Resource
  first_candidate [] = err no_backend_with_capacity
  first_candidate (c ∷ cs) = ok c.resource

  unfoldable pub select_label_arithmetic : List Resource → Result Resource
  select_label_arithmetic rs = do
    candidates ← candidates_of rs
    first_candidate (sort_by candidate_leb candidates)

abbrev pub by_strategy :
    LoadBalancer → LoadBalancingStrategy → List Resource → String → Option String → Result Resource
by_strategy lb least_sessions rs path address_type = select_least_sessions lb path address_type rs
by_strategy lb (label_arithmetic current_label max_label overlap) rs path address_type =
    select_label_arithmetic lb path address_type current_label max_label overlap rs

unfoldable pub select_backend :
    LoadBalancer → List Resource → String → Option String → Result Resource
select_backend lb [] path address_type = err no_resources
select_backend lb (r ∷ rs) path address_type = by_strategy lb lb.strategy (r ∷ rs) path address_type
