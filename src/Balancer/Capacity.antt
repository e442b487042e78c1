-- ===== src/Balancer/Capacity.antt =====
-- load_balancer.rs: the label-arithmetic strategy.
use mathlib.Core.Path.{subst}
use udp_director.Prelude.{
  ℕ, ◌^◌, ◌<◌, ◌≡◌, refl, sym, ap, inl, inr, String, true, Option, some, List, [], ◌∷◌, arith,
  ltb→lt, lt→ltb, In, sort_by, sort_by-least, string_eq, Option-cases,
}
use udp_director.Prelude.Int.{
  ℤ, pos, pos_part, neg_part, ltb_ℤ, ◌-ℤ◌, ◌+ℤ◌, ◌≤ℤ◌, wrap_i64_of_IsI64, wrap-sub, -ℤ_bounds,
  wrap-sub, -ℤ_bounds, int_laws,
}
use udp_director.Prelude.Maps.{lookup}
use udp_director.Result.{ok}
use udp_director.Kube.{Resource, entries}
use udp_director.Kube.Extract.{extract_address}
use udp_director.Balancer.{
  LoadBalancer, Candidate, candidate_leb, get_session_count, current_value, max_value, capacity,
  candidate_of, candidates_of, first_candidate, gather, select_label_arithmetic,
}
use udp_director.Balancer.Order.{Precedes, candidate_leb→, candidate_leb-IsOrder}
use udp_director.Result.{Result-cases}
use udp_director.Balancer.Gather.{gather-Comes, gather_complete}

-- Small enough that no step of the computation of the capacity wraps.
abbrev pub IsSmall : ℤ → Type 0
IsSmall a = (pos_part a < 2 ^ 60) × (neg_part a < 2 ^ 60)

-- For a maximum, a load and an overlap below 2^60 in absolute value and fewer than 2^60 sessions, the
-- capacity, computed with the wrap of 64-bit integers, is exactly the difference.
pub capacity_exact :
    (max current overlap : ℤ) (sessions : ℕ)
    → IsSmall max
    → IsSmall current
    → IsSmall overlap
    → sessions < 2 ^ 60
    → capacity max current sessions overlap ≡ max -ℤ current -ℤ pos sessions -ℤ overlap
unfolding capacity
capacity_exact max current overlap sessions m c o s =
    let first = wrap-sub max current (omega arith) (omega arith) in
    let counted =
      wrap_i64_of_IsI64 (pos sessions) (record { above = omega arith; below = omega arith }) in
    let bounds = -ℤ_bounds max current in
    let second =
      wrap-sub (max -ℤ current) (pos sessions) (omega (arith, bounds)) (omega (arith, bounds)) in
    let later = -ℤ_bounds (max -ℤ current) (pos sessions) in
    let third =
      wrap-sub (max -ℤ current -ℤ pos sessions) overlap (omega (arith, bounds, later))
        (omega (arith, bounds, later)) in
    rw (first, counted, second, third)

below_max :
    (max current sessions overlap : ℤ)
    → ltb_ℤ (pos 0) (max -ℤ current -ℤ sessions -ℤ overlap) ≡ true
    → ltb_ℤ (current +ℤ sessions +ℤ overlap) max ≡ true
below_max max current sessions overlap h = lt→ltb _ _ (omega (int_laws, ltb→lt _ _ h))

-- The numbers that decide about a resource: its address, its labels and what room they leave.
pub record HasRoom (lb : LoadBalancer) (path : String) (address_type : Option String)
    (current_label max_label : String) (overlap : ℤ) (r : Resource) : Type 0 where
  pub address : String
  pub current : ℤ
  pub max : ℤ
  pub extracted : extract_address r path address_type ≡ ok address
  pub current_read : current_value (lookup current_label (entries r.labels)) ≡ some current
  pub max_read : max_value (lookup max_label (entries r.labels)) ≡ some max
  pub room : ltb_ℤ (pos 0) (capacity max current (get_session_count lb address) overlap) ≡ true

module _ (lb : LoadBalancer) (path : String) (address_type : Option String)
    (current_label max_label : String) (overlap : ℤ) where
  abbrev Room : Resource → Type 0
  Room = HasRoom lb path address_type current_label max_label overlap

  abbrev make : Resource → String → Option Candidate
  make = candidate_of lb path address_type current_label max_label overlap

  -- The capacity that is left.
  abbrev pub left : {r : Resource} → Room r → ℤ
  left v = capacity v.max v.current (get_session_count lb v.address) overlap

  abbrev as_candidate : (r : Resource) → Room r → Candidate
  as_candidate r v = record {
    resource = r;
    address = v.address;
    available = left v;
    current = v.current;
  }

  made_of_Room : (r : Resource) (v : Room r) → make r v.address ≡ some (as_candidate r v)
  made_of_Room r v = ground (arith, v.current_read, v.max_read, v.room)

  Room-of_made :
      (r : Resource) (address : String) (c : Candidate)
      → extract_address r path address_type ≡ ok address
      → make r address ≡ some c
      → (v : Room r) × (as_candidate r v ≡ c)
  Room-of_made r address c x h =
      elim (Option-cases (current_value (lookup current_label (entries r.labels)))) [
        | inl e ↦ absurd (ground arith)
        | inr (current, p) ↦ elim (Option-cases (max_value (lookup max_label (entries r.labels)))) [
          | inl e ↦ absurd (ground arith)
          | inr (max, q) ↦ (
            record {
              address = address;
              current = current;
              max = max;
              extracted = x;
              current_read = p;
              max_read = q;
              room = ground arith;
            },
            ground arith,
          )
        ]
      ]

  -- A resource of the list with room left; of all those with room it has the most left, and among
  -- equals the lowest current load.
  pub record IsRoomiest (rs : List Resource) (selected : Resource) : Type 0 where
    pub listed : In selected rs
    pub room : Room selected
    pub most : (r : Resource) (v : Room r) → In r rs → left v ≤ℤ left room
    pub lightest :
        (r : Resource) (v : Room r) → In r rs → left room ≤ℤ left v → room.current ≤ℤ v.current

  precedes :
      (rs : List Resource) (candidates : List Candidate) (b : Candidate)
      → gather path address_type make rs ≡ ok candidates
      → ((c : Candidate) → In c candidates → candidate_leb b c ≡ true)
      → (r : Resource) (v : Room r) → In r rs
      → Precedes b (as_candidate r v)
  precedes rs candidates b g best r v i =
      let found =
        gather_complete path address_type make rs candidates g r v.address (as_candidate r v) i
          v.extracted (made_of_Room r v) in
      candidate_leb→ b (as_candidate r v) (best (as_candidate r v) found)

  of_sorted :
      (rs : List Resource) (candidates sorted : List Candidate) (selected : Resource)
      → gather path address_type make rs ≡ ok candidates
      → sort_by candidate_leb candidates ≡ sorted
      → first_candidate lb path address_type current_label max_label overlap sorted ≡ ok selected
      → IsRoomiest rs selected
  of_sorted rs candidates [] selected g e h = absurd (cc)
  of_sorted rs candidates (b ∷ later) selected g e h =
      let (m, best) = sort_by-least candidate_leb candidate_leb-IsOrder b later candidates e in
      let c = gather-Comes path address_type make rs candidates g b m in
      let (v, made) = Room-of_made c.resource c.address b c.extracted c.made in
      let resource_made : c.resource ≡ b.resource = ap (λ (x : Candidate). x.resource) made in
      let same : c.resource ≡ selected = ground arith in
      let first = λ (r : Resource) (w : Room r) (i : In r rs).
        subst (λ x. Precedes x (as_candidate r w)) (sym made)
          (precedes rs candidates b g best r w i) in
      subst (IsRoomiest rs) same (record {
        listed = c.listed;
        room = v;
        most = λ r w i. (first r w i).0;
        lightest = λ r w i. (first r w i).1;
      })

  -- A resource that the label strategy selects is listed, has an address and capacity left; no other
  -- with room has more left, and of those with as much none has a lower current load.
  pub select_label_arithmetic-IsRoomiest :
      (rs : List Resource) (selected : Resource)
      → select_label_arithmetic lb path address_type current_label max_label overlap rs
        ≡ ok selected
      → IsRoomiest rs selected
  unfolding select_label_arithmetic candidates_of
  select_label_arithmetic-IsRoomiest rs selected h =
      elim (Result-cases (gather path address_type make rs)) [
        | inl (candidates, g) ↦
            of_sorted rs candidates (sort_by candidate_leb candidates) selected g refl (rw g at h)
        | inr (inl (e, g)) ↦ absurd (ground arith)
        | inr (inr g) ↦ absurd (ground arith)
      ]

  -- Where the values of the resources with room are below 2^60 in absolute value, as is the overlap,
  -- and the sessions fewer than 2^60, current load, sessions and overlap of the resource that the
  -- label strategy selects are together strictly below its maximum, so that a resource that they would
  -- fill exactly is never selected.
  pub selected-within_max :
      (rs : List Resource) (selected : Resource)
      → select_label_arithmetic lb path address_type current_label max_label overlap rs
        ≡ ok selected
      → IsSmall overlap
      → ((r : Resource) (v : Room r)
          → In r rs
          → IsSmall v.max × IsSmall v.current × (get_session_count lb v.address < 2 ^ 60))
      → (v : Room selected) × (ltb_ℤ
            (v.current +ℤ pos (get_session_count lb v.address) +ℤ overlap)
            v.max
          ≡ true)
  selected-within_max rs selected h small bounds =
      let best = select_label_arithmetic-IsRoomiest rs selected h in
      let v = best.room in
      let (max_small, current_small, few) = bounds selected v best.listed in
      let exact =
        capacity_exact v.max v.current overlap (get_session_count lb v.address) max_small
          current_small small few in
      (
        v,
        below_max v.max v.current (pos (get_session_count lb v.address)) overlap
            (subst (λ x. ltb_ℤ (pos 0) x ≡ true) exact v.room),
      )
