-- ===== src/Balancer/Least.antt =====
-- load_balancer.rs: the least-sessions strategy.
use mathlib.Core.Path.{subst}
use udp_director.Prelude.{
  ◌≤◌, ◌≡◌, refl, ap, ◌∙◌, ◌↔◌, inl, inr, String, Option, none, some, List, [], ◌∷◌, arith, leb→le,
  In, All, sort_by, sort_by-least, sort_by-eq-nil,
}
use udp_director.Result.{ok, err, no_valid_backends}
use udp_director.Kube.{Resource}
use udp_director.Kube.Extract.{extract_address}
use udp_director.Balancer.{
  LoadBalancer, Backend, get_session_count, backend_of, backends_of, first_backend, gather,
  select_least_sessions,
}
use udp_director.Balancer.Order.{fewer_sessions, fewer_sessions-IsOrder}
use udp_director.Result.{Result-cases}
use udp_director.Balancer.Gather.{
  gather-Comes, gather_complete, gather-ne-err, gather-eq-nil, HasNoAddress,
}

-- A resource of the list whose address is extracted, with no more sessions than any other such.
pub record IsLeastLoaded (lb : LoadBalancer) (path : String) (address_type : Option String)
    (rs : List Resource) (selected : Resource) : Type 0 where
  pub address : String
  pub listed : In selected rs
  pub extracted : extract_address selected path address_type ≡ ok address
  pub least :
      (r : Resource) (other : String)
      → In r rs
      → extract_address r path address_type ≡ ok other
      → get_session_count lb address ≤ get_session_count lb other

abbrev resource_or : Resource → Option Backend → Resource
resource_or r none = r
resource_or r (some b) = b.resource

module _ (lb : LoadBalancer) (path : String) (address_type : Option String) where
  of_sorted :
      (rs : List Resource) (backends sorted : List Backend) (selected : Resource)
      → gather path address_type (backend_of lb path address_type) rs ≡ ok backends
      → sort_by fewer_sessions backends ≡ sorted
      → first_backend lb path address_type sorted ≡ ok selected
      → IsLeastLoaded lb path address_type rs selected
  of_sorted rs backends [] selected g e h = absurd (cc)
  of_sorted rs backends (b ∷ later) selected g e h =
      let (m, least) = sort_by-least fewer_sessions fewer_sessions-IsOrder b later backends e in
      let c = gather-Comes path address_type (backend_of lb path address_type) rs backends g b m in
      let same : b.resource ≡ selected = ground arith in
      let made : c.resource ≡ b.resource =
        ap (λ (x : Option Backend). resource_or selected x) c.made in
      let counted : get_session_count lb c.address ≡ b.session_count = ground (arith, c.made) in
      record {
        address = c.address;
        listed = subst (λ r. In r rs) (made ∙ same) c.listed;
        extracted =
            subst (λ r. extract_address r path address_type ≡ ok c.address) (made ∙ same)
              c.extracted;
        least = λ r other i x.
            let found =
              gather_complete path address_type (backend_of lb path address_type) rs backends g r
                other _ i x refl in
            rw counted (leb→le _ _ (least _ found));
      }

  -- A resource that the least-sessions strategy selects is one of those listed, has an address, and no
  -- listed resource with an address has fewer sessions.
  pub select_least_sessions-IsLeastLoaded :
      (rs : List Resource) (selected : Resource)
      → select_least_sessions lb path address_type rs ≡ ok selected
      → IsLeastLoaded lb path address_type rs selected
  unfolding select_least_sessions backends_of
  select_least_sessions-IsLeastLoaded rs selected h =
      elim (Result-cases (gather path address_type (backend_of lb path address_type) rs)) [
        | inl (backends, g) ↦
            of_sorted rs backends (sort_by fewer_sessions backends) selected g refl (rw g at h)
        | inr (inl (e, g)) ↦ absurd (ground arith)
        | inr (inr g) ↦ absurd (ground arith)
      ]

  all_backends :
      (r : Resource) (address : String)
      → (b : Backend) × (backend_of lb path address_type r address ≡ some b)
  all_backends r address = (_, refl)

  none_sorted :
      (sorted : List Backend)
      → first_backend lb path address_type sorted ≡ err no_valid_backends
      → sorted ≡ []
  none_sorted [] h = refl
  none_sorted (b ∷ bs) h = cc

  -- The least-sessions strategy finds no backend if and only if no resource has an address that can be
  -- extracted.
  pub select_least_sessions-fails_iff :
      (rs : List Resource)
      → (select_least_sessions lb path address_type rs ≡ err no_valid_backends)
        ↔ All (HasNoAddress path address_type (backend_of lb path address_type)) rs
  unfolding select_least_sessions backends_of sort_by
  select_least_sessions-fails_iff rs =
      let nothing =
        gather-eq-nil path address_type (backend_of lb path address_type) all_backends rs in
      (
        λ h. elim (Result-cases (gather path address_type (backend_of lb path address_type) rs)) [
          | inl (backends, g) ↦
              let sorted = none_sorted (sort_by fewer_sessions backends) (rw g at h) in
              nothing.0 (g ∙ ap ok (sort_by-eq-nil fewer_sessions backends sorted))
          | inr (inl (e, g)) ↦
              absurd (gather-ne-err path address_type (backend_of lb path address_type) rs e g)
          | inr (inr g) ↦ absurd (ground arith)
        ],
        λ h. rw (nothing.1 h),
      )
