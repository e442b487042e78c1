-- ===== src/Balancer/Gather.antt =====
-- load_balancer.rs: what the loops over the resources gather.
use mathlib.Core.Path.{subst}
use udp_director.Prelude.{
  ◌≡◌, refl, sym, ap, ◌∙◌, ◌↔◌, inl, inr, String, Option, none, some, List, [], ◌∷◌, arith, In, All,
  Option-cases,
}
use udp_director.Result.{Error, Result, Result-cases, ok, err, panic, ◌>>=◌}
use udp_director.Kube.{Resource}
use udp_director.Kube.Extract.{extract_address}
use udp_director.Balancer.{with_address, gather}

module _ {A : Type 0} (g : String → Option A) where
  -- What a round that succeeds has done: passed the resource over, or put an item in front.
  data Round (m : Result String) (rest : Result (List A)) (out : List A) : Type 0 where
    no_address : (e : Error) → m ≡ err e → rest ≡ ok out → Round m rest out
    passed_over :
        (address : String) → m ≡ ok address → g address ≡ none → rest ≡ ok out → Round m rest out
    put :
        (address : String) (a : A) (later : List A)
        → m ≡ ok address
        → g address ≡ some a
        → rest ≡ ok later
        → a ∷ later ≡ out
        → Round m rest out

  Round-with :
      (address : String) (o : Option A) (rest : Result (List A)) (out : List A)
      → g address ≡ o
      → elim o [ none ↦ rest | some a ↦ rest >>= λ as'. ok (a ∷ as') ] ≡ ok out
      → Round (ok address) rest out
  Round-with address none rest out e h = passed_over address refl e h
  Round-with address (some a) (ok later) out e h = put address a later refl e refl (ground arith)
  Round-with address (some a) (err d) out e h = cc
  Round-with address (some a) panic out e h = cc

  Round-cases :
      (m : Result String) (rest : Result (List A)) (out : List A)
      → with_address m g rest ≡ ok out
      → Round m rest out
  Round-cases (ok address) rest out h = Round-with address (g address) rest out refl h
  Round-cases (err e) rest out h = no_address e refl h
  Round-cases panic rest out h = cc

module _ {A : Type 0} (path : String) (address_type : Option String)
    (f : Resource → String → Option A) where
  -- The item comes from one of the resources and the address extracted from it.
  pub record Comes (rs : List Resource) (a : A) : Type 0 where
    pub resource : Resource
    pub address : String
    pub listed : In resource rs
    pub extracted : extract_address resource path address_type ≡ ok address
    pub made : f resource address ≡ some a

  Comes-cons : {rs : List Resource} {a : A} (r : Resource) → Comes rs a → Comes (r ∷ rs) a
  Comes-cons r c = record {
    resource = c.resource;
    address = c.address;
    listed = inr c.listed;
    extracted = c.extracted;
    made = c.made;
  }

  pub gather-Comes :
      (rs : List Resource) (as' : List A)
      → gather path address_type f rs ≡ ok as'
      → (a : A) → In a as'
      → Comes rs a
  unfolding gather
  gather-Comes [] as' h a m = absurd (subst (In a) (nil_of h) m)
    where
      nil_of : ok [] ≡ ok as' → as' ≡ []
      nil_of e = ground arith
  gather-Comes (r ∷ rs) as' h a m =
      by_round
        (Round-cases (f r) (extract_address r path address_type) (gather path address_type f rs) as'
          h)
        (gather-Comes rs) m
    where
      by_round :
          Round (f r) (extract_address r path address_type) (gather path address_type f rs) as'
          → ((later : List A)
              → gather path address_type f rs ≡ ok later
              → (b : A) → In b later
              → Comes rs b)
          → In a as'
          → Comes (r ∷ rs) a
      by_round (no_address e q rest) ih i = Comes-cons r (ih as' rest a i)
      by_round (passed_over address q none_there rest) ih i = Comes-cons r (ih as' rest a i)
      by_round (put address b later q there rest same) ih i = first (subst (In a) (sym same) i)
        where
          first : In a (b ∷ later) → Comes (r ∷ rs) a
          first (inl e) = record {
            resource = r;
            address = address;
            listed = inl refl;
            extracted = q;
            made = there ∙ ap some e;
          }
          first (inr j) = Comes-cons r (ih later rest a j)

  -- Every resource with an address that makes an item has its item in the list.
  pub gather_complete :
      (rs : List Resource) (as' : List A)
      → gather path address_type f rs ≡ ok as'
      → (r : Resource) (address : String) (a : A) → In r rs
      → extract_address r path address_type ≡ ok address
      → f r address ≡ some a
      → In a as'
  unfolding gather
  gather_complete [] as' h r address a m x y = absurd m
  gather_complete (s ∷ rs) as' h r address a m x y =
      by_round
        (Round-cases (f s) (extract_address s path address_type) (gather path address_type f rs) as'
          h)
        (gather_complete rs) m
    where
      by_round :
          Round (f s) (extract_address s path address_type) (gather path address_type f rs) as'
          → ((later : List A)
              → gather path address_type f rs ≡ ok later
              → (r : Resource) (address : String) (a : A) → In r rs
              → extract_address r path address_type ≡ ok address
              → f r address ≡ some a
              → In a later)
          → In r (s ∷ rs)
          → In a as'
      by_round (no_address e q rest) ih (inl i) =
          absurd (cc (ap (λ t. extract_address t path address_type) i))
      by_round (no_address e q rest) ih (inr i) = ih as' rest r address a i x y
      by_round (passed_over d q none_there rest) ih (inl i) =
          let xs : extract_address s path address_type ≡ ok address = rw i x in
          let ys : f s address ≡ some a = rw i y in
          absurd (let same_address : d ≡ address = ground arith in cc)
      by_round (passed_over d q none_there rest) ih (inr i) = ih as' rest r address a i x y
      by_round (put d b later q there rest same) ih (inl i) =
          let xs : extract_address s path address_type ≡ ok address = rw i x in
          let ys : f s address ≡ some a = rw i y in
          let same_address : d ≡ address = ground arith in
          let same_item : b ≡ a = cc in subst (In a) same (inl same_item)
      by_round (put d b later q there rest same) ih (inr i) =
          subst (In a) same (inr (ih later rest r address a i x y))

  abbrev pub HasNoAddress : Resource → Type 0
  HasNoAddress r = (e : Error) × (extract_address r path address_type ≡ err e)

  pub gather-ne-err : (rs : List Resource) (e : Error) → gather path address_type f rs ≡ err e → ⊥
  unfolding gather
  gather-ne-err [] e h = cc
  gather-ne-err (r ∷ rs) e h = elim (Result-cases (extract_address r path address_type)) [
    | inl (address, x) ↦ elim (Option-cases (f r address)) [
      | inl y ↦ gather-ne-err rs e (ground arith)
      | inr (a, y) ↦ elim (Result-cases (gather path address_type f rs)) [
        | inl (later, z) ↦ absurd (ground arith)
        | inr (inl (d, z)) ↦ gather-ne-err rs d z
        | inr (inr z) ↦ absurd (ground arith)
      ]
    ]
    | inr (inl (d, x)) ↦ gather-ne-err rs e (ground arith)
    | inr (inr x) ↦ absurd (ground arith)
  ]

  item_made :
      (r : Resource) (rs : List Resource) (address : String) (a : A)
      → extract_address r path address_type ≡ ok address
      → f r address ≡ some a
      → gather path address_type f (r ∷ rs) ≡ ok []
      → ⊥
  unfolding gather
  item_made r rs address a x y h = elim (Result-cases (gather path address_type f rs)) [
    | inl (later, z) ↦ ground arith
    | inr (inl (d, z)) ↦ ground arith
    | inr (inr z) ↦ ground arith
  ]

  -- Where every address makes an item, the list is empty just when no address can be extracted.
  pub gather-eq-nil :
      ((r : Resource) (address : String) → (a : A) × (f r address ≡ some a))
      → (rs : List Resource) → (gather path address_type f rs ≡ ok []) ↔ All HasNoAddress rs
  unfolding gather
  gather-eq-nil makes [] = (λ _. tt, λ _. refl)
  gather-eq-nil makes (r ∷ rs) = elim (Result-cases (extract_address r path address_type)) [
    | inl (address, x) ↦
        let (a, y) = makes r address in
        (λ h. absurd (item_made r rs address a x y h), λ h. absurd (cc (h.0.1)))
    | inr (inl (d, x)) ↦
        rw x ((λ h. ((d, refl), (gather-eq-nil makes rs).0 h), λ h. (gather-eq-nil makes rs).1 h.1))
    | inr (inr x) ↦ (λ h. absurd (ground arith), λ h. absurd (cc (h.0.1)))
  ]
