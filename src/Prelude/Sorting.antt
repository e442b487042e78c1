-- ===== src/Prelude/Sorting.antt =====
-- Rust's stable `sort_by` and `sort_by_key`: an insertion sort by a Boolean order, and what holds of
-- the first item of its result.
use Prim.Native.Nat.{suc}
use mathlib.Core.Path.{◌≡◌, refl, ap}
use mathlib.Core.Logic.{inl, inr}
use mathlib.Core.Bool.{Bool, true, false}
use mathlib.Core.List.{List, [], ◌∷◌}
use native.Mathlib.Omega.{arith}
use udp_director.Prelude.Tests.{if◌then◌else◌, Bool-cases}
use udp_director.Prelude.Lists.{length, All, All-map_of, All-In, In}

-- A total preorder, as a sort's comparison function has to be.
pub record IsOrder {ℓ} {A : Type ℓ} (le : A → A → Bool) : Type ℓ where
  pub total : (a b : A) → le a b ≡ false → le b a ≡ true
  pub trans : (a b c : A) → le a b ≡ true → le b c ≡ true → le a c ≡ true

module _ {ℓ} {A : Type ℓ} (le : A → A → Bool) where
  -- An item goes before the first one that is not less than it, so equal items keep their order.
  unfoldable pub insert_sorted : A → List A → List A
  insert_sorted a [] = a ∷ []
  insert_sorted a (x ∷ xs) = if le a x then a ∷ x ∷ xs else x ∷ insert_sorted a xs

  unfoldable pub sort_by : List A → List A
  unfolding insert_sorted
  sort_by [] = []
  sort_by (x ∷ xs) = insert_sorted x (sort_by xs)

  abbrev pub IsSorted : List A → Type 0
  IsSorted [] = Unit
  IsSorted (x ∷ xs) = All (λ y. le x y ≡ true) xs × IsSorted xs

  length-insert_sorted : (a : A) (xs : List A) → length (insert_sorted a xs) ≡ suc (length xs)
  unfolding insert_sorted
  length-insert_sorted a [] = refl
  length-insert_sorted a (x ∷ xs) = ground (arith, length-insert_sorted a xs)

  pub length-sort_by : (xs : List A) → length (sort_by xs) ≡ length xs
  unfolding sort_by
  length-sort_by [] = refl
  length-sort_by (x ∷ xs) = ground (arith, length-insert_sorted x (sort_by xs), length-sort_by xs)

  All-insert_sorted {κ} :
      (P : A → Type κ) (a : A) (xs : List A) → P a → All P xs → All P (insert_sorted a xs)
  unfolding insert_sorted
  All-insert_sorted P a [] h hs = (h, tt)
  All-insert_sorted P a (x ∷ xs) h hs = ground (arith, All-insert_sorted P a xs h hs.1)

  insert_sorted-IsSorted :
      IsOrder le → (a : A) (xs : List A) → IsSorted xs → IsSorted (insert_sorted a xs)
  unfolding insert_sorted
  insert_sorted-IsSorted o a [] h = (tt, tt)
  insert_sorted-IsSorted o a (x ∷ xs) h = elim (Bool-cases (le a x)) [
    | inl below ↦ rw below ((below, All-map_of (λ y q. o.trans a x y below q) xs h.0), (h.0, h.1))
    | inr above ↦ rw above (
      All-insert_sorted (λ y. le x y ≡ true) a xs (o.total a x above) h.0,
      insert_sorted-IsSorted o a xs h.1,
    )
  ]

  pub sort_by-IsSorted : IsOrder le → (xs : List A) → IsSorted (sort_by xs)
  unfolding sort_by
  sort_by-IsSorted o [] = tt
  sort_by-IsSorted o (x ∷ xs) = insert_sorted-IsSorted o x (sort_by xs) (sort_by-IsSorted o xs)

module _ {A : Type 0} (le : A → A → Bool) where
  In-insert_sorted→ : (a b : A) (xs : List A) → In b (insert_sorted le a xs) → In b (a ∷ xs)
  unfolding insert_sorted
  In-insert_sorted→ a b [] m = m
  In-insert_sorted→ a b (x ∷ xs) m = ground (arith, In-insert_sorted→ a b xs)

  In-insert_sorted← : (a b : A) (xs : List A) → In b (a ∷ xs) → In b (insert_sorted le a xs)
  unfolding insert_sorted
  In-insert_sorted← a b [] m = m
  In-insert_sorted← a b (x ∷ xs) m = ground (arith, In-insert_sorted← a b xs)

  -- Sorting keeps the items.
  pub In-sort_by→ : (b : A) (xs : List A) → In b (sort_by le xs) → In b xs
  unfolding sort_by
  In-sort_by→ b [] m = m
  In-sort_by→ b (x ∷ xs) m =
      ground (arith, In-insert_sorted→ x b (sort_by le xs) m, In-sort_by→ b xs)

  pub In-sort_by← : (b : A) (xs : List A) → In b xs → In b (sort_by le xs)
  unfolding sort_by
  In-sort_by← b [] m = m
  In-sort_by← b (x ∷ xs) m =
      In-insert_sorted← x b (sort_by le xs) (ground (arith, In-sort_by← b xs))

  pub order_refl : IsOrder le → (x : A) → le x x ≡ true
  order_refl o x = elim (Bool-cases (le x x)) [ inl e ↦ e | inr e ↦ o.total x x e ]

  least_of_IsSorted :
      IsOrder le
      → (x b : A) (rest : List A) → IsSorted le (x ∷ rest)
      → In b (x ∷ rest)
      → le x b ≡ true
  least_of_IsSorted o x b rest h (inl e) = rw (← e) (order_refl o x)
  least_of_IsSorted o x b rest h (inr m) = All-In (λ y. le x y ≡ true) b rest h.0 m

  -- The first item after sorting is one of the items, and none is less.
  pub sort_by-least :
      IsOrder le
      → (x : A) (rest xs : List A) → sort_by le xs ≡ x ∷ rest
      → In x xs × ((b : A) → In b xs → le x b ≡ true)
  sort_by-least o x rest xs e = (
    In-sort_by→ x xs (rw e (inl refl)),
    λ b m.
        least_of_IsSorted o x b rest (rw e at (sort_by-IsSorted le o xs))
          (rw e at (In-sort_by← b xs m)),
  )

  -- Sorting yields nothing from nothing only.
  pub sort_by-eq-nil : (xs : List A) → sort_by le xs ≡ [] → xs ≡ []
  sort_by-eq-nil [] e = refl
  sort_by-eq-nil (x ∷ xs) e = absurd (omega (arith, ap length e, length-sort_by le (x ∷ xs)))
