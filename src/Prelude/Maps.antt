-- ===== src/Prelude/Maps.antt =====
-- Rust's `HashMap`, `BTreeMap` and `DashMap` as association lists in their order of iteration, which
-- the program does not rely on where the map is hashed. A key occurs once in a map built by `insert`.
use mathlib.Core.Path.{◌≡◌, refl}
use mathlib.Core.Logic.{inl, inr}
use mathlib.Core.Bool.{Bool, true, false}
use mathlib.Core.List.{List, [], ◌∷◌}
use mathlib.Core.Option
use mathlib.Core.Option.{Option, none, some}
use native.Mathlib.Omega.{arith}
use udp_director.Prelude.Tests.{if◌then◌else◌, is_some, Bool-cases}
use udp_director.Prelude.Classes.{HasEquality, ◌==◌}
use udp_director.Prelude.Lists.{In, All}

abbrev pub Map {ℓ κ} : Type ℓ → Type κ → Type (ℓ ⊔ κ)
Map K V = List (K × V)

pub beq_refl {ℓ} : {K : Type ℓ} ⦃e : HasEquality K⦄ (k : K) → (k == k) ≡ true
beq_refl ⦃e⦄ k = (e.same_iff k k).1 refl

module _ {ℓ κ} {K : Type ℓ} {V : Type κ} ⦃e : HasEquality K⦄ where
  unfoldable pub lookup : K → Map K V → Option V
  lookup k [] = none
  lookup k ((j, v) ∷ m) = if j == k then some v else lookup k m

  unfoldable pub insert : K → V → Map K V → Map K V
  insert k v [] = (k, v) ∷ []
  insert k v ((j, w) ∷ m) = if j == k then (k, v) ∷ m else (j, w) ∷ insert k v m

  unfoldable pub remove : K → Map K V → Map K V
  remove k [] = []
  remove k ((j, w) ∷ m) = if j == k then remove k m else (j, w) ∷ remove k m

  -- `get_mut`, with what is done to the value.
  unfoldable pub adjust : K → (V → V) → Map K V → Map K V
  adjust k f [] = []
  adjust k f ((j, w) ∷ m) = if j == k then (j, f w) ∷ m else (j, w) ∷ adjust k f m

  abbrev pub contains_key : K → Map K V → Bool
  contains_key k m = is_some (lookup k m)

  -- A look-up after an insertion, of the key that was set or of another.
  pub lookup-insert :
      (set got : K) (value : V) (m : Map K V)
      → lookup got (insert set value m) ≡ (if set == got then some value else lookup got m)
  unfolding insert lookup
  lookup-insert set got value ((key, old) ∷ rest) = ground (
    arith,
    lookup-insert set got value rest,
    e.same_iff set got,
    e.same_iff key set,
    e.same_iff key got,
  )
  lookup-insert set got value [] = refl

  pub lookup-remove :
      (k j : K) (m : Map K V) → lookup j (remove k m) ≡ (if k == j then none else lookup j m)
  unfolding lookup remove
  lookup-remove k j [] = ground arith
  lookup-remove k j ((i, w) ∷ m) =
      ground (arith, e.same_iff k j, e.same_iff i k, e.same_iff i j, lookup-remove k j m)

  pub lookup-adjust :
      (k j : K) (f : V → V) (m : Map K V)
      → lookup j (adjust k f m) ≡ (if k == j then Option.map f (lookup j m) else lookup j m)
  unfolding lookup adjust
  lookup-adjust k j f [] = ground arith
  lookup-adjust k j f ((i, w) ∷ m) =
      ground (arith, e.same_iff k j, e.same_iff i k, e.same_iff i j, lookup-adjust k j f m)

  pub lookup-insert_self : (k : K) (v : V) (m : Map K V) → lookup k (insert k v m) ≡ some v
  lookup-insert_self k v m = rw (lookup-insert k k v m, beq_refl k)

  pub lookup-insert_ne :
      (k j : K) (v : V) (m : Map K V) → (k == j) ≡ false → lookup j (insert k v m) ≡ lookup j m
  lookup-insert_ne k j v m ne = rw (lookup-insert k j v m, ne)

module _ {K V : Type 0} ⦃e : HasEquality K⦄ where
  -- What a look-up finds stands in the map.
  pub lookup-In : (k : K) (v : V) (m : Map K V) → lookup k m ≡ some v → In (k, v) m
  unfolding lookup
  lookup-In k v [] h = absurd (ground arith)
  lookup-In k v ((j, w) ∷ m) h = ground (arith, e.same_iff j k, lookup-In k v m)

  -- A key that a map holds is found, if perhaps with an earlier value.
  pub In-contains_key : (k : K) (v : V) (m : Map K V) → In (k, v) m → contains_key k m ≡ true
  unfolding lookup
  In-contains_key k v ((j, w) ∷ m) (inl h) = ground (arith, e.same_iff j k)
  In-contains_key k v ((j, w) ∷ m) (inr h) = ground (arith, In-contains_key k v m h)
  In-contains_key k v [] h = absurd h

module _ {ℓ} {K : Type ℓ} ⦃e : HasEquality K⦄ where
  -- Entries that agree with one key differ from another that it differs from.
  beq_other : (i j k : K) → (i == k) ≡ true → (j == i) ≡ false → (j == k) ≡ false
  beq_other i j k h n = ground (arith, e.same_iff i k, e.same_iff j k, e.same_iff j i)

  beq_swap : (i k : K) → (i == k) ≡ false → (k == i) ≡ false
  beq_swap i k h = ground (arith, e.same_iff i k, e.same_iff k i)

-- No entry has the key; each key occurs once.
module _ {ℓ κ} {K : Type ℓ} {V : Type κ} ⦃e : HasEquality K⦄ where
  abbrev pub Lacks : K → Map K V → Type 0
  Lacks k m = All (λ entry. (entry.0 == k) ≡ false) m

  abbrev pub HasDistinctKeys : Map K V → Type 0
  HasDistinctKeys [] = Unit
  HasDistinctKeys ((k, v) ∷ m) = Lacks k m × HasDistinctKeys m

  Lacks-insert :
      (j k : K) (v : V) (m : Map K V) → (k == j) ≡ false → Lacks j m → Lacks j (insert k v m)
  unfolding insert
  Lacks-insert j k v [] ne h = (ne, tt)
  Lacks-insert j k v ((i, w) ∷ m) ne h = ground (arith, Lacks-insert j k v m ne h.1)

  Lacks-remove : (j k : K) (m : Map K V) → Lacks j m → Lacks j (remove k m)
  unfolding remove
  Lacks-remove j k [] h = tt
  Lacks-remove j k ((i, w) ∷ m) h = ground (arith, Lacks-remove j k m h.1)

  Lacks-adjust : (j k : K) (f : V → V) (m : Map K V) → Lacks j m → Lacks j (adjust k f m)
  unfolding adjust
  Lacks-adjust j k f [] h = tt
  Lacks-adjust j k f ((i, w) ∷ m) h = ground (arith, Lacks-adjust j k f m h.1)

  Lacks-of_beq : (i k : K) (m : Map K V) → (i == k) ≡ true → Lacks i m → Lacks k m
  Lacks-of_beq i k [] q h = tt
  Lacks-of_beq i k ((j, w) ∷ m) q h = (beq_other i j k q h.0, Lacks-of_beq i k m q h.1)

  pub insert-HasDistinctKeys :
      (k : K) (v : V) (m : Map K V) → HasDistinctKeys m → HasDistinctKeys (insert k v m)
  unfolding insert
  insert-HasDistinctKeys k v [] h = (tt, tt)
  insert-HasDistinctKeys k v ((i, w) ∷ m) h = elim (Bool-cases (i == k)) [
    | inl same ↦ rw same (Lacks-of_beq i k m same h.0, h.1)
    | inr other ↦
        rw other (Lacks-insert i k v m (beq_swap i k other) h.0, insert-HasDistinctKeys k v m h.1)
  ]

  pub remove-HasDistinctKeys :
      (k : K) (m : Map K V) → HasDistinctKeys m → HasDistinctKeys (remove k m)
  unfolding remove
  remove-HasDistinctKeys k [] h = tt
  remove-HasDistinctKeys k ((i, w) ∷ m) h =
      ground (arith, Lacks-remove i k m h.0, remove-HasDistinctKeys k m h.1)

  pub adjust-HasDistinctKeys :
      (k : K) (f : V → V) (m : Map K V) → HasDistinctKeys m → HasDistinctKeys (adjust k f m)
  unfolding adjust
  adjust-HasDistinctKeys k f [] h = tt
  adjust-HasDistinctKeys k f ((i, w) ∷ m) h =
      ground (arith, Lacks-adjust i k f m h.0, adjust-HasDistinctKeys k f m h.1)

  module _ {μ} (P : K × V → Type μ) where
    pub All-insert : (k : K) (v : V) (m : Map K V) → P (k, v) → All P m → All P (insert k v m)
    unfolding insert
    All-insert k v [] p h = (p, tt)
    All-insert k v ((i, w) ∷ m) p h = ground (arith, All-insert k v m p h.1)

    pub All-remove : (k : K) (m : Map K V) → All P m → All P (remove k m)
    unfolding remove
    All-remove k [] h = tt
    All-remove k ((i, w) ∷ m) h = ground (arith, All-remove k m h.1)

    pub All-adjust :
        (k : K) (f : V → V) (m : Map K V)
        → ((i : K) (w : V) → P (i, w) → P (i, f w))
        → All P m
        → All P (adjust k f m)
    unfolding adjust
    All-adjust k f [] p h = tt
    All-adjust k f ((i, w) ∷ m) p h = ground (arith, All-adjust k f m p h.1, p i w h.0)

    pub All-lookup : (k : K) (v : V) (m : Map K V) → All P m → lookup k m ≡ some v → P (k, v)
    unfolding lookup
    All-lookup k v [] h q = absurd (ground arith)
    All-lookup k v ((i, w) ∷ m) h q = elim (Bool-cases (i == k)) [
      | inl same ↦ let w_is : w ≡ v = ground arith in rw (← w_is, ← (e.same_iff i k).0 same) h.0
      | inr other ↦ All-lookup k v m h.1 (ground arith)
    ]

  -- From a property of the entries before a change to a property of those after it, by the entries
  -- with other keys and the one with the key.
  module _ {μ ν} (P : K × V → Type μ) (Q : K × V → Type ν) (k : K)
      (others : (i : K) (w : V) → (i == k) ≡ false → P (i, w) → Q (i, w)) where
    All-of_Lacks : (m : Map K V) → Lacks k m → All P m → All Q m
    All-of_Lacks [] n h = tt
    All-of_Lacks ((i, w) ∷ m) n h = (others i w n.0 h.0, All-of_Lacks m n.1 h.1)

    pub All-insert_change :
        (v : V) (m : Map K V) → HasDistinctKeys m → Q (k, v) → All P m → All Q (insert k v m)
    unfolding insert
    All-insert_change v [] d q h = (q, tt)
    All-insert_change v ((i, w) ∷ m) d q h = elim (Bool-cases (i == k)) [
      | inl same ↦ rw same (q, All-of_Lacks m (Lacks-of_beq i k m same d.0) h.1)
      | inr other ↦ rw other (others i w other h.0, All-insert_change v m d.1 q h.1)
    ]

    pub All-remove_change : (m : Map K V) → All P m → All Q (remove k m)
    unfolding remove
    All-remove_change [] h = tt
    All-remove_change ((i, w) ∷ m) h = elim (Bool-cases (i == k)) [
      | inl same ↦ rw same (All-remove_change m h.1)
      | inr other ↦ rw other (others i w other h.0, All-remove_change m h.1)
    ]

    pub All-adjust_change :
        (f : V → V) (m : Map K V)
        → HasDistinctKeys m
        → ((i : K) (w : V) → (i == k) ≡ true → P (i, w) → Q (i, f w))
        → All P m
        → All Q (adjust k f m)
    unfolding adjust
    All-adjust_change f [] d p h = tt
    All-adjust_change f ((i, w) ∷ m) d p h = elim (Bool-cases (i == k)) [
      | inl same ↦ rw same (p i w same h.0, All-of_Lacks m (Lacks-of_beq i k m same d.0) h.1)
      | inr other ↦ rw other (others i w other h.0, All-adjust_change f m d.1 p h.1)
    ]
