-- ===== src/Prelude/Lists.antt =====
-- Lists measured by native numbers, searched and filtered by Boolean tests.
use Prim.Native.Nat.{ℕ, zero, suc, ◌+◌}
use mathlib.Core.Path.{◌≡◌, refl, subst}
use mathlib.Core.Logic.{◌⊎◌, inl, inr}
use mathlib.Core.Bool.{Bool, true, false, ◌&&◌, ◌||◌}
use mathlib.Core.List.{List, [], ◌∷◌, ◌++◌}
use mathlib.Core.Option.{Option, none, some}
use native.Mathlib.Omega.{arith}
use udp_director.Prelude.Tests.{if◌then◌else◌, Bool-cases}

module _ {ℓ} {A : Type ℓ} where
  abbrev pub length : List A → ℕ
  length [] = 0
  length (x ∷ xs) = suc (length xs)

  abbrev pub head? : List A → Option A
  head? [] = none
  head? (x ∷ xs) = some x

  abbrev pub get_elem? : List A → ℕ → Option A
  get_elem? [] i = none
  get_elem? (x ∷ xs) zero = some x
  get_elem? (x ∷ xs) (suc i) = get_elem? xs i

  pub length-append : (xs ys : List A) → length (xs ++ ys) ≡ length xs + length ys
  length-append [] ys = omega arith
  length-append (x ∷ xs) ys = omega (arith, length-append xs ys)

  -- Rust's `any`, `all`, `filter` and `retain`, over a Boolean test.
  unfoldable pub any : (A → Bool) → List A → Bool
  any p [] = false
  any p (x ∷ xs) = p x || any p xs

  unfoldable pub all : (A → Bool) → List A → Bool
  all p [] = true
  all p (x ∷ xs) = p x && all p xs

  unfoldable pub retain : (A → Bool) → List A → List A
  retain p [] = []
  retain p (x ∷ xs) = if p x then x ∷ retain p xs else retain p xs

module _ {ℓ κ} {A : Type ℓ} where
  -- A predicate on every item; it computes to a tuple.
  abbrev pub All : (A → Type κ) → List A → Type κ
  All P [] = Unit
  All P (x ∷ xs) = P x × All P xs

  pub All-retain : (P : A → Type κ) (p : A → Bool) (xs : List A) → All P xs → All P (retain p xs)
  unfolding retain
  All-retain P p [] h = tt
  All-retain P p (x ∷ xs) h = ground (arith, All-retain P p xs h.1)

  pub All-map_of : {P Q : A → Type κ} (f : (a : A) → P a → Q a) (xs : List A) → All P xs → All Q xs
  All-map_of f [] h = tt
  All-map_of f (x ∷ xs) h = (f x h.0, All-map_of f xs h.1)

module _ {A : Type 0} where
  -- The items of a list, as a relation that can be taken apart.
  abbrev pub In : A → List A → Type 0
  In a [] = ⊥
  In a (x ∷ xs) = (x ≡ a) ⊎ In a xs

  pub All-In : (P : A → Type 0) (a : A) (xs : List A) → All P xs → In a xs → P a
  All-In P a (x ∷ xs) h (inl e) = subst P e h.0
  All-In P a (x ∷ xs) h (inr m) = All-In P a xs h.1 m
  All-In P a [] h m = absurd m

  pub In→All : (P : A → Type 0) (xs : List A) → ((a : A) → In a xs → P a) → All P xs
  In→All P [] f = tt
  In→All P (x ∷ xs) f = (f x (inl refl), In→All P xs (λ a m. f a (inr m)))

  In-retain_kept :
      (p : A → Bool) (a x : A) (xs : List A)
      → p x ≡ true
      → (In a (retain p xs) → In a xs × (p a ≡ true))
      → In a (x ∷ retain p xs)
      → In a (x ∷ xs) × (p a ≡ true)
  In-retain_kept p a x xs kept ih (inl e) = (inl e, rw (← e) kept)
  In-retain_kept p a x xs kept ih (inr m) = (inr (ih m).0, (ih m).1)

  pub In-retain→ :
      (p : A → Bool) (a : A) (xs : List A) → In a (retain p xs) → In a xs × (p a ≡ true)
  unfolding retain
  In-retain→ p a [] m = absurd m
  In-retain→ p a (x ∷ xs) m = elim (Bool-cases (p x)) [
    | inl kept ↦ In-retain_kept p a x xs kept (In-retain→ p a xs) (rw kept at m)
    | inr dropped ↦ let (i, q) = In-retain→ p a xs (rw dropped at m) in (inr i, q)
  ]

  pub In-retain← : (p : A → Bool) (a : A) (xs : List A) → In a xs → p a ≡ true → In a (retain p xs)
  unfolding retain
  In-retain← p a [] m q = absurd m
  In-retain← p a (x ∷ xs) (inl e) q = rw (e, q) (inl refl)
  In-retain← p a (x ∷ xs) (inr m) q = ground (arith, In-retain← p a xs m q)

  pub In-append_left : (a : A) (xs ys : List A) → In a xs → In a (xs ++ ys)
  In-append_left a [] ys m = absurd m
  In-append_left a (x ∷ xs) ys (inl e) = inl e
  In-append_left a (x ∷ xs) ys (inr m) = inr (In-append_left a xs ys m)

  pub In-append_right : (a : A) (xs ys : List A) → In a ys → In a (xs ++ ys)
  In-append_right a [] ys m = m
  In-append_right a (x ∷ xs) ys m = inr (In-append_right a xs ys m)

  pub any-In : (p : A → Bool) (xs : List A) → any p xs ≡ true → (a : A) × In a xs × (p a ≡ true)
  unfolding any
  any-In p [] h = absurd (ground arith)
  any-In p (x ∷ xs) h = elim (Bool-cases (p x)) [
    | inl hit ↦ (x, inl refl, hit)
    | inr miss ↦ let (a, m, q) = any-In p xs (rw miss at h) in (a, inr m, q)
  ]

  pub In-any : (p : A → Bool) (a : A) (xs : List A) → In a xs → p a ≡ true → any p xs ≡ true
  unfolding any
  In-any p a [] m q = absurd m
  In-any p a (x ∷ xs) (inl e) q = rw (e, q)
  In-any p a (x ∷ xs) (inr m) q = ground (arith, In-any p a xs m q)

  pub all-In : (p : A → Bool) (xs : List A) → all p xs ≡ true → (a : A) → In a xs → p a ≡ true
  unfolding all
  all-In p [] h a m = absurd m
  all-In p (x ∷ xs) h a (inl e) = ground arith
  all-In p (x ∷ xs) h a (inr m) = all-In p xs (ground arith) a m

  pub In-all : (p : A → Bool) (xs : List A) → ((a : A) → In a xs → p a ≡ true) → all p xs ≡ true
  unfolding all
  In-all p [] f = refl
  In-all p (x ∷ xs) f = ground (arith, f x (inl refl), In-all p xs (λ a m. f a (inr m)))
