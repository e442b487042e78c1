-- ===== src/Characters/Ids.antt =====
-- characters.rs: `valid_character_id`, and what an accepted id looks like.
use udp_director.Prelude.{
  ℕ, ◌≤◌, ◌≡◌, refl, ◌↔◌, ◌⊎◌, String, Bool, true, false, not, ◌&&◌, ◌||◌, List, [], ◌∷◌, arith,
  leb, nat_beq, length, all, In, all-In, In-all,
}
use udp_director.Text.{as_bytes, is_empty, is_ascii_alphanumeric}

abbrev pub first_or : ℕ → List ℕ → ℕ
first_or d [] = d
first_or d (x ∷ xs) = x

abbrev pub last_or : ℕ → List ℕ → ℕ
last_or d [] = d
last_or d (x ∷ xs) = last_or x xs

abbrev pub is_label_byte : ℕ → Bool
is_label_byte c = is_ascii_alphanumeric c || nat_beq c b'-' || nat_beq c b'_' || nat_beq c b'.'

-- The test over the bytes of an id; a byte is read at an index only behind the tests before it.
unfoldable pub is_label_name : List ℕ → Bool
is_label_name bytes =
    leb (length bytes) 63
    && is_ascii_alphanumeric (first_or 0 bytes)
    && is_ascii_alphanumeric (last_or 0 bytes)
    && all is_label_byte bytes

unfoldable pub valid_character_id : String → Bool
unfolding is_label_name
valid_character_id id = not (is_empty id) && is_label_name (as_bytes id)

-- A byte of an ASCII digit or letter, and one that a name may have inside.
abbrev pub IsAlphanumeric : ℕ → Type 0
IsAlphanumeric c = ((48 ≤ c) × (c ≤ 57)) ⊎ (((65 ≤ c) × (c ≤ 90)) ⊎ ((97 ≤ c) × (c ≤ 122)))

abbrev pub IsInside : ℕ → Type 0
IsInside c = IsAlphanumeric c ⊎ ((c ≡ 45) ⊎ ((c ≡ 95) ⊎ (c ≡ 46)))

abbrev pub BeginsWith : (ℕ → Type 0) → List ℕ → Type 0
BeginsWith P [] = ⊥
BeginsWith P (x ∷ xs) = P x

abbrev pub EndsWith : (ℕ → Type 0) → List ℕ → Type 0
EndsWith P [] = ⊥
EndsWith P (x ∷ []) = P x
EndsWith P (x ∷ y ∷ ys) = EndsWith P (y ∷ ys)

-- The name part of a Kubernetes label: 1 to 63 bytes, letters and digits at both ends, and letters,
-- digits, "-", "_" and "." between.
pub record IsLabelName (bytes : List ℕ) : Type 0 where
  pub at_most : length bytes ≤ 63
  pub first : BeginsWith IsAlphanumeric bytes
  pub last : EndsWith IsAlphanumeric bytes
  pub inside : (c : ℕ) → In c bytes → IsInside c

is_ascii_alphanumeric-IsAlphanumeric : (c : ℕ) → (is_ascii_alphanumeric c ≡ true) ↔ IsAlphanumeric c
is_ascii_alphanumeric-IsAlphanumeric c = ground arith

label_byte_iff : (c : ℕ) → (is_label_byte c ≡ true) ↔ IsInside c
label_byte_iff c = ground arith

first_iff :
    (bytes : List ℕ)
    → (is_ascii_alphanumeric (first_or 0 bytes) ≡ true) ↔ BeginsWith IsAlphanumeric bytes
first_iff [] = ground arith
first_iff (x ∷ xs) = is_ascii_alphanumeric-IsAlphanumeric x

last_iff :
    (bytes : List ℕ)
    → (is_ascii_alphanumeric (last_or 0 bytes) ≡ true) ↔ EndsWith IsAlphanumeric bytes
last_iff [] = ground arith
last_iff (x ∷ []) = is_ascii_alphanumeric-IsAlphanumeric x
last_iff (x ∷ y ∷ ys) = last_iff (y ∷ ys)

is_label_name→ : (bytes : List ℕ) → is_label_name bytes ≡ true → IsLabelName bytes
unfolding is_label_name
is_label_name→ bytes h = record {
  at_most = ground arith;
  first = (first_iff bytes).0 (ground arith);
  last = (last_iff bytes).0 (ground arith);
  inside = λ c m. (label_byte_iff c).0 (all-In is_label_byte bytes (ground arith) c m);
}

is_label_name← : (bytes : List ℕ) → IsLabelName bytes → is_label_name bytes ≡ true
unfolding is_label_name
is_label_name← bytes v =
    let first = (first_iff bytes).1 v.first in
    let last = (last_iff bytes).1 v.last in
    let inside = In-all is_label_byte bytes (λ c m. (label_byte_iff c).1 (v.inside c m)) in
    ground (arith, v.at_most, first, last, inside)

is_empty→ : (id : String) → is_empty id ≡ true → as_bytes id ≡ []
unfolding as_bytes
is_empty→ String.[] h = refl
is_empty→ (String.◌∷◌ c s) h = cc

valid_character_id→ : (id : String) → valid_character_id id ≡ true → IsLabelName (as_bytes id)
unfolding valid_character_id
valid_character_id→ id h = is_label_name→ (as_bytes id) (ground arith)

nonempty_of_IsLabelName : (id : String) → IsLabelName (as_bytes id) → is_empty id ≡ false
unfolding as_bytes
nonempty_of_IsLabelName String.[] v = absurd v.first
nonempty_of_IsLabelName (String.◌∷◌ c s) v = refl

valid_character_id← : (id : String) → IsLabelName (as_bytes id) → valid_character_id id ≡ true
unfolding valid_character_id
valid_character_id← id v =
    ground (arith, nonempty_of_IsLabelName id v, is_label_name← (as_bytes id) v)

-- An id is accepted if and only if it has 1 to 63 bytes, begins and ends with an ASCII letter or digit
-- and has none but those, dashes, underscores and dots inside.
pub valid_character_id_iff :
    (id : String) → (valid_character_id id ≡ true) ↔ IsLabelName (as_bytes id)
valid_character_id_iff id = (valid_character_id→ id, valid_character_id← id)
