-- ===== src/Characters/Allocation.antt =====
-- characters.rs and k8s_client.rs: what a Pod shows after the label of a character was set.
use Prim.Native.String
use udp_director.Prelude.{
  ℕ, suc, ◌+◌, ◌≤◌, ◌≡◌, refl, inl, inr, String, false, Option, none, some, List, [], ◌∷◌, ◌==◌,
  string_eq, All-In, In, arith, length, Bool-cases, Option-cases, eq_iff,
}
use udp_director.Prelude.Maps.{Map, insert, Lacks, HasDistinctKeys}
use udp_director.Config.{Config}
use udp_director.Characters.{Character, Formats, push, label_prefix, character_of, shown}
use udp_director.Characters.Listing.{In-shown→}
use udp_director.Characters.Shown.{character_of-Shown}

length-push : (o : Option Character) (cs : List Character) → length (push o cs) ≤ suc (length cs)
length-push none cs = omega arith
length-push (some c) cs = omega arith

length-push_least : (o : Option Character) (cs : List Character) → length cs ≤ length (push o cs)
length-push_least none cs = omega arith
length-push_least (some c) cs = omega arith

length-push_mono :
    (o : Option Character) (cs ds : List Character) (n : ℕ)
    → length cs ≤ n + length ds
    → length (push o cs) ≤ n + length (push o ds)
length-push_mono none cs ds n h = h
length-push_mono (some c) cs ds n h = omega arith

module _ (formats : Formats) (config : Config) (times : Map String String) (requested : List String)
    (now : ℕ) (key value : String) where
  abbrev shown_by : Map String String → List Character
  shown_by = shown formats config times now requested

  abbrev shown_at : String → String → Option Character
  shown_at = character_of formats config times now requested

  -- One label more or other shows at most one character more.
  pub length-shown-insert :
      (labels : Map String String)
      → length (shown_by (insert key value labels)) ≤ suc (length (shown_by labels))
  unfolding shown insert
  length-shown-insert [] = length-push (shown_at key value) []
  length-shown-insert ((k, v) ∷ labels) = elim (Bool-cases (k == key)) [
    | inl same ↦
        let least = length-push_least (shown_at k v) (shown_by labels) in
        let most = length-push (shown_at key value) (shown_by labels) in rw same (omega arith)
    | inr other ↦
        let rest = length-shown-insert labels in
        let both =
          length-push_mono (shown_at k v) (shown_by (insert key value labels)) (shown_by labels) 1
            (omega arith) in
        rw other (omega arith)
  ]

  Lacks-not_shown :
      (labels : Map String String) (c : Character)
      → Lacks key labels
      → key ≡ String.◌++◌ (label_prefix config) c.character_id
      → ¬ In c (shown_by labels)
  Lacks-not_shown labels c lacks is m =
      let (label, i, v) = In-shown→ formats config times requested now c labels m in
      let other = All-In (λ entry. (entry.0 == key) ≡ false) label labels lacks i in
      absurd (ground (arith, eq_iff label.0 key, v.key, is, other))

  In-shown_rest :
      (k v : String) (labels : Map String String) (c : Character)
      → (k == key) ≡ false
      → key ≡ String.◌++◌ (label_prefix config) c.character_id
      → (o : Option Character) → shown_at k v ≡ o
      → In c (push o (shown_by labels))
      → In c (shown_by labels)
  In-shown_rest k v labels c other is none q m = m
  In-shown_rest k v labels c other is (some d) q (inr m) = m
  In-shown_rest k v labels c other is (some d) q (inl same) =
      let shows = character_of-Shown formats config times requested now k v d q in
      absurd (ground (arith, eq_iff k key, shows.key, is, same))

  -- Where each key stands once, the label of a character that is shown already shows none besides.
  pub length-shown-insert_held :
      (labels : Map String String) (c : Character)
      → HasDistinctKeys labels
      → In c (shown_by labels)
      → key ≡ String.◌++◌ (label_prefix config) c.character_id
      → length (shown_by (insert key value labels)) ≤ length (shown_by labels)
  unfolding shown insert
  length-shown-insert_held [] c h m is = absurd m
  length-shown-insert_held ((k, v) ∷ labels) c (lacks, h) m is = elim (Bool-cases (k == key)) [
    | inl same ↦
        let here : k ≡ key = (eq_iff k key).0 same in
        let none_later = Lacks-not_shown labels c (rw here at lacks) is in
        let most = length-push (shown_at key value) (shown_by labels) in
        rw same (elim (Option-cases (shown_at k v)) [
          | inl q ↦ absurd (none_later (rw q at m))
          | inr (d, q) ↦ rw q (omega arith)
        ])
    | inr other ↦
        let rest =
          length-shown-insert_held labels c h
            (In-shown_rest k v labels c other is (shown_at k v) refl m) is in
        let both =
          length-push_mono (shown_at k v) (shown_by (insert key value labels)) (shown_by labels) 0
            (omega arith) in
        rw other (omega arith)
  ]

pub In-insert :
    (key value : String) (labels : Map String String) → In (key, value) (insert key value labels)
unfolding insert
In-insert key value [] = inl refl
In-insert key value ((k, v) ∷ labels) = ground (arith, In-insert key value labels)
