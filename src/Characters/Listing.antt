-- ===== src/Characters/Listing.antt =====
-- characters.rs: which characters `characters_on_pod` lists, in both directions, and their order.
use udp_director.Prelude.{
  ℕ, ◌≡◌, refl, ap, ◌∙◌, ◌↔◌, inl, inr, String, some, List, [], ◌∷◌, string_eq, In, IsOrder,
  IsSorted, sort_by-IsSorted, In-sort_by→, In-sort_by←, Option-cases,
}
use udp_director.Prelude.Maps.{Map}
use udp_director.Text.Laws.{str_leb-IsOrder}
use udp_director.Config.{Config}
use udp_director.Kube.{Pod, entries}
use udp_director.Characters.{
  Character, Formats, id_leb, disconnect_times, character_of, shown, characters_on_pod,
}
use udp_director.Characters.Shown.{Shows, character_of-Shown, Shown-character_of}

module _ (formats : Formats) (config : Config) (times : Map String String) (requested : List String)
    (now : ℕ) where
  abbrev Shown : Character → String × String → Type 0
  Shown = Shows formats config times requested now

  -- Some label shows the character.
  abbrev pub ShownIn : Character → Map String String → Type 0
  ShownIn c labels = (label : String × String) × In label labels × Shown c label

  pub In-shown→ :
      (c : Character) (labels : Map String String)
      → In c (shown formats config times now requested labels)
      → ShownIn c labels
  unfolding shown
  In-shown→ c [] m = absurd m
  In-shown→ c ((key, value) ∷ labels) m =
      elim (Option-cases (character_of formats config times now requested key value)) [
        | inl e ↦ later (In-shown→ c labels (rw e at m))
        | inr (d, e) ↦ first d e (In-shown→ c labels) (rw e at m)
      ]
    where
      later : ShownIn c labels → ShownIn c ((key, value) ∷ labels)
      later (label, i, v) = (label, inr i, v)

      first :
          (d : Character)
          → character_of formats config times now requested key value ≡ some d
          → (In c (shown formats config times now requested labels) → ShownIn c labels)
          → In c (d ∷ shown formats config times now requested labels)
          → ShownIn c ((key, value) ∷ labels)
      first d e ih (inl same) = (
        (key, value),
        inl refl,
        character_of-Shown formats config times requested now key value c (e ∙ ap some same),
      )
      first d e ih (inr m) = later (ih m)

  In-shown← :
      (c : Character) (label : String × String) (labels : Map String String)
      → In label labels
      → Shown c label
      → In c (shown formats config times now requested labels)
  unfolding shown
  In-shown← c label [] m v = absurd m
  In-shown← c label ((key, value) ∷ labels) (inl e) v =
      rw (Shown-character_of formats config times requested now key value c (rw e v)) (inl refl)
  In-shown← c label ((key, value) ∷ labels) (inr m) v =
      let rest = In-shown← c label labels m v in
      elim (Option-cases (character_of formats config times now requested key value)) [
        | inl e ↦ rw e rest
        | inr (d, e) ↦ rw e (inr rest)
      ]

id_leb-IsOrder : IsOrder id_leb
id_leb-IsOrder = record {
  total = λ a b. str_leb-IsOrder.total a.character_id b.character_id;
  trans = λ a b c. str_leb-IsOrder.trans a.character_id b.character_id c.character_id;
}

module _ (formats : Formats) (pod : Pod) (config : Config) (requested : List String) (now : ℕ) where
  -- A character is listed for a Pod if and only if a label of the Pod shows it: the prefix and its
  -- valid id as the key, its status as the value, asked for where ids are given, and within 120
  -- seconds of the noted time where it is disconnected.
  pub characters_on_pod_iff :
      (c : Character)
      → In c (characters_on_pod formats pod config requested now)
        ↔ ShownIn formats config
            (disconnect_times formats pod config)
            requested
            now
            c
            (entries pod.labels)
  unfolding characters_on_pod
  characters_on_pod_iff c = (
    λ m. In-shown→ formats config _ requested now c (entries pod.labels) (In-sort_by→ id_leb c _ m),
    λ (label, m, v).
        In-sort_by← id_leb c _
          (In-shown← formats config _ requested now c label (entries pod.labels) m v),
  )

  -- The characters of a Pod are listed in the order of their ids.
  pub characters_on_pod-IsSorted :
      IsSorted id_leb (characters_on_pod formats pod config requested now)
  unfolding characters_on_pod
  characters_on_pod-IsSorted = sort_by-IsSorted id_leb id_leb-IsOrder _
