-- ===== src/Query/Order.antt =====
-- query_server.rs: the preference among candidates, stated without the sort's key.
use udp_director.Prelude.{
  ℕ, suc, ◌<◌, ◌≡◌, refl, sym, ◌∙◌, ◌↔◌, ◌⊎◌, inl, inr, String, true, false, Option, none, some,
  List, [], ◌∷◌, arith, In, any-In, In-any, any, eq_iff, ◌==◌, string_eq, length, if◌then◌else◌,
  retain, Bool-cases,
}
use udp_director.Prelude.Maps.{lookup}
use udp_director.Text.{str_leb}
use udp_director.Config.{Config}
use udp_director.Kube.Filters.{is_text_iff}
use udp_director.Kube.{Pod, entries, pod_draining}
use udp_director.Characters.{Character}
use udp_director.Query.{
  Candidate, holds_character, has_room, friends_on, is_one_of, uid_leb, candidate_leb,
}

-- The candidate shows the character.
abbrev pub Holds : String → Candidate → Type 0
Holds character c = (h : Character) × In h c.characters × (h.character_id ≡ character)

-- It shows the character, or fewer than the maximum.
abbrev pub HasRoom : Config → String → Candidate → Type 0
HasRoom config character c =
    Holds character c ⊎ (length c.characters < config.max_characters_per_server)

abbrev pub IsDraining : Pod → Type 0
IsDraining pod = lookup "udp-director.io/draining" (entries pod.labels) ≡ some "true"

-- How many of the characters are friends.
abbrev pub friends_among : List String → List Character → ℕ
friends_among ids [] = 0
friends_among ids (c ∷ cs) =
    if any (λ i. i == c.character_id) ids then suc (friends_among ids cs) else friends_among ids cs

abbrev pub UidBefore : Option String → Option String → Type 0
UidBefore none b = Unit
UidBefore (some a) none = ⊥
UidBefore (some a) (some b) = str_leb a b ≡ true

-- Equal in whether they show the character.
abbrev pub HoldsLike : String → Candidate → Candidate → Type 0
HoldsLike character a b =
    (Holds character a × Holds character b) ⊎ ((¬ Holds character a) × (¬ Holds character b))

-- The one that shows the character comes first, then the one with more friends, then the one with
-- fewer characters, then the one with the lesser identity.
abbrev pub ComesFirst : String → List String → Candidate → Candidate → Type 0
ComesFirst character ids a b =
    (Holds character a × (¬ Holds character b))
    ⊎ (HoldsLike character a b
        × ((friends_among ids b.characters < friends_among ids a.characters)
            ⊎ ((friends_among ids a.characters ≡ friends_among ids b.characters)
                × ((length a.characters < length b.characters)
                    ⊎ ((length a.characters ≡ length b.characters)
                        × UidBefore a.pod.uid b.pod.uid)))))

Holds-iff :
    (character : String) (c : Candidate) → (holds_character character c ≡ true) ↔ Holds character c
unfolding holds_character
Holds-iff character c = (
  λ h.
      let (x, m, same) = any-In (λ (x : Character). x.character_id == character) c.characters h in
      (x, m, (eq_iff x.character_id character).0 same),
  λ (x, m, same).
      In-any (λ (x : Character). x.character_id == character) x c.characters m
        ((eq_iff x.character_id character).1 same),
)

Holds-not :
    (character : String) (c : Candidate) → holds_character character c ≡ false → ¬ Holds character c
Holds-not character c h held =
    let yes = (Holds-iff character c).1 held in absurd (ground (arith, h, yes))

pub has_room_iff :
    (config : Config) (character : String) (c : Candidate)
    → (has_room config character c ≡ true) ↔ HasRoom config character c
unfolding has_room
has_room_iff config character c = elim (Bool-cases (holds_character character c)) [
  | inl held ↦ (λ _. inl ((Holds-iff character c).0 held), λ _. rw (has_room, held) refl)
  | inr new ↦ (
    λ h. inr (ground (arith, h, new)),
    λ room. elim room [
      | inl held ↦ absurd (Holds-not character c new held)
      | inr space ↦ ground (arith, space, new)
    ],
  )
]

pub IsDraining-iff : (pod : Pod) → (pod_draining pod ≡ true) ↔ IsDraining pod
unfolding pod_draining
IsDraining-iff pod = is_text_iff "true" (lookup "udp-director.io/draining" (entries pod.labels))

friends_lem :
    (ids : List String) (cs : List Character)
    → length (retain (λ (h : Character). is_one_of ids h.character_id) cs) ≡ friends_among ids cs
unfolding retain
friends_lem ids [] = refl
friends_lem ids (c ∷ cs) = elim (Bool-cases (is_one_of ids c.character_id)) [
  | inl friend ↦ rw (friend, friends_lem ids cs) refl
  | inr other ↦ rw (other, friends_lem ids cs) refl
]

friends_on_lem :
    (ids : List String) (c : Candidate) → friends_on ids c ≡ friends_among ids c.characters
unfolding friends_on
friends_on_lem ids c = friends_lem ids c.characters

uid_before : (a b : Option String) → uid_leb a b ≡ true → UidBefore a b
uid_before none b h = tt
uid_before (some a) none h = absurd cc
uid_before (some a) (some b) h = h

-- The last two parts of the key.
fewer_first :
    (character : String) (ids : List String) (a b : Candidate)
    → holds_character character a ≡ holds_character character b
    → candidate_leb character ids a b ≡ true
    → (friends_on ids b < friends_on ids a)
      ⊎ ((friends_on ids a ≡ friends_on ids b)
          × ((length a.characters < length b.characters)
              ⊎ ((length a.characters ≡ length b.characters)
                  × (uid_leb a.pod.uid b.pod.uid ≡ true))))
unfolding candidate_leb
fewer_first character ids a b same h = ground (arith, same, h)

ComesFirst-alike :
    (character : String) (ids : List String) (a b : Candidate)
    → HoldsLike character a b
    → holds_character character a ≡ holds_character character b
    → candidate_leb character ids a b ≡ true
    → ComesFirst character ids a b
ComesFirst-alike character ids a b like same h = inr (
  like,
  rw (← friends_on_lem ids a, ← friends_on_lem ids b)
      (elim (fewer_first character ids a b same h) [
        | inl more ↦ inl more
        | inr (friends, inl fewer) ↦ inr (friends, inl fewer)
        | inr (friends, inr (many, uid)) ↦
            inr (friends, inr (many, uid_before a.pod.uid b.pod.uid uid))
      ]),
)

holder_first :
    (character : String) (ids : List String) (a b : Candidate)
    → holds_character character a ≡ false
    → holds_character character b ≡ true
    → candidate_leb character ids a b ≡ false
unfolding candidate_leb
holder_first character ids a b p q = rw (candidate_leb, p, q) refl

pub candidate_leb-ComesFirst :
    (character : String) (ids : List String) (a b : Candidate)
    → candidate_leb character ids a b ≡ true
    → ComesFirst character ids a b
candidate_leb-ComesFirst character ids a b h = elim (Bool-cases (holds_character character a)) [
  | inl p ↦ elim (Bool-cases (holds_character character b)) [
    | inl q ↦
        ComesFirst-alike character ids a b
          (inl ((Holds-iff character a).0 p, (Holds-iff character b).0 q)) (p ∙ sym q) h
    | inr q ↦ inl ((Holds-iff character a).0 p, Holds-not character b q)
  ]
  | inr p ↦ elim (Bool-cases (holds_character character b)) [
    | inl q ↦ absurd (ground (arith, h, holder_first character ids a b p q))
    | inr q ↦
        ComesFirst-alike character ids a b (inr (Holds-not character a p, Holds-not character b q))
          (p ∙ sym q) h
  ]
]
