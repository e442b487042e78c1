-- ===== src/Characters/Shown.antt =====
-- characters.rs: when one label of a Pod shows a character.
use Prim.Native.String
use udp_director.Prelude.{
  ℕ, ◌+◌, ◌*◌, ◌≤◌, ◌<◌, ◌≡◌, refl, sym, ap, ◌∙◌, inl, inr, String, true, ◌||◌, Option, none, some,
  List, arith, ◌==◌, string_eq, eq_iff, any, Option-cases,
}
use udp_director.Prelude.Maps.{Map, lookup}
use udp_director.Text.{strip_prefix}
use udp_director.Text.Laws.{strip_prefix-append, strip_prefix-eq-some}
use udp_director.Config.{Config, is_nil}
use udp_director.Characters.Ids.{valid_character_id}
use udp_director.Characters.{
  CharacterStatus, allocated, used, disconnected, Character, Formats, status_of, label_prefix,
  reconnect_open, character_with, character_of, nanos_per_second, reconnect_seconds,
}

-- The value of a label for a status.
abbrev pub status_text : CharacterStatus → String
status_text allocated = "Allocated"
status_text used = "Used"
status_text disconnected = "Disconnected"

-- A disconnected character has a time of disconnect that parses, not in the future and less than 120
-- seconds ago; any other shows no time.
abbrev pub TimeFits :
    Formats → Map String String → ℕ → String → CharacterStatus → Option String → Type 0
TimeFits formats times now id allocated at = at ≡ none
TimeFits formats times now id used at = at ≡ none
TimeFits formats times now id disconnected at =
    (raw : String) × (time : ℕ) × (at ≡ some raw)
    × (lookup id times ≡ some raw)
    × (formats.parse_time raw ≡ some time)
    × (time ≤ now)
    × (now < time + reconnect_seconds * nanos_per_second)

-- What the label "prefix/id" with its value shows of a character.
pub record Shows (formats : Formats) (config : Config) (times : Map String String)
    (requested : List String) (now : ℕ) (c : Character) (label : String × String) : Type 0 where
  pub key : label.0 ≡ String.◌++◌ (label_prefix config) c.character_id
  pub value : label.1 ≡ status_text c.status
  pub valid : valid_character_id c.character_id ≡ true
  pub wanted : (is_nil requested || any (λ r. r == c.character_id) requested) ≡ true
  pub time : TimeFits formats times now c.character_id c.status c.disconnected_at

module _ (formats : Formats) (config : Config) (times : Map String String) (requested : List String)
    (now : ℕ) where
  abbrev Shown : Character → String × String → Type 0
  Shown = Shows formats config times requested now

  status_of-eq-some : (v : String) (s : CharacterStatus) → status_of v ≡ some s → v ≡ status_text s
  unfolding status_of
  status_of-eq-some v allocated h =
      ground (arith, eq_iff v "Allocated", eq_iff v "Used", eq_iff v "Disconnected")
  status_of-eq-some v used h =
      ground (arith, eq_iff v "Allocated", eq_iff v "Used", eq_iff v "Disconnected")
  status_of-eq-some v disconnected h =
      ground (arith, eq_iff v "Allocated", eq_iff v "Used", eq_iff v "Disconnected")

  status_of-status_text : (s : CharacterStatus) → status_of (status_text s) ≡ some s
  unfolding status_of
  status_of-status_text allocated = refl
  status_of-status_text used = refl
  status_of-status_text disconnected = refl

  abbrev Fits : String → CharacterStatus → Character → Type 0
  Fits id s c =
      (c.character_id ≡ id) × (c.status ≡ s) × TimeFits formats times now id s c.disconnected_at

  character_with-Fits :
      (id : String) (s : CharacterStatus) (c : Character)
      → character_with formats times now id (some s) ≡ some c
      → Fits id s c
  character_with-Fits id allocated c h = (ground arith, ground arith, ground arith)
  character_with-Fits id used c h = (ground arith, ground arith, ground arith)
  character_with-Fits id disconnected c h = elim (Option-cases (lookup id times)) [
    | inl e ↦ absurd (ground arith)
    | inr (raw, found) ↦ elim (Option-cases (formats.parse_time raw)) [
      | inl e ↦ absurd (ground arith)
      | inr (time, parsed) ↦ (
        ground arith,
        ground arith,
        (raw, time, ground arith, found, parsed, ground arith, ground arith),
      )
    ]
  ]

  pub character_of-Shown :
      (key value : String) (c : Character)
      → character_of formats config times now requested key value ≡ some c
      → Shown c (key, value)
  unfolding character_of
  character_of-Shown key value c h = elim (Option-cases (strip_prefix (label_prefix config) key)) [
    | inl e ↦ absurd (ground arith)
    | inr (id, stripped) ↦ elim (Option-cases (status_of value)) [
      | inl e ↦ absurd (ground arith)
      | inr (s, known) ↦
          let fits = character_with-Fits id s c (ground arith) in
          record {
            key =
                strip_prefix-eq-some (label_prefix config) key id stripped
                ∙ ap (String.◌++◌ (label_prefix config)) (sym fits.0);
            value = status_of-eq-some value s known ∙ ap status_text (sym fits.1);
            valid = rw fits.0 (ground arith);
            wanted = rw fits.0 (ground arith);
            time = rw (fits.0, fits.1) fits.2;
          }
    ]
  ]

  reconnect_open_of :
      (at time : ℕ)
      → at ≤ now
      → now < at + reconnect_seconds * nanos_per_second
      → reconnect_open now (some at) ≡ true
  reconnect_open_of at time h k = ground arith

  character_with_of :
      (c : Character)
      → TimeFits formats times now c.character_id c.status c.disconnected_at
      → character_with formats times now c.character_id (some c.status) ≡ some c
  character_with_of c h = with_status c c.status refl h
    where
      with_status :
          (c : Character) (s : CharacterStatus)
          → c.status ≡ s
          → TimeFits formats times now c.character_id s c.disconnected_at
          → character_with formats times now c.character_id (some s) ≡ some c
      with_status c allocated e h = ground arith
      with_status c used e h = ground arith
      with_status c disconnected e (raw, time, shown_at, found, parsed, past, open_still) =
          ground (arith, reconnect_open_of time time past open_still)

  pub Shown-character_of :
      (key value : String) (c : Character)
      → Shown c (key, value)
      → character_of formats config times now requested key value ≡ some c
  unfolding character_of
  Shown-character_of key value c v = rw v.key (
      rw (strip_prefix-append (label_prefix config) c.character_id) (
        rw v.value (
          ground (
            arith,
            v.valid,
            v.wanted,
            status_of-status_text c.status,
            character_with_of c v.time,
          ))))
