-- ===== src/Kube/Filters.antt =====
-- k8s_client.rs: which of the listed resources a query keeps.
use udp_director.Kube.Path.{extract_json_path}
use udp_director.Json.{Value, string, number, bool, null, array, object}
use udp_director.Prelude.{
  ap, ◌∙◌, ◌≡◌, ◌↔◌, inl, inr, String, Bool, true, false, Option, none, some, List, [], ◌∷◌, arith,
  In, In-retain→, In-retain←, Option-cases, refl, any-In, In-any, all-In, In-all, eq_iff, ◌==◌,
  string_eq,
}
use udp_director.Prelude.Maps.{Map, lookup}
use udp_director.Result.{ok}
use udp_director.Config.{ResourceMapping}
use udp_director.Result.{Result-cases}
use udp_director.Kube.{Resource, is_text}
use udp_director.Kube.Select.{
  StatusQuery, Listing, ListCall, api_resource, selector_of, matches_status_query,
  matches_annotation_selector, keep_if, filter_by_status, by_status, by_annotations,
  query_resources_snapshot, value_text, is_expected,
}

-- A value that has a text: a string itself, a number or a truth value as it is written.
abbrev pub IsTextOf : Value → String → Type 0
IsTextOf (string s) text = s ≡ text
IsTextOf (number n) text = n.text ≡ text
IsTextOf (bool true) text = "true" ≡ text
IsTextOf (bool false) text = "false" ≡ text
IsTextOf _ text = ⊥

-- The path leads to a value of the resource whose text is expected.
abbrev pub HasStatus : Resource → StatusQuery → Type 0
HasStatus r query =
    (json : Value) × ((value : Value) × ((text : String) × (r.json ≡ some json)
        × (extract_json_path json query.json_path ≡ ok (some value))
        × IsTextOf value text
        × In text query.expected_values))

-- Every annotation that is asked for stands in the resource with its value.
abbrev pub HasAnnotations : Resource → Map String String → Type 0
HasAnnotations r selector =
    (annotations : Map String String) × (r.annotations ≡ some annotations)
    × ((wanted : String × String)
        → In wanted selector
        → lookup wanted.0 annotations ≡ some wanted.1)

abbrev pub MeetsStatus : Option StatusQuery → Resource → Type 0
MeetsStatus none r = Unit
MeetsStatus (some query) r = HasStatus r query

abbrev pub MeetsAnnotations : Option (Map String String) → Resource → Type 0
MeetsAnnotations none r = Unit
MeetsAnnotations (some selector) r = HasAnnotations r selector

value_text→ : (v : Value) (text : String) → value_text (some v) ≡ some text → IsTextOf v text
value_text→ (string s) text h = cc
value_text→ (number n) text h = cc
value_text→ (bool true) text h = cc
value_text→ (bool false) text h = cc
value_text→ null text h = absurd cc
value_text→ (array vs) text h = absurd cc
value_text→ (object fs) text h = absurd cc

value_text← : (v : Value) (text : String) → IsTextOf v text → value_text (some v) ≡ some text
value_text← (string s) text h = ap some h
value_text← (number n) text h = ap some h
value_text← (bool true) text h = ap some h
value_text← (bool false) text h = ap some h
value_text← null text h = absurd h
value_text← (array vs) text h = absurd h
value_text← (object fs) text h = absurd h

is_expected→ :
    (expected : List String) (v : Option Value)
    → is_expected expected (value_text v) ≡ true
    → (value : Value) × ((text : String) × (v ≡ some value)
        × IsTextOf value text
        × In text expected)
is_expected→ expected none h = absurd cc
is_expected→ expected (some value) h = elim (Option-cases (value_text (some value))) [
  | inl q ↦ absurd (ground (arith, h, q))
  | inr (text, q) ↦
      let (e, m, same) = any-In (λ (e : String). e == text) expected (rw q at h) in
      (value, (text, refl, value_text→ value text q, rw (← (eq_iff e text).0 same) m))
]

is_expected← :
    (expected : List String) (value : Value) (text : String)
    → IsTextOf value text
    → In text expected
    → is_expected expected (value_text (some value)) ≡ true
is_expected← expected value text is m =
    rw (value_text← value text is)
      (In-any (λ (e : String). e == text) text expected m ((eq_iff text text).1 refl))

matches_status_query→ :
    (r : Resource) (query : StatusQuery)
    → matches_status_query r query ≡ ok true
    → HasStatus r query
unfolding matches_status_query
matches_status_query→ r query h = elim (Option-cases r.json) [
  | inl q ↦ absurd (ground (arith, h, q))
  | inr (json, q) ↦ elim (Result-cases (extract_json_path json query.json_path)) [
    | inr (inl (e, found)) ↦ absurd (ground (arith, h, q, found))
    | inr (inr found) ↦ absurd (ground (arith, h, q, found))
    | inl (v, found) ↦
        let expected : is_expected query.expected_values (value_text v) ≡ true =
          ground (arith, h, q, found) in
        let (value, (text, here, is, m)) = is_expected→ query.expected_values v expected in
        (json, (value, (text, q, found ∙ ap ok here, is, m)))
  ]
]

matches_status_query← :
    (r : Resource) (query : StatusQuery)
    → HasStatus r query
    → matches_status_query r query ≡ ok true
unfolding matches_status_query
matches_status_query← r query (json, (value, (text, q, found, is, m))) =
    rw (matches_status_query, q, found) (ap ok (is_expected← query.expected_values value text is m))

pub is_text_iff :
    (expected : String) (found : Option String)
    → (is_text expected found ≡ true) ↔ (found ≡ some expected)
is_text_iff expected none = (λ h. absurd cc, λ h. absurd cc)
is_text_iff expected (some actual) =
    (λ h. ap some ((eq_iff actual expected).0 h), λ h. (eq_iff actual expected).1 cc)

matches_annotation_selector→ :
    (r : Resource) (selector : Map String String)
    → matches_annotation_selector r selector ≡ true
    → HasAnnotations r selector
unfolding matches_annotation_selector
matches_annotation_selector→ r selector h = elim (Option-cases r.annotations) [
  | inl q ↦ absurd (ground (arith, h, q))
  | inr (annotations, q) ↦
      let each = rw (matches_annotation_selector, q) at h in
      (
        annotations,
        q,
        λ wanted m. (is_text_iff wanted.1 (lookup wanted.0 annotations)).0 (
            all-In (λ (w : String × String). is_text w.1 (lookup w.0 annotations)) selector each
              wanted m),
      )
]

matches_annotation_selector← :
    (r : Resource) (selector : Map String String)
    → HasAnnotations r selector
    → matches_annotation_selector r selector ≡ true
unfolding matches_annotation_selector
matches_annotation_selector← r selector (annotations, q, each) =
    rw (matches_annotation_selector, q)
      (In-all (λ (w : String × String). is_text w.1 (lookup w.0 annotations)) selector
        (λ w m. (is_text_iff w.1 (lookup w.0 annotations)).1 (each w m)))

In-keep_if :
    (query : StatusQuery) (r a : Resource) (rs rest : List Resource) (keep : Bool)
    → matches_status_query r query ≡ ok keep
    → (In a rest ↔ (In a rs × (matches_status_query a query ≡ ok true)))
    → In a (keep_if keep r rest) ↔ (In a (r ∷ rs) × (matches_status_query a query ≡ ok true))
In-keep_if query r a rs rest true q ih = (
  λ m. elim m [ inl e ↦ (inl e, rw (← e) q) | inr later ↦ (inr (ih.0 later).0, (ih.0 later).1) ],
  λ (m, t). elim m [ inl e ↦ inl e | inr later ↦ inr (ih.1 (later, t)) ],
)
In-keep_if query r a rs rest false q ih = (
  λ m. (inr (ih.0 m).0, (ih.0 m).1),
  λ (m, t). elim m [
    | inl e ↦
        let no : matches_status_query a query ≡ ok false = rw (← e) q in
        absurd (ground (arith, no, t))
    | inr later ↦ ih.1 (later, t)
  ],
)

filter_by_status_iff :
    (query : StatusQuery) (rs kept : List Resource) (a : Resource)
    → filter_by_status query rs ≡ ok kept
    → In a kept ↔ (In a rs × (matches_status_query a query ≡ ok true))
unfolding filter_by_status
filter_by_status_iff query [] kept a h =
    let is : [] ≡ kept = ground (arith, h) in rw (← is) ((λ m. absurd m), λ m. m.0)
filter_by_status_iff query (r ∷ rs) kept a h = elim (Result-cases (matches_status_query r query)) [
  | inr (inl (e, q)) ↦ absurd cc
  | inr (inr q) ↦ absurd cc
  | inl (keep, q) ↦ elim (Result-cases (filter_by_status query rs)) [
    | inr (inl (e, later)) ↦ absurd cc
    | inr (inr later) ↦ absurd cc
    | inl (rest, later) ↦
        let is : keep_if keep r rest ≡ kept = ground (arith, h, q, later) in
        rw (← is) (In-keep_if query r a rs rest keep q (filter_by_status_iff query rs rest a later))
  ]
]

by_status_iff :
    (status : Option StatusQuery) (rs kept : List Resource) (a : Resource)
    → by_status status rs ≡ ok kept
    → In a kept ↔ (In a rs × MeetsStatus status a)
by_status_iff none rs kept a h =
    let is : rs ≡ kept = ground (arith, h) in rw is ((λ m. (m, tt)), λ m. m.0)
by_status_iff (some query) rs kept a h =
    let iff = filter_by_status_iff query rs kept a h in
    (
      λ m. ((iff.0 m).0, matches_status_query→ a query (iff.0 m).1),
      λ (m, t). iff.1 (m, matches_status_query← a query t),
    )

by_annotations_iff :
    (annotations : Option (Map String String)) (rs : List Resource) (a : Resource)
    → In a (by_annotations annotations rs) ↔ (In a rs × MeetsAnnotations annotations a)
by_annotations_iff none rs a = ((λ m. (m, tt)), λ m. m.0)
by_annotations_iff (some selector) rs a = (
  λ m.
      let kept = In-retain→ (λ r. matches_annotation_selector r selector) a rs m in
      (kept.0, matches_annotation_selector→ a selector kept.1),
  λ (m, t).
      In-retain← (λ r. matches_annotation_selector r selector) a rs m
        (matches_annotation_selector← a selector t),
)

-- A query for resources that succeeds gives exactly those listed under its selector that have the
-- status and the annotations asked for.
pub query_resources_snapshot_iff :
    (list : ListCall) (namespace : String) (mapping : ResourceMapping) (status : Option StatusQuery)
    (labels annotations : Option (Map String String)) (resources : List Resource) (version : String)
    → query_resources_snapshot list namespace mapping status labels annotations
      ≡ ok (resources, version)
    → (listing : Listing) × (list namespace (api_resource mapping) (selector_of labels)
        ≡ some listing)
      × ((a : Resource)
          → In a resources
            ↔ (In a listing.items × MeetsStatus status a × MeetsAnnotations annotations a))
unfolding query_resources_snapshot
query_resources_snapshot_iff list namespace mapping status labels annotations resources version h =
    elim (Option-cases (list namespace (api_resource mapping) (selector_of labels))) [
      | inl q ↦ absurd cc
      | inr (listing, q) ↦ elim (Result-cases (by_status status listing.items)) [
        | inr (inl (e, s)) ↦ absurd cc
        | inr (inr s) ↦ absurd cc
        | inl (matching, s) ↦
            let is : by_annotations annotations matching ≡ resources = ground (arith, h, q, s) in
            (
              listing,
              q,
              λ a.
                  let status_of = by_status_iff status listing.items matching a s in
                  let annotated = by_annotations_iff annotations matching a in
                  rw (← is) (
                    λ m. (
                      (status_of.0 (annotated.0 m).0).0,
                      (status_of.0 (annotated.0 m).0).1,
                      (annotated.0 m).1,
                    ),
                    λ (m, t, u). annotated.1 (status_of.1 (m, t), u),
                  ),
            )
      ]
    ]
