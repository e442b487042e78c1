-- ===== src/Kube/Walk.antt =====
-- k8s_client.rs: `extract_json_path` against a path as a list of steps.
use Prim.Native.Char.{Char, code}
use Prim.Native.String
use text.Mathlib.TextLemmas.{nil-append, cons-append}
use udp_director.Prelude.{
  ℕ, ◌^◌, ◌<◌, ◌≡◌, refl, ap, ◌∙◌, String, true, Option, none, some, List, [], ◌∷◌, map, arith, ltb,
  All, inl, inr, Option-cases,
}
use udp_director.Text.{split, cut, but_last_byte, digits, bounded, parse_unsigned}
use udp_director.Result.{ok}
use udp_director.Json.{Value, get_field}
use udp_director.Net.{show_from}
use udp_director.Net.Numbers.{
  Without, split_from-whole, split_from-at, digits-show_from, show_from-Without,
}
use udp_director.Net.RoundTrip.{Without-append}
use udp_director.Kube.Path.{element, child, walk, extract_json_path}

-- A field, or an element of the array in a field.
pub data PathStep : Type 0 where
  key : String → PathStep
  element_of : String → ℕ → PathStep

abbrev pub follow_step : Value → PathStep → Option Value
follow_step v (key k) = get_field k v
follow_step v (element_of k n) = element (get_field k v) (some n)

abbrev pub follow : Value → List PathStep → Option Value
follow v [] = some v
follow v (s ∷ ss) = elim (follow_step v s) [ none ↦ none | some w ↦ follow w ss ]

abbrev number_text : ℕ → String
number_text n = show_from 20 n String.[]

abbrev pub step_text : PathStep → String
step_text (key k) = k
step_text (element_of k n) =
    String.◌++◌ k (String.◌∷◌ "[" (String.◌++◌ (number_text n) (String.◌∷◌ "]" String.[])))

-- "status.ports[0].port" for three steps; a path has at least one.
abbrev pub path_text : PathStep → List PathStep → String
path_text s [] = step_text s
path_text s (t ∷ ts) = String.◌++◌ (step_text s) (String.◌∷◌ "." (path_text t ts))

-- Keys without dots and brackets, indices of 64 bits.
abbrev IsPlainKey : String → Type 0
IsPlainKey k = Without b'.' k × Without b'[' k

abbrev pub IsPlain : PathStep → Type 0
IsPlain (key k) = IsPlainKey k
IsPlain (element_of k n) = IsPlainKey k × (n < 2 ^ 64)

cut-none : (mark : ℕ) (s : String) → Without mark s → cut mark s ≡ none
unfolding cut
cut-none mark String.[] h = refl
cut-none mark (String.◌∷◌ c s) (ne, h) = rw (ne, cut-none mark s h) refl

cut-at :
    (mark : ℕ) (c : Char) (s rest : String)
    → code c ≡ mark
    → Without mark s
    → cut mark (String.◌++◌ s (String.◌∷◌ c rest)) ≡ some (s, rest)
unfolding cut
cut-at mark c String.[] rest is h = rw (nil-append (String.◌∷◌ c rest)) (ground (arith, is))
cut-at mark c (String.◌∷◌ d s) rest is (ne, h) =
    rw (cons-append d s (String.◌∷◌ c rest), ne, cut-at mark c s rest is h) refl

but_last_byte-append :
    (c : Char) (s : String)
    → ltb (code c) 0x80 ≡ true
    → but_last_byte (String.◌++◌ s (String.◌∷◌ c String.[])) ≡ some s
unfolding but_last_byte
but_last_byte-append c String.[] h = rw (nil-append (String.◌∷◌ c String.[]), but_last_byte, h) refl
but_last_byte-append c (String.◌∷◌ d String.[]) h =
    rw
      (
        cons-append d String.[] (String.◌∷◌ c String.[]),
        nil-append (String.◌∷◌ c String.[]),
        but_last_byte,
        h,
      )
      refl
but_last_byte-append c (String.◌∷◌ d (String.◌∷◌ e s)) h =
    let more = String.◌++◌ s (String.◌∷◌ c String.[]) in
    let shorter : but_last_byte (String.◌∷◌ e more) ≡ some (String.◌∷◌ e s) =
      rw (← cons-append e s (String.◌∷◌ c String.[])) (but_last_byte-append c (String.◌∷◌ e s) h) in
    rw
      (
        cons-append d (String.◌∷◌ e s) (String.◌∷◌ c String.[]),
        cons-append e s (String.◌∷◌ c String.[]),
      )
      (ground (arith, shorter))

parse_unsigned-digits :
    (limit : ℕ) (s : String) → Without b'+' s → parse_unsigned limit s ≡ bounded limit (digits s)
unfolding parse_unsigned digits
parse_unsigned-digits limit String.[] h = refl
parse_unsigned-digits limit (String.◌∷◌ c s) (ne, h) = rw ne refl

number-read : (n : ℕ) → n < 2 ^ 64 → parse_unsigned (2 ^ 64) (number_text n) ≡ some n
number-read n h =
    parse_unsigned-digits (2 ^ 64) (number_text n) (show_from-Without b'+' 20 n String.[] refl tt)
    ∙ ap (bounded (2 ^ 64)) (digits-show_from 19 n (omega (arith, h)))
    ∙ ground (arith, h)

child-key : (v : Value) (k : String) → Without b'[' k → child v k ≡ ok (get_field k v)
unfolding child
child-key v k h = rw (child, cut-none b'[' k h) refl

child-element :
    (v : Value) (k : String) (n : ℕ)
    → Without b'[' k
    → n < 2 ^ 64
    → child v (step_text (element_of k n)) ≡ ok (element (get_field k v) (some n))
unfolding child
child-element v k n h small =
    rw
      (
        child,
        cut-at b'[' "[" k (String.◌++◌ (number_text n) (String.◌∷◌ "]" String.[])) refl h,
        but_last_byte-append "]" (number_text n) refl,
        number-read n small,
      )
      refl

child-step : (v : Value) (s : PathStep) → IsPlain s → child v (step_text s) ≡ ok (follow_step v s)
child-step v (key k) h = child-key v k h.1
child-step v (element_of k n) (h, small) = child-element v k n h.1 small

step_text-Without : (s : PathStep) → IsPlain s → Without b'.' (step_text s)
step_text-Without (key k) h = h.0
step_text-Without (element_of k n) (h, small) =
    Without-append b'.' k (String.◌∷◌ "[" (String.◌++◌ (number_text n) (String.◌∷◌ "]" String.[])))
      h.0
      (
        refl,
        Without-append b'.' (number_text n) (String.◌∷◌ "]" String.[])
            (show_from-Without b'.' 20 n String.[] refl tt) (refl, tt),
      )

split-path_text :
    (s : PathStep) (ss : List PathStep)
    → IsPlain s
    → All IsPlain ss
    → split b'.' (path_text s ss) ≡ step_text s ∷ map step_text ss
unfolding split
split-path_text s [] h hs =
    rw
      (
        split_from-whole b'.' String.[] (step_text s) (step_text-Without s h),
        nil-append (step_text s),
      )
      refl
split-path_text s (t ∷ ts) h (k, ks) =
    rw
      (
        split_from-at b'.' "." String.[] (step_text s) (path_text t ts) refl
            (step_text-Without s h),
        nil-append (step_text s),
        split-path_text t ts k ks,
      )
      refl

walk-follow :
    (v : Value) (ss : List PathStep) → All IsPlain ss → walk v (map step_text ss) ≡ ok (follow v ss)
unfolding walk
walk-follow v [] h = refl
walk-follow v (s ∷ ss) (h, hs) = elim (Option-cases (follow_step v s)) [
  | inl q ↦ ground (arith, child-step v s h, q)
  | inr (w, q) ↦ ground (arith, child-step v s h, q, walk-follow w ss hs)
]

-- The walk along a path that is printed from keys without dots and brackets and from indices of 64
-- bits does not panic, and finds what the steps lead to, one by one.
pub extract_json_path-follow :
    (v : Value) (s : PathStep) (ss : List PathStep)
    → IsPlain s
    → All IsPlain ss
    → extract_json_path v (path_text s ss) ≡ ok (follow v (s ∷ ss))
unfolding extract_json_path
extract_json_path-follow v s ss h hs =
    rw (extract_json_path, split-path_text s ss h hs) (walk-follow v (s ∷ ss) (h, hs))
