-- ===== src/Kube/Path.antt =====
-- k8s_client.rs: `extract_json_path`. A part with "[" is cut at the byte before its end, whatever
-- stands there, and the cut panics where no byte or no whole character is left.
use udp_director.Prelude.{ℕ, ◌^◌, String, Option, none, some, List, [], ◌∷◌}
use udp_director.Text.{split, cut, but_last_byte, parse_unsigned}
use udp_director.Result.{Result, ok, panic, ◌>>=◌}
use udp_director.Json.{Value, get_field, get_index}

abbrev pub element : Option Value → Option ℕ → Option Value
element (some v) (some n) = get_index n v
element _ _ = none

-- `text.parse::<usize>()`
abbrev pub parse_usize : String → Option ℕ
parse_usize text = parse_unsigned (2 ^ 64) text

abbrev pub indexed : Value → String → Option String → Result (Option Value)
indexed current field none = panic
indexed current field (some index) = ok (element (get_field field current) (parse_usize index))

abbrev pub child_at : Value → String → Option (String × String) → Result (Option Value)
child_at current part none = ok (get_field part current)
child_at current part (some (field, after)) = indexed current field (but_last_byte after)

-- One part of the path.
unfoldable pub child : Value → String → Result (Option Value)
child current part = child_at current part (cut b'[' part)

unfoldable pub walk : Value → List String → Result (Option Value)
walk current [] = ok (some current)
walk current (part ∷ parts) = do
  next ← child current part
  elim next [ none ↦ ok none | some v ↦ walk v parts ]

unfoldable pub extract_json_path : Value → String → Result (Option Value)
unfolding walk child
extract_json_path json path = walk json (split b'.' path)
