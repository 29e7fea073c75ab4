-- ===== src/Saga/JsonPath.antt =====
-- saga/jsonpath.go: the paths that poll results are looked up by. An error of the lookup is `none`:
-- the only caller drops its text.
use Prim.Native.String.{◌++◌}
use Prim.Native.Char.{Char}
use nsp_platform.Base.{
  ℕ, String, Bool, true, false, not, ◌&&◌, ◌||◌, List, [], ◌∷◌, Option, none, some, str_eq,
  if◌then◌else◌,
}
use nsp_platform.Base.Int.{ℤ, pos, negsuc}
use nsp_platform.Base.Text.{is_empty, is_char, has_char, split_at, atoi, show_int, show_bool, texts}
use nsp_platform.Json.{
  Value, null, bool, int, float, str, arr, obj, Items, Fields, Object, get, get_elem?, Codec,
}
use nsp_platform.Saga.Definition.{Step}

-- Append the builder's text to the parts, unless it is empty.
abbrev flush : String → List String → List String
flush String.[] parts = parts
flush (String.◌∷◌ c s) parts = String.◌∷◌ c s ∷ parts

abbrev snoc : String → Char → String
snoc s c = s ++ String.◌∷◌ c String.[]

-- Outside brackets, or inside with the index read so far.
pub data Mode : Type 0 where
  outside : Mode
  inside : String → Mode

-- The loop of `parseJSONPathParts` from some position on, with the text of the builder. At a `[`
-- the code looks for the next `]`; the model remembers that it is between the two.
parts_from : Mode → String → String → List String
parts_from outside current String.[] = flush current []
parts_from (inside index) current String.[] = flush current []
parts_from outside current (String.◌∷◌ c s) =
    let dot = parts_from outside "" s in
    let bracket = parts_from (inside "") current s in
    let other = parts_from outside (snoc current c) s in
    elim (is_char b'.' c) [
      | true ↦ flush current dot
      | false ↦ elim (is_char b'[' c) [
        | true ↦ elim (has_char b']' s) [
          | true ↦ bracket
          | false ↦ flush (current ++ String.◌∷◌ c s) []
        ]
        | false ↦ other
      ]
    ]
parts_from (inside index) current (String.◌∷◌ c s) =
    let alone = parts_from outside "" s in
    let joined = parts_from outside (texts (current ∷ "[" ∷ index ∷ "]" ∷ [])) s in
    let more = parts_from (inside (snoc index c)) current s in
    elim (is_char b']' c) [
      | true ↦ elim (is_empty current) [ true ↦ index ∷ alone | false ↦ joined ]
      | false ↦ more
    ]

unfoldable pub parse_json_path_parts : String → List String
unfolding parts_from
parse_json_path_parts path = parts_from outside "" path

-- `items[0]` as its index and its base; `none` where the code says `hasIndex == false`.
unfoldable pub parse_array_index : String → Option (ℤ × String)
unfolding split_at has_char atoi
parse_array_index part = elim (split_at b'[' part) [
  | none ↦ none
  | some (base, rest) ↦ elim (has_char b']' base) [
    | true ↦ none
    | false ↦ elim (split_at b']' rest) [
      | none ↦ none
      | some (index, _) ↦ elim (is_empty index) [
        | true ↦ none
        | false ↦ elim (atoi index) [ none ↦ none | some i ↦ some (i, base) ]
      ]
    ]
  ]
]

-- `arr[i]` behind the bounds check.
abbrev pub index_items : Items → ℤ → Option Value
index_items vs (pos n) = get_elem? vs n
index_items vs (negsuc n) = none

abbrev pub items_of : Option Value → Option Items
items_of (some (arr vs)) = some vs
items_of _ = none

-- One part of a path in a map.
unfoldable pub step_into_map : Fields → String → Option Value
unfolding parse_array_index get get_elem?
step_into_map m part = elim (parse_array_index part) [
  | none ↦ get part m
  | some (i, base) ↦ elim (items_of (get base m)) [ none ↦ none | some vs ↦ index_items vs i ]
]

navigate_part : Value → String → Option Value
unfolding step_into_map atoi
navigate_part (obj m) part = step_into_map m part
navigate_part (arr vs) part = elim (atoi part) [ none ↦ none | some i ↦ index_items vs i ]
navigate_part _ part = none

navigate : Value → List String → Option Value
unfolding navigate_part
navigate current [] = some current
navigate current (part ∷ parts) = elim (navigate_part current part) [
  | none ↦ none
  | some v ↦ navigate v parts
]

-- `strings.TrimPrefix`, one character, with whether it was there.
abbrev skip_char : ℕ → String → String
skip_char k String.[] = String.[]
skip_char k (String.◌∷◌ c s) = if is_char k c then s else String.◌∷◌ c s

-- A leading `$.`, or `$`, is dropped.
strip_root : String → String
strip_root String.[] = String.[]
strip_root (String.◌∷◌ c s) = if is_char b'$' c then skip_char b'.' s else String.◌∷◌ c s

module _ (codec : Codec) where
  unfoldable pub json_value_to_string : Value → String
  unfolding show_int
  json_value_to_string (str s) = s
  json_value_to_string (float bits) = codec.float_text bits
  json_value_to_string (int n) = show_int n
  json_value_to_string (bool b) = show_bool b
  json_value_to_string null = ""
  json_value_to_string v = codec.sprint v

  abbrev text_of : Option Value → Option String
  text_of none = none
  text_of (some v) = some (json_value_to_string v)

  abbrev along : Value → List String → Option String
  along v [] = none
  along v (part ∷ parts) = text_of (navigate v (part ∷ parts))

  unfoldable pub extract_by_path : Object → String → Option String
  unfolding parse_json_path_parts navigate strip_root json_value_to_string
  extract_by_path none path = none
  extract_by_path (some m) path =
      if is_empty path || is_empty (strip_root path)
      then none
      else along (obj m) (parse_json_path_parts (strip_root path))

  -- One of the two conditions of `MatchPollResult`.
  unfoldable pub matches : Object → String → String → Bool
  unfolding extract_by_path
  matches response path value =
      not (is_empty path)
      && not (is_empty value)
      && elim (extract_by_path response path) [ none ↦ false | some v ↦ str_eq v value ]

  -- `(success, failure)`; the error is always nil.
  unfoldable pub match_poll_result : Object → Step → Bool × Bool
  unfolding matches
  match_poll_result response step =
      if matches response step.poll_success_path step.poll_success_value
      then (true, false)
      else if matches response step.poll_failure_path step.poll_failure_value
      then (false, true)
      else (false, false)
