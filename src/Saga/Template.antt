-- ===== src/Saga/Template.antt =====
-- saga/template.go: the templates of URLs and payloads.
use Prim.Native.String.{◌++◌}
use Prim.Native.Char.{Char}
use nsp_platform.Base.{
  String, Bool, true, false, not, ◌&&◌, ◌||◌, List, [], ◌∷◌, Option, none, some,
}
use mathlib.Core.List.{◌++◌ as append}
use nsp_platform.Base.Int.{pos}
use nsp_platform.Base.Text.{is_char, has_char, show_int, show_bool, texts}
use nsp_platform.Json.{
  Value, null, bool, int, float, str, arr, obj, nil_map, Items, nil, cons, Fields, end, field,
  Object, to_value, Codec,
}
use nsp_platform.Saga.Definition.{Step, Transaction, step_status_text}
use nsp_platform.Saga.Errors.{Result, ok, err, plain, prefix}
use nsp_platform.Saga.JsonPath.{step_into_map}

abbrev flush : String → List String
flush String.[] = []
flush (String.◌∷◌ c s) = String.◌∷◌ c s ∷ []

abbrev snoc : String → Char → String
snoc s c = s ++ String.◌∷◌ c String.[]

-- Outside brackets, or between a `[` and its `]`.
pub data Mode : Type 0 where
  outside inside : Mode

-- The loop of `parsePathParts`: brackets and what they hold go to the current part as they are.
parts_from : Mode → String → String → List String
parts_from outside current String.[] = flush current
parts_from inside current String.[] = flush current
parts_from outside current (String.◌∷◌ c s) =
    let dot = parts_from outside "" s in
    let bracket = parts_from inside (snoc current c) s in
    let other = parts_from outside (snoc current c) s in
    elim (is_char b'.' c) [
      | true ↦ append (flush current) dot
      | false ↦ elim (is_char b'[' c) [
        | true ↦ elim (has_char b']' s) [
          | true ↦ bracket
          | false ↦ flush (current ++ String.◌∷◌ c s)
        ]
        | false ↦ other
      ]
    ]
parts_from inside current (String.◌∷◌ c s) =
    let close = parts_from outside (snoc current c) s in
    let more = parts_from inside (snoc current c) s in
    elim (is_char b']' c) [ true ↦ close | false ↦ more ]

parse_path_parts : String → List String
unfolding parts_from
parse_path_parts path = parts_from outside "" path

-- One part of a template path; an array cannot be entered without an index.
resolve_part : Value → String → Option Value
unfolding step_into_map
resolve_part (obj m) part = step_into_map m part
resolve_part _ part = none

resolve_parts : Value → List String → Option Value
unfolding resolve_part
resolve_parts current [] = some current
resolve_parts current (part ∷ parts) = elim (resolve_part current part) [
  | none ↦ none
  | some v ↦ resolve_parts v parts
]

module _ (codec : Codec) where
  value_to_string : Value → Option String
  value_to_string (str s) = some s
  value_to_string (float bits) = some (codec.float_text bits)
  value_to_string (int n) = some (show_int n)
  value_to_string (bool b) = some (show_bool b)
  value_to_string null = some ""
  value_to_string v = codec.marshal v

  abbrev text_at : Value → List String → Option String
  text_at v [] = none
  text_at v (part ∷ parts) = elim (resolve_parts v (part ∷ parts)) [
    | none ↦ none
    | some u ↦ value_to_string u
  ]

  resolve_template_path : String → Fields → Option String
  unfolding parse_path_parts resolve_parts value_to_string
  resolve_template_path path m = text_at (obj m) (parse_path_parts path)

-- Whether the expression `\{([^}]+)\}` matches right behind a `{`.
abbrev opens : String → Bool
opens String.[] = false
opens (String.◌∷◌ c s) = not (is_char b'}' c) && has_char b'}' s

-- `templateVarRegex.MatchString`.
pub has_variable : String → Bool
has_variable String.[] = false
has_variable (String.◌∷◌ c s) = is_char b'{' c && opens s || has_variable s

-- `ReplaceAllStringFunc`, outside or inside a match; inside, with what stands behind the `{`.
pub data Scan : Type 0 where
  copying : Scan
  matching : String → Scan

module _ (resolve : String → Option String) where
  abbrev replacement : String → String
  replacement path = elim (resolve path) [ some v ↦ v | none ↦ texts ("{" ∷ path ∷ "}" ∷ []) ]

  replace_all : Scan → String → String
  replace_all copying String.[] = String.[]
  replace_all (matching path) String.[] = String.[]
  replace_all copying (String.◌∷◌ c s) =
      let start = replace_all (matching "") s in
      let rest = replace_all copying s in
      elim (is_char b'{' c && opens s) [ true ↦ start | false ↦ String.◌∷◌ c rest ]
  replace_all (matching path) (String.◌∷◌ c s) =
      let rest = replace_all copying s in
      let more = replace_all (matching (snoc path c)) s in
      elim (is_char b'}' c) [ true ↦ replacement path ++ rest | false ↦ more ]

module _ (codec : Codec) where
  abbrev checked : String → Result String
  checked result = elim (has_variable result) [
    | true ↦ err (plain (texts ("unresolved template variables in: " ∷ result ∷ [])))
    | false ↦ ok result
  ]

  unfoldable pub render_template : String → Fields → Result String
  unfolding resolve_template_path replace_all
  render_template String.[] m = ok ""
  render_template (String.◌∷◌ c s) m =
      checked (replace_all (λ path. resolve_template_path codec path m) copying (String.◌∷◌ c s))

  abbrev text_value : Result String → Result Value
  text_value (ok s) = ok (str s)
  text_value (err e) = err e

  abbrev obj_value : Result Fields → Result Value
  obj_value (ok m) = ok (obj m)
  obj_value (err e) = err e

  abbrev arr_value : Result Items → Result Value
  arr_value (ok vs) = ok (arr vs)
  arr_value (err e) = err e

  abbrev cons_item : Result Value → Result Items → Result Items
  cons_item (err e) rest = err e
  cons_item (ok v) (err e) = err e
  cons_item (ok v) (ok vs) = ok (cons v vs)

  abbrev cons_field : String → Result Value → Result Fields → Result Fields
  cons_field key (err e) rest = err (prefix (texts ("failed to render key " ∷ key ∷ [])) e)
  cons_field key (ok v) (err e) = err e
  cons_field key (ok v) (ok m) = ok (field key v m)

  mutual
    unfolding render_template

    render_value : Fields → Value → Result Value
    render_value data_map (str s) = text_value (render_template s data_map)
    render_value data_map (obj m) = obj_value (render_fields data_map m)
    render_value data_map (arr vs) = arr_value (render_items data_map vs)
    render_value data_map null = ok null
    render_value data_map (bool b) = ok (bool b)
    render_value data_map (int n) = ok (int n)
    render_value data_map (float bits) = ok (float bits)
    render_value data_map nil_map = ok nil_map

    render_items : Fields → Items → Result Items
    render_items data_map nil = ok nil
    render_items data_map (cons v vs) =
        cons_item (render_value data_map v) (render_items data_map vs)

    render_fields : Fields → Fields → Result Fields
    render_fields data_map end = ok end
    render_fields data_map (field key v m) =
        cons_field key (render_value data_map v) (render_fields data_map m)

  abbrev marshal_rendered : Result Fields → Result (Option String)
  marshal_rendered (err e) = err e
  marshal_rendered (ok m) = elim (codec.marshal (obj m)) [
    | none ↦ err (plain "failed to marshal the rendered payload")
    | some text ↦ ok (some text)
  ]

  -- `none` is the nil body of a nil payload.
  unfoldable pub render_payload_json : Object → Fields → Result (Option String)
  unfolding render_fields
  render_payload_json none m = ok none
  render_payload_json (some payload) m = marshal_rendered (render_fields m payload)

abbrev tx_value : Transaction → Value
tx_value tx = elim tx.payload [
  | none ↦ obj (field "payload" (obj end) end)
  | some m ↦ obj (field "payload" (obj m) (field "id" (str tx.id) end))
]

abbrev step_value : Step → Value
step_value step = obj (
    field "index" (int (pos step.index)) (
      field "name" (str step.name) (
        field "status" (str (step_status_text step.status))
          (field "action_response" (to_value step.action_response) end))))

abbrev step_values : List Step → Items
step_values [] = nil
step_values (step ∷ steps) = cons (step_value step) (step_values steps)

abbrev or_empty : Object → Value
or_empty none = obj end
or_empty (some m) = obj m

pub build_template_data : Transaction → List Step → Step → Fields
build_template_data tx steps current = field "transaction" (tx_value tx) (
    field "step" (arr (step_values steps))
      (field "action_response" (or_empty current.action_response) end))
