-- ===== src/Json.antt =====
-- The values of `any` that JSON documents decode to (`map[string]any` and what it holds).
use nsp_platform.Base.{ℕ, String, Bool, true, false, Option, none, some, str_eq}
use nsp_platform.Base.Int.{ℤ}

-- A `float64` is its bit pattern. Behind `any`, a nil map is another value than an empty one.
mutual
  pub data Value : Type 0 where
    null : Value
    bool : Bool → Value
    int : ℤ → Value
    float : ℕ → Value
    str : String → Value
    arr : Items → Value
    obj : Fields → Value
    nil_map : Value

  pub data Items : Type 0 where
    nil : Items
    cons : Value → Items → Items

  pub data Fields : Type 0 where
    end : Fields
    field : String → Value → Fields → Fields

-- A variable of type `map[string]any`: nil, or a map.
abbrev pub Object : Type 0
Object = Option Fields

abbrev pub to_value : Object → Value
to_value none = nil_map
to_value (some m) = obj m

-- `m[key]` with its presence.
unfoldable pub get : String → Fields → Option Value
get key end = none
get key (field k v m) = let rest = get key m in elim (str_eq k key) [ true ↦ some v | false ↦ rest ]

-- `m[key] = v`.
unfoldable pub set_field : String → Value → Fields → Fields
set_field key v end = field key v end
set_field key v (field k u m) =
    let rest = set_field key v m in
    elim (str_eq k key) [ true ↦ field key v m | false ↦ field k u rest ]

-- `m[key]` of a map that may be nil.
unfoldable pub get_object : String → Object → Option Value
unfolding get
get_object key none = none
get_object key (some m) = get key m

-- `arr[i]`, in range or not.
unfoldable pub get_elem? : Items → ℕ → Option Value
get_elem? nil i = none
get_elem? (cons v vs) ℕ.zero = some v
get_elem? (cons v vs) (ℕ.suc i) = get_elem? vs i

-- What the code asks of encoding/json, fmt and strconv beyond what is modelled here: the text of a
-- float64, the text that `%v` prints of a container, json.Marshal and json.Unmarshal, and what a
-- JSONB column makes of a map, and a TIMESTAMPTZ column of a time in nanoseconds, that is written
-- and read again.
pub record Codec : Type 0 where
  pub float_text : ℕ → String
  pub sprint : Value → String
  pub marshal : Value → Option String
  pub unmarshal : String → Option Value
  pub jsonb : Object → Object
  pub timestamptz : ℕ → ℕ
