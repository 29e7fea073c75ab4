-- ===== src/Http.antt =====
-- What the code uses of the packages net/http and net/textproto: the headers of a message, under
-- their canonical names, and a request whose body is read once.
use nsp_platform.Base.{
  ℕ, String, Bool, true, false, List, Option, none, some, ◌||◌, ◌&&◌, leb, ◌==◌, if◌then◌else◌, ◌≡◌,
  ap, str_eq,
}
use Prim.Native.Char.{Char, code}
use nsp_platform.Base.Maps.{lookup, put, lookup-put, lookup-put_other}

abbrev translate : String → String → Char → Char
translate String.[] t c = c
translate (String.◌∷◌ a s) String.[] c = c
translate (String.◌∷◌ a s) (String.◌∷◌ b t) c =
    let rest = translate s t c in if code c == code a then b else rest

abbrev upper_case : String
upper_case = "ABCDEFGHIJKLMNOPQRSTUVWXYZ"

abbrev lower_case : String
lower_case = "abcdefghijklmnopqrstuvwxyz"

-- The ASCII part of `strings.ToUpper` and `strings.ToLower`.
unfoldable pub to_upper : String → String
to_upper String.[] = String.[]
to_upper (String.◌∷◌ c s) = String.◌∷◌ (translate lower_case upper_case c) (to_upper s)

unfoldable pub to_lower : String → String
to_lower String.[] = String.[]
to_lower (String.◌∷◌ c s) = String.◌∷◌ (translate upper_case lower_case c) (to_lower s)

abbrev is_token_char : Char → Bool
is_token_char c =
    (leb 48 (code c) && leb (code c) 57)
    || (leb 65 (code c) && leb (code c) 90)
    || (leb 94 (code c) && leb (code c) 122)
    || code c == 33
    || (leb 35 (code c) && leb (code c) 39)
    || code c == 42
    || code c == 43
    || code c == 45
    || code c == 46
    || code c == 124
    || code c == 126

abbrev is_token : String → Bool
is_token String.[] = true
is_token (String.◌∷◌ c s) = is_token_char c && is_token s

abbrev capitalize : Bool → String → String
capitalize up String.[] = String.[]
capitalize up (String.◌∷◌ c s) =
    String.◌∷◌ (if up then translate lower_case upper_case c else translate upper_case lower_case c)
      (capitalize (code c == 45) s)

-- `CanonicalMIMEHeaderKey`: a name that is no token stays as it is.
unfoldable pub canonical_key : String → String
canonical_key s = if is_token s then capitalize true s else s

abbrev pub Headers : Type 0
Headers = List (String × String)

abbrev pub or_empty : Option String → String
or_empty none = ""
or_empty (some v) = v

-- `Header.Get` and `Header.Set`.
unfoldable pub get_header : String → Headers → String
get_header name h = or_empty (lookup (canonical_key name) h)

unfoldable pub set_header : String → String → Headers → Headers
set_header name value h = put (canonical_key name) value h

-- A reader that delivers its bytes, then an error or the end.
pub record Body : Type 0 where
  pub bytes : List ℕ
  pub failure : Option String

pub record HttpRequest : Type 0 where
  pub method : String
  pub path : String
  pub raw_query : String
  pub headers : Headers
  pub body : Option Body

pub get_header-set_header :
    (name value : String) (h : Headers) → get_header name (set_header name value h) ≡ value
unfolding get_header set_header
get_header-set_header name value h = ap or_empty (lookup-put (canonical_key name) value h)

pub get_header-set_header_other :
    (name other value : String) (h : Headers)
    → str_eq (canonical_key name) (canonical_key other) ≡ false
    → get_header other (set_header name value h) ≡ get_header other h
unfolding get_header set_header
get_header-set_header_other name other value h e =
    ap or_empty (lookup-put_other (canonical_key name) (canonical_key other) value h e)
