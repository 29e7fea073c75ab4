-- ===== src/Auth/Header.antt =====
-- parseAuthHeader and parseAndValidateTimestamp of auth/aksk.go. A duration is a 64-bit number of
-- nanoseconds; the clock counts them since 1970.
use Prim.Native.String.{◌++◌}
use nsp_platform.Base.{
  ℕ, suc, ◌+◌, ◌-◌, ◌*◌, ◌^◌, ltb, leb, ◌==◌, String, Bool, false, ◌||◌, List, [], ◌∷◌, Option,
  none, some, if◌then◌else◌,
}
use nsp_platform.Base.Int.{ℤ, pos, negsuc}
use nsp_platform.Base.Text.{is_empty, trim_space, split_at, atoi}
use nsp_platform.Base.Split.{split_pair}
use nsp_platform.Base.Maps.{lookup, put}
use nsp_platform.Auth.Errors.{
  Result, ok, err, missing_auth_header, invalid_auth_format, missing_timestamp, timestamp_expired,
}
use nsp_platform.Auth.Signing.{auth_scheme, second}

-- What stands behind a prefix, if it stands there.
unfoldable pub cut_prefix : String → String → Option String
cut_prefix String.[] s = some s
cut_prefix (String.◌∷◌ a p) String.[] = none
cut_prefix (String.◌∷◌ a p) (String.◌∷◌ c s) =
    let rest = cut_prefix p s in
    if Prim.Native.Char.code a == Prim.Native.Char.code c then rest else none

abbrev Params : Type 0
Params = List (String × String)

abbrev add_param : Option (String × String) → Params → Option Params
add_param none params = none
add_param (some (k, v)) params = some (put (trim_space k) (trim_space v) params)

-- The loop over the parts; a part without "=" ends it.
unfoldable pub parse_params : List String → Params → Option Params
parse_params [] params = some params
parse_params (part ∷ parts) params = elim (add_param (split_at 61 part) params) [
  | none ↦ none
  | some params' ↦ parse_params parts params'
]

abbrev pub both_present : Option String → Option String → Result (String × String)
both_present (some ak) (some signature) =
    if is_empty ak || is_empty signature then err invalid_auth_format else ok (ak, signature)
both_present _ _ = err invalid_auth_format

abbrev pub checked_params : Option Params → Result (String × String)
checked_params none = err invalid_auth_format
checked_params (some params) = both_present (lookup "AK" params) (lookup "Signature" params)

abbrev pub parsed_content : Option String → Result (String × String)
unfolding parse_params
parsed_content none = err invalid_auth_format
parsed_content (some content) = checked_params (parse_params (split_pair 44 32 content) [])

unfoldable pub parse_auth_header : String → Result (String × String)
unfolding parse_params cut_prefix
parse_auth_header header =
    if is_empty header
    then err missing_auth_header
    else parsed_content (cut_prefix (auth_scheme ++ " ") header)

-- The seconds from year 1 to 1970, by which `time.Unix` shifts its argument in an int64.
abbrev pub unix_to_internal : ℕ
unix_to_internal = 62135596800

abbrev pub wrapped_seconds : ℤ → ℤ
wrapped_seconds (negsuc n) = negsuc n
wrapped_seconds (pos n) =
    if ltb (n + unix_to_internal) (2 ^ 63) then pos n else negsuc (2 ^ 64 - n - 1)

abbrev pub max_duration : ℕ
max_duration = 2 ^ 63 - 1

-- `now.Sub(time.Unix(s, 0))`, at most `maxDuration` and at least `minDuration`.
abbrev pub time_since : ℕ → ℤ → ℤ
time_since now (pos s) =
    if leb (s * second) now
    then pos (if leb (now - s * second) max_duration then now - s * second else max_duration)
    else negsuc (if leb (s * second - now) max_duration then s * second - now - 1 else max_duration)
time_since now (negsuc s) =
    let d = now + suc s * second in pos (if leb d max_duration then d else max_duration)

-- `if diff < 0 { diff = -diff }` in an int64, where the least number is its own negation.
abbrev pub magnitude : ℤ → ℤ
magnitude (pos d) = pos d
magnitude (negsuc d) = if d == max_duration then negsuc d else pos (suc d)

-- `diff > tolerance`.
abbrev pub exceeds : ℤ → ℕ → Bool
exceeds (pos d) tolerance = ltb tolerance d
exceeds (negsuc d) tolerance = false

abbrev pub check_timestamp : ℕ → ℕ → Option ℤ → Result ℤ
check_timestamp now tolerance none = err missing_timestamp
check_timestamp now tolerance (some s) =
    if exceeds (magnitude (time_since now (wrapped_seconds s))) tolerance
    then err timestamp_expired
    else ok s

-- The whole function; the request's time is the number of seconds.
unfoldable pub parse_and_validate_timestamp : ℕ → String → ℕ → Result ℤ
parse_and_validate_timestamp now text tolerance =
    if is_empty text then err missing_timestamp else check_timestamp now tolerance (atoi text)
