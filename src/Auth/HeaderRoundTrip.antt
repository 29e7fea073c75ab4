-- ===== src/Auth/HeaderRoundTrip.antt =====
-- parseAuthHeader reads back the header that Sign writes.
use Prim.Native.Char.{Char, code}
use Prim.Native.String.{◌++◌}
use text.Mathlib.TextLemmas.{append_assoc, nil-append, cons-append}
use nsp_platform.Base.{String, true, false, ◌≡◌, refl, ap, ◌∙◌, sym, some, [], ◌∷◌, arith, ◌==◌}
use nsp_platform.Base.Text.{is_empty, trim_space, trim_left, trim_right, split_at, has_char}
use nsp_platform.Base.Split.{split_pair}
use nsp_platform.Base.Visible.{
  all_visible, trim_space-visible, split_pair-append, split_pair-visible, all_visible-append,
  split_at-append,
}
use nsp_platform.Auth.Errors.{ok}
use nsp_platform.Auth.Signing.{auth_header, auth_scheme}
use nsp_platform.Auth.Header.{cut_prefix, parse_params, parse_auth_header}

same_code : (c : Char) → (code c == code c) ≡ true
same_code c = ground arith

cut_prefix-append : (p s : String) → cut_prefix p (p ++ s) ≡ some s
unfolding cut_prefix
cut_prefix-append String.[] s = rw (nil-append s) refl
cut_prefix-append (String.◌∷◌ a p) s =
    rw (cons-append a p s, cut_prefix, same_code a) (cut_prefix-append p s)

part : (k v : String) → has_char 61 k ≡ false → split_at 61 ((k ++ "=") ++ v) ≡ some (k, v)
part k v h =
    ap (split_at 61) (append_assoc k "=" v)
    ∙ ap (λ t. split_at 61 (k ++ t)) (cons-append "=" "" v ∙ ap (String.◌∷◌ "=") (nil-append v))
    ∙ split_at-append k v h

module _ (ak signature : String) (ak_visible : all_visible ak ≡ true)
    (signature_visible : all_visible signature ≡ true) where
  abbrev content : String
  content = ("AK=" ++ ak) ++ String.◌∷◌ "," (String.◌∷◌ " " ("Signature=" ++ signature))

  header-content : auth_header ak signature ≡ (auth_scheme ++ " ") ++ content
  unfolding auth_header
  header-content =
      let rest = String.◌∷◌ "," (String.◌∷◌ " " ("Signature=" ++ signature)) in
      ap (λ t. auth_scheme ++ (" AK=" ++ (ak ++ t)))
        (cons-append "," " Signature=" signature
          ∙ ap (String.◌∷◌ ",") (cons-append " " "Signature=" signature))
      ∙ ap (λ t. auth_scheme ++ t) (append_assoc " " "AK=" (ak ++ rest))
      ∙ sym (append_assoc auth_scheme " " ("AK=" ++ (ak ++ rest)))
      ∙ ap (λ t. (auth_scheme ++ " ") ++ t) (sym (append_assoc "AK=" ak rest))

  ak_part : split_at 61 ("AK=" ++ ak) ≡ some ("AK", ak)
  unfolding has_char
  ak_part = part "AK" ak refl

  signature_part : split_at 61 ("Signature=" ++ signature) ≡ some ("Signature", signature)
  unfolding has_char
  signature_part = part "Signature" signature refl

  parse_params-content :
      parse_params (split_pair 44 32 content) [] ≡ some (("AK", ak) ∷ ("Signature", signature) ∷ [])
  unfolding parse_params all_visible trim_space trim_left trim_right has_char
  parse_params-content =
      rw
        (
          split_pair-append ("AK=" ++ ak) ("Signature=" ++ signature)
              (all_visible-append "AK=" ak refl ak_visible),
          split_pair-visible ("Signature=" ++ signature)
              (all_visible-append "Signature=" signature refl signature_visible),
        )
        (rw
          (
            parse_params,
            ak_part,
            signature_part,
            trim_space-visible ak ak_visible,
            trim_space-visible signature signature_visible,
          )
          refl)

  -- A header written from visible texts that are not empty is read back.
  pub parse-header :
      is_empty ak ≡ false
      → is_empty signature ≡ false
      → parse_auth_header (auth_header ak signature) ≡ ok (ak, signature)
  unfolding parse_auth_header
  parse-header ak_set signature_set =
      rw (header-content, nonempty)
        (rw
          (
            cut_prefix-append (auth_scheme ++ " ") content,
            parse_params-content,
            ak_set,
            signature_set,
          )
          refl)
    where
      nonempty : is_empty ((auth_scheme ++ " ") ++ content) ≡ false
      nonempty = rw (cons-append "N" "SP-HMAC-SHA256 " content) refl
