-- ===== src/Models/Auth.antt =====
-- models/basic_auth_info.go: the Authorization header. Base64 is Go's library, so its two directions
-- are arguments.
use hm.Prelude.{
  ◌≡◌, refl, ap, ◌∙◌, Bool, ◌||◌, List, [], ◌∷◌, ◌++◌, Option, none, some, Result, ok, err, ◌==◌,
  if◌then◌else◌, arith,
}
use hm.Prelude.Text.{GoString, codes, string_eq, split, split_at, split_last, Lacks}

pub record BasicAuthInfo : Type 0 where
  pub user : GoString
  pub password : GoString

-- base64.StdEncoding
pub record Base64 : Type 0 where
  pub encode_to_string : GoString → GoString
  pub decode_string : GoString → Option GoString

pub data AuthError : Type 0 where
  invalid_authorization : AuthError

user_password : List GoString → Result AuthError BasicAuthInfo
user_password (u ∷ p ∷ []) = ok (record { user = u; password = p })
user_password parts = err invalid_authorization

decode_parts : Base64 → List GoString → Result AuthError BasicAuthInfo
unfolding user_password
decode_parts base64 (scheme ∷ encoded ∷ []) =
    if scheme == codes "Basic"
    then elim (base64.decode_string encoded) [
      | none ↦ err invalid_authorization
      | some decoded ↦ user_password (split b':' decoded)
    ]
    else err invalid_authorization
decode_parts base64 parts = err invalid_authorization

unfoldable pub decode_basic_auth_info : Base64 → GoString → Result AuthError BasicAuthInfo
unfolding decode_parts
decode_basic_auth_info base64 encoded = decode_parts base64 (split b' ' encoded)

unfoldable pub encode : Base64 → BasicAuthInfo → GoString
encode base64 info =
    codes "Basic" ++ (b' ' ∷ base64.encode_to_string (info.user ++ (b':' ∷ info.password)))

-- If Base64 decodes what it encoded, and its output has no space, then a user and a password without
-- colons are read back from the header that carries them.
pub decode-encode :
    (base64 : Base64) (info : BasicAuthInfo)
    → let text = info.user ++ (b':' ∷ info.password) in
      base64.decode_string (base64.encode_to_string text) ≡ some text
      → Lacks b' ' (base64.encode_to_string text)
      → Lacks b':' info.user
      → Lacks b':' info.password
      → decode_basic_auth_info base64 (encode base64 info) ≡ ok info
unfolding decode_basic_auth_info encode decode_parts user_password hm.Prelude.Text.str_eqb
decode-encode base64 info back space u p =
    rw
      (
        split_at b' ' (codes "Basic") _ (ground arith),
        split_last b' ' (base64.encode_to_string (info.user ++ (b':' ∷ info.password))) space,
        back,
        split_at b':' info.user _ u,
        split_last b':' info.password p,
      )
      refl
