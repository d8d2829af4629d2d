-- ===== src/Security/Auth.antt =====
-- `Principal`, `_digest` and `authenticate`. Encoding a text in UTF-8 is a parameter.
use one_open_broker.Prelude.{
  Bool, true, false, not, ◌&&◌, ◌||◌, Option, none, some, List, [], ◌∷◌, Str, codes, str_eq,
  if◌then◌else◌, length, ◌==◌,
}
use one_open_broker.Core.Message.{Bytes}

pub record Principal : Type 0 where
  pub name : Str
  pub role : Str

-- An entry of `security.auth.users`; a missing secret is the empty text.
pub record User : Type 0 where
  pub name : Str
  pub role : Str
  pub token : Str
  pub password : Str

abbrev pub roles : List Str
roles =
    codes "admin" ∷ codes "producer" ∷ codes "consumer" ∷ codes "subscriber" ∷ codes "monitor" ∷ []

unfoldable pub member : Str → List Str → Bool
member x [] = false
member x (y ∷ ys) = str_eq y x || member x ys

-- The answer of `authenticate`; `unknown_role` is the `ValueError` of `Principal.__post_init__`.
pub data AuthResult : Type 0 where
  accepted : Principal → AuthResult
  denied unknown_role : AuthResult

unfoldable pub make_principal : User → AuthResult
make_principal u =
    if member u.role roles then accepted (record { name = u.name; role = u.role }) else unknown_role

unfoldable pub is_given : Option Str → Bool
is_given none = false
is_given (some []) = false
is_given (some (c ∷ s)) = true

abbrev pub text_of : Option Str → Str
text_of none = []
text_of (some s) = s

-- `getattr(user, "password", "") or getattr(user, "token", "") or ""`
unfoldable pub password_of : User → Str
password_of u = if str_eq u.password [] then u.token else u.password

module _ (encode : Str → Bytes) where
  -- `hmac.compare_digest` of two byte strings of one length is their equality.
  unfoldable pub digest : Str → Str → Bool
  digest left right =
      if length (encode left) == length (encode right)
      then str_eq (encode left) (encode right)
      else false

  -- `secret and _digest(given, secret)`
  unfoldable pub secret_fits : Str → Str → Bool
  secret_fits given secret = not (str_eq secret []) && digest given secret

  unfoldable pub by_token : Str → List User → AuthResult
  by_token token [] = denied
  by_token token (u ∷ users) =
      let rest = by_token token users in
      if secret_fits token u.token then make_principal u else rest

  unfoldable pub by_password : Str → Str → List User → AuthResult
  by_password username password [] = denied
  by_password username password (u ∷ users) =
      let rest = by_password username password users in
      if str_eq u.name username && secret_fits password (password_of u)
      then make_principal u
      else rest

  unfoldable pub authenticate : Option Str → Option Str → Option Str → List User → AuthResult
  authenticate token username password users =
      if is_given token
      then by_token (text_of token) users
      else if is_given username && is_given password
      then by_password (text_of username) (text_of password) users
      else denied
