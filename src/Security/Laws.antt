-- ===== src/Security/Laws.antt =====
-- Who is authenticated, and what a role may do.
use one_open_broker.Prelude.{
  ◌≡◌, ◌↔◌, ◌⊎◌, ◌≢◌, inl, inr, Bool, true, not, ◌&&◌, ◌||◌, Option, none, some, List, [], ◌∷◌, Str,
  str_eq, str_eq_iff, arith, Bool-cases, Option-cases,
}
use mathlib.Core.List.{Mem, mem-cons_self, mem-cons_of_mem}
use one_open_broker.Core.Message.{Bytes}
use one_open_broker.Security.Auth.{
  Principal, User, accepted, member, make_principal, is_given, text_of, password_of, digest,
  secret_fits, by_token, by_password, authenticate,
}
use one_open_broker.Security.Acl.{
  allowed, unauthenticated_commands, role_commands, authorize_role, authorize_cmd, authorize,
}

-- Every table holds the commands that need no authentication.
open_commands_in_tables :
    (role cmd : Str) (commands : List Str)
    → role_commands role ≡ some commands
    → member cmd unauthenticated_commands ≡ true
    → member cmd commands ≡ true
unfolding role_commands member
open_commands_in_tables role cmd commands h k = ground arith

-- The rule that the tables stand for, without the early returns.
abbrev pub may : Option Principal → Str → Bool → Bool
may none cmd auth_required = not auth_required || member cmd unauthenticated_commands
may (some p) cmd auth_required = elim (role_commands p.role) [
  | none ↦ true
  | some commands ↦ member cmd commands
]

-- A client without a principal may give every command if none is required, and PING and AUTH if one
-- is. A client with a principal may give exactly the commands in the table of its role, and every
-- command if its role has no table.
pub authorize_iff :
    (upper : Str → Str) (principal : Option Principal) (command : Str) (auth_required : Bool)
    → (authorize upper principal command auth_required ≡ allowed)
      ↔ (may principal (upper command) auth_required ≡ true)
unfolding authorize authorize_cmd authorize_role
authorize_iff upper none command auth_required = (λ h. ground arith, λ h. ground arith)
authorize_iff upper (some p) command auth_required = elim (Option-cases (role_commands p.role)) [
  | inl all ↦ (λ h. ground arith, λ h. ground arith)
  | inr (commands, table) ↦
      let open_ones = open_commands_in_tables p.role (upper command) commands table in
      (λ h. ground (arith, open_ones), λ h. ground (arith, open_ones))
]

module _ (encode : Str → Bytes) (injective : (s t : Str) → encode s ≡ encode t → s ≡ t) where
  -- What a user of the configuration has to do with an accepted principal.
  pub record Grants (u : User) (p : Principal) (given secret : Str) : Type 0 where
    pub name : p.name ≡ u.name
    pub role : p.role ≡ u.role
    pub secret_given : given ≡ secret
    pub secret_set : secret ≢ []

  fits_eq :
      (given secret : Str)
      → secret_fits encode given secret ≡ true
      → (given ≡ secret) × (secret ≢ [])
  unfolding secret_fits digest
  fits_eq given secret h = (
    injective given secret ((str_eq_iff (encode given) (encode secret)).0 (ground arith)),
    λ e. ground (arith, str_eq_iff secret []),
  )

  make_principal_eq :
      (u : User) (p : Principal)
      → make_principal u ≡ accepted p
      → (p.name ≡ u.name) × (p.role ≡ u.role)
  unfolding make_principal
  make_principal_eq u p h = ground arith

  by_token_sound :
      (token : Str) (users : List User) (p : Principal)
      → by_token encode token users ≡ accepted p
      → (u : User) × Mem u users × Grants u p token u.token
  unfolding by_token
  by_token_sound token [] p h = cc
  by_token_sound token (u ∷ users) p h = elim (Bool-cases (secret_fits encode token u.token)) [
    | inl fits ↦
        let (name, role) = make_principal_eq u p (ground arith) in
        let (same, set) = fits_eq token u.token fits in
        (
          u,
          mem-cons_self,
          record { name = name; role = role; secret_given = same; secret_set = set },
        )
    | inr not_this ↦
        let (v, member, grants) = by_token_sound token users p (ground arith) in
        (v, mem-cons_of_mem u member, grants)
  ]

  by_password_sound :
      (username password : Str) (users : List User) (p : Principal)
      → by_password encode username password users ≡ accepted p
      → (u : User) × Mem u users × (u.name ≡ username) × Grants u p password (password_of u)
  unfolding by_password
  by_password_sound username password [] p h = cc
  by_password_sound username password (u ∷ users) p h =
      elim (Bool-cases (str_eq u.name username && secret_fits encode password (password_of u))) [
        | inl fits ↦
            let (name, role) = make_principal_eq u p (ground arith) in
            let (same, set) = fits_eq password (password_of u) (ground arith) in
            (
              u,
              mem-cons_self,
              (str_eq_iff u.name username).0 (ground arith),
              record { name = name; role = role; secret_given = same; secret_set = set },
            )
        | inr not_this ↦
            let (v, member, named, grants) =
              by_password_sound username password users p (ground arith) in
            (v, mem-cons_of_mem u member, named, grants)
      ]

  -- Whoever is accepted has the name and the role of a configured user, and gave that user's token,
  -- or that user's name and password; a secret that is not set is never accepted.
  pub authenticate_sound :
      (token username password : Option Str) (users : List User) (p : Principal)
      → authenticate encode token username password users ≡ accepted p
      → ((u : User) × Mem u users × Grants u p (text_of token) u.token)
        ⊎ ((u : User) × Mem u users
            × (u.name ≡ text_of username)
            × Grants u p (text_of password) (password_of u))
  unfolding authenticate
  authenticate_sound token username password users p h = elim (Bool-cases (is_given token)) [
    | inl by_tok ↦ inl (by_token_sound (text_of token) users p (ground arith))
    | inr no_tok ↦
        inr (by_password_sound (text_of username) (text_of password) users p (ground arith))
  ]
