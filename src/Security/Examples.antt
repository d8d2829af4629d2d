-- ===== src/Security/Examples.antt =====
-- Authentication and authorization at concrete inputs.
use mathlib.Core.List.{Mem}
use one_open_broker.Prelude.{◌≡◌, ◌↔◌, ◌⊎◌, refl, true, none, some, [], ◌∷◌, Str, str_eq, codes}
use one_open_broker.Security.Auth.{
  Principal, User, accepted, authenticate, text_of, password_of, member, make_principal, is_given,
  digest, secret_fits, by_token, by_password,
}
use one_open_broker.Security.Acl.{allowed, authorize}
use one_open_broker.Security.Laws.{may, authorize_iff, Grants, authenticate_sound}

abbrev upper : Str → Str
upper s = s

abbrev watcher : Principal
watcher = record { name = codes "w"; role = codes "monitor" }

abbrev watcher_user : User
watcher_user = record { name = codes "w"; role = codes "monitor"; token = codes "t"; password = [] }

authorize_iff_example :
    (authorize upper (some watcher) (codes "STATS") true ≡ allowed)
    ↔ (may (some watcher) (upper (codes "STATS")) true ≡ true)
authorize_iff_example = authorize_iff upper (some watcher) (codes "STATS") true

same_text : (s t : Str) → s ≡ t → s ≡ t
same_text s t h = h

accepts :
    authenticate (λ (s : Str). s) (some (codes "t")) none none (watcher_user ∷ [])
    ≡ accepted watcher
unfolding authenticate member make_principal is_given digest secret_fits by_token by_password str_eq
accepts = refl

authenticate_example :
    ((u : User) × Mem u (watcher_user ∷ [])
      × Grants (λ s. s) same_text u watcher (text_of (some (codes "t"))) u.token)
    ⊎ ((u : User) × Mem u (watcher_user ∷ [])
        × (u.name ≡ text_of none)
        × Grants (λ s. s) same_text u watcher (text_of none) (password_of u))
authenticate_example =
    authenticate_sound (λ (s : Str). s) same_text (some (codes "t")) none none (watcher_user ∷ [])
      watcher accepts
