-- ===== src/Broker/Outsider.antt =====
-- What a client can do to the broker before it is authenticated.
use one_open_broker.Prelude.{
  ◌≡◌, ◌≢◌, refl, ◌⊎◌, Bool, true, false, Option, none, some, ◌∷◌, Str, str_eq, Option-cases,
  List-cases, inl, inr, arith, ap, ◌∙◌, sym,
}
use one_open_broker.Core.Message.{Bytes}
use one_open_broker.Security.Auth.{
  Principal, AuthResult, accepted, denied, unknown_role, authenticate, member,
}
use one_open_broker.Security.Acl.{allowed, authorize, unauthenticated_commands, Verdict-cases}
use one_open_broker.Security.Laws.{authorize_iff, may}
use one_open_broker.Broker.Replies.{
  Meta, unauthorized as unauthorized_code, Reply, ok, err, identity, or_blank, either,
}
use one_open_broker.Broker.State.{Handler, Context}
use one_open_broker.Broker.Access.{World, count_failure, authenticated, cmd_auth}
use one_open_broker.Broker.Handle.{
  Command, ping, auth, method_of, run_method, answered, dispatch, handle,
}
use one_open_broker.Broker.Names.{
  IsCasing, all_ascii, is_ascii, ascii_upper, covers, method_of-passes,
}

outsider_table :
    (upper : Str → Str) (principal : Option Principal) (cmd : Str) (auth_required : Bool)
    → principal ≡ none
    → auth_required ≡ true
    → authorize upper principal cmd auth_required ≡ allowed
    → member (upper cmd) unauthenticated_commands ≡ true
outsider_table upper principal cmd auth_required nobody required a =
    let m : may none (upper cmd) auth_required ≡ true =
      (authorize_iff upper none cmd auth_required).0
        (ap (λ q. authorize upper q cmd auth_required) (sym nobody) ∙ a) in
    ground (arith, required, m)

is_entering : Command → Bool
is_entering ping = true
is_entering auth = true
is_entering _ = false

-- What `handle` may do for a client without a principal: it goes on without one, or is accepted by
-- `authenticate`, and each refusal for want of authentication is counted.
pub data Admission (w : World) (ctx : Context) (meta : Meta) (ctx' : Context) (reply : Reply)
    : Type 0 where
  stays :
      ctx' ≡ ctx
      → ((message : Str) → reply ≢ err unauthorized_code message)
      → Admission w ctx meta ctx' reply
  counted :
      (message : Str)
      → ctx' ≡ count_failure ctx
      → reply ≡ err unauthorized_code message
      → Admission w ctx meta ctx' reply
  enters :
      (p : Principal)
      → authenticate w.encode meta.token
          (some (either meta.username meta.user))
          meta.password
          w.config.users
        ≡ accepted p
      → ctx' ≡ record ctx { principal = some p; auth_failures = 0 }
      → reply ≡ ok (identity p.name p.role)
      → Admission w ctx meta ctx' reply

AuthResult-cases :
    (r : AuthResult) → ((p : Principal) × (r ≡ accepted p)) ⊎ ((r ≡ denied) ⊎ (r ≡ unknown_role))
AuthResult-cases (accepted p) = inl (p, refl)
AuthResult-cases denied = inr (inl refl)
AuthResult-cases unknown_role = inr (inr refl)

module _ (w : World) (ctx : Context) (meta : Meta) (payload : Bytes) (h : Handler)
    (required : w.config.auth_enabled ≡ true) where
  abbrev Admitting : Context × Handler × Reply → Type 0
  Admitting x = (x.1 ≡ h) × Admission w ctx meta x.0 x.2

  admits_auth : Admitting (answered (run_method w auth ctx meta payload h))
  unfolding run_method cmd_auth authenticated
  admits_auth =
      elim (AuthResult-cases (
        authenticate w.encode meta.token (some (either meta.username meta.user)) meta.password
          w.config.users)) [
            | inl (p, fits) ↦
                rw (required, cmd_auth) (rw (fits, authenticated) (refl, enters p fits refl refl))
            | inr (inl wrong) ↦
                rw (required, cmd_auth) (rw (wrong, authenticated) (refl, counted _ refl refl))
            | inr (inr odd) ↦
                rw (required, cmd_auth) (rw (odd, authenticated) (refl, stays refl (λ m. cc)))
          ]

  admits_entering :
      (c : Command)
      → is_entering c ≡ true
      → Admitting (answered (run_method w c ctx meta payload h))
  unfolding is_entering run_method
  admits_entering ping e = (refl, stays refl (λ m. cc))
  admits_entering auth e = admits_auth
  admits_entering _ e = cc

  -- As long as authentication is required and a client has not authenticated, none of its commands
  -- changes anything but its own connection's context. There it stays without a principal unless
  -- `authenticate` accepts what it sent, and then the answer names the principal and its role. Each
  -- answer UNAUTHORIZED is counted by `count_failure`, nothing else is. Where both cases of a text are ASCII, `str.upper` gives the upper case of what
  -- `str.lower` gives.
  pub outsider_excluded :
      IsCasing w.upper w.lower
      → ctx.principal ≡ none
      → ((handle w ctx meta payload h).1 ≡ h)
        × Admission w ctx meta (handle w ctx meta payload h).0 (handle w ctx meta payload h).2
  unfolding handle dispatch
  outsider_excluded cased nobody = elim (List-cases (or_blank meta.cmd)) [
    | inl blank ↦ rw (blank, handle) (refl, stays refl (λ m. cc))
    | inr (x, s, name) ↦
        elim (Verdict-cases (authorize w.upper ctx.principal (x ∷ s) w.config.auth_enabled)) [
          | inr (inl refused) ↦ rw (name, handle) (rw refused (refl, counted _ refl refl))
          | inr (inr (role, cmd, refused)) ↦
              rw (name, handle) (rw refused (refl, stays refl (λ m. cc)))
          | inl let_in ↦ elim (Option-cases (method_of (w.lower (x ∷ s)))) [
            | inl unknown ↦
                rw (name, handle) (rw let_in (rw (unknown, dispatch) (refl, stays refl (λ m. cc))))
            | inr (c, known) ↦
                let enters_by =
                  method_of-passes w.upper w.lower unauthenticated_commands is_entering (x ∷ s) c
                    cased (unfold all_ascii is_ascii in refl)
                    (unfold covers member str_eq ascii_upper is_ascii is_entering in refl)
                    (outsider_table w.upper ctx.principal (x ∷ s) w.config.auth_enabled nobody
                      required let_in)
                    known in
                rw (name, handle) (rw let_in (rw (known, dispatch) (admits_entering c enters_by)))
          ]
        ]
  ]
