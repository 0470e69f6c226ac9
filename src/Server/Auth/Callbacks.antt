-- ===== src/Server/Auth/Callbacks.antt =====
-- The callbacks, called by the SSH library in any order and as often as a client likes.
use sshmux.Base.{
  Text, Bool, true, not, ◌&&◌, List, [], ◌∷◌, is_empty, Result, is_ok, if◌then◌else◌, ◌≡◌, ◌≢◌, ◌↔◌,
  Any, arith, refl,
}
use sshmux.Externals.{Libs}
use sshmux.Config.{Config}
use sshmux.Server.Session.{Context, context_with_roles, roles_from_context}
use sshmux.Server.Auth.{
  Denied, Permissions, public_key_roles, password_roles, can_reach_route, apply_roles, admit,
  public_key_callback, password_callback,
}
use sshmux.Server.Auth.Grants.{Opens, can_reach_route_iff}

-- What a client offers.
pub data Credential (L : Libs) : Type 0 where
  key : L.PublicKey → Credential L
  password : Text → Credential L

module _ {L : Libs} (cfg : Config L) (username : Text) where
  abbrev pub roles_of : Credential L → List Text
  roles_of (key k) = public_key_roles L cfg.auth k
  roles_of (password p) = password_roles L cfg.auth p

  -- The callback for a credential
  unfoldable pub call : Context → Credential L → Result Denied Permissions × Context
  call ctx (key k) = public_key_callback L cfg username ctx k
  call ctx (password p) = password_callback L cfg username ctx p

  -- A credential that grants a role and opens a route for the username.
  abbrev pub Acceptable : Credential L → Type 0
  Acceptable c = (roles_of c ≢ []) × Any (Opens username (roles_of c)) cfg.routes

  abbrev accepted : Context → Credential L → Bool
  accepted ctx c = is_ok (call ctx c).0

  admit_lem :
      (roles : List Text) (p : Permissions) (ctx : Context)
      → let (r, ctx') = admit L cfg username roles p ctx in
        ((is_ok r ≡ true) ↔ ((roles ≢ []) × Any (Opens username roles) cfg.routes))
        × (ctx' ≡ (if is_ok r then context_with_roles ctx roles else ctx))
  unfolding admit apply_roles
  admit_lem [] p ctx = ground (arith, can_reach_route_iff cfg.routes username [])
  admit_lem (r ∷ roles) p ctx = ground (arith, can_reach_route_iff cfg.routes username (r ∷ roles))

  -- A callback accepts exactly the credentials that grant some role and open some route, whatever
  -- was tried before. Then the roles of the connection are those of the credential; otherwise the
  -- context is as it was.
  pub call_lem :
      (ctx : Context) (c : Credential L)
      → ((is_ok (call ctx c).0 ≡ true) ↔ Acceptable c)
        × ((call ctx c).1
            ≡ (if is_ok (call ctx c).0 then context_with_roles ctx (roles_of c) else ctx))
  unfolding call public_key_callback password_callback
  call_lem ctx (key k) = admit_lem _ _ ctx
  call_lem ctx (password p) = admit_lem _ _ ctx

  is_acceptable : Credential L → Bool
  is_acceptable c =
      not (is_empty (roles_of c)) && can_reach_route L cfg.routes username (roles_of c)

  roles-admit :
      (roles : List Text) (p : Permissions) (ctx : Context)
      → roles_from_context (admit L cfg username roles p ctx).1 ≡ (
          if not (is_empty roles) && can_reach_route L cfg.routes username roles
          then roles
          else roles_from_context ctx)
  unfolding admit apply_roles roles_from_context context_with_roles
  roles-admit [] p ctx = ground arith
  roles-admit (r ∷ roles) p ctx = ground arith

  roles-call :
      (ctx : Context) (c : Credential L)
      → roles_from_context (call ctx c).1
        ≡ (if is_acceptable c then roles_of c else roles_from_context ctx)
  unfolding call public_key_callback password_callback is_acceptable
  roles-call ctx (key k) = roles-admit _ _ ctx
  roles-call ctx (password p) = roles-admit _ _ ctx

  -- The context after several calls.
  unfoldable pub call_all : Context → List (Credential L) → Context
  call_all ctx [] = ctx
  call_all ctx (c ∷ cs) = call_all (call ctx c).1 cs

  -- The roles of the last acceptable credential, or the roles before the calls.
  pub last_roles : List Text → List (Credential L) → List Text
  last_roles roles [] = roles
  last_roles roles (c ∷ cs) = last_roles (if is_acceptable c then roles_of c else roles) cs

  -- After any calls the roles of the connection are those of the last acceptable credential: a
  -- refused attempt leaves no trace, and nothing is left of an earlier accepted one.
  pub roles-call_all :
      (ctx : Context) (cs : List (Credential L))
      → roles_from_context (call_all ctx cs) ≡ last_roles (roles_from_context ctx) cs
  unfolding call_all last_roles
  roles-call_all ctx [] = refl
  roles-call_all ctx (c ∷ cs) = rw (← roles-call ctx c) (roles-call_all (call ctx c).1 cs)
