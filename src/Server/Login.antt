-- ===== src/Server/Login.antt =====
-- A whole connection: what was offered during authentication, and what its session may reach.
use sshmux.Base.{ℕ, Text, true, List, [], contains, text_eq, is_ok, pos, ◌≡◌, ◌≢◌, ◌↔◌, Any, arith}
use sshmux.Externals.{Libs}
use sshmux.Config.{AuthEntry, RouteEntry, Config}
use sshmux.Server.Session.{Context, Session, roles_from_context, context_with_roles}
use sshmux.Server.Auth.Grants.{
  NamesKey, NamesPassword, GivesRole, public_key_roles_iff, password_roles_iff,
}
use sshmux.Server.Auth.Callbacks.{Credential, key, password, roles_of, call, call_lem}
use sshmux.Server.Router.{Handlers, permission_denied, mux}
use sshmux.Server.Router.Laws.{IsFirst}
use sshmux.Server.Router.Dispatch.{mux_refuses}

module _ {L : Libs} where
  -- The entry of the configuration is for this credential.
  abbrev pub Names : Credential L → AuthEntry L → Type 0
  Names (key k) a = NamesKey k a
  Names (password p) a = NamesPassword p a

  -- Some entry for this credential gives the role.
  abbrev pub Holds : Config L → Credential L → Text → Type 0
  Holds cfg c role = Any (λ a. Names c a × GivesRole role a) cfg.auth

  roles_of-Holds :
      (cfg : Config L) (username : Text) (c : Credential L) (role : Text)
      → (contains (roles_of cfg username c) role ≡ true) ↔ Holds cfg c role
  roles_of-Holds cfg username (key k) role = public_key_roles_iff cfg.auth k role
  roles_of-Holds cfg username (password p) role = password_roles_iff cfg.auth p role

  roles-call_ok :
      (cfg : Config L) (username : Text) (ctx : Context) (c : Credential L)
      → is_ok (call cfg username ctx c).0 ≡ true
      → roles_from_context (call cfg username ctx c).1 ≡ roles_of cfg username c
  unfolding roles_from_context context_with_roles
  roles-call_ok cfg username ctx c h = ground (arith, call_lem cfg username ctx c)

module _ {L : Libs} (H : Handlers L) where
  open H use {World, Provider, stderr, exit}

  -- Whatever was tried before, a client that is let in by a credential to which no entry of the
  -- configuration gives the role of its route is refused by the router: no handler runs.
  pub mux_of_accepted :
      (cfg : Config L) (ps : List (ℕ × Provider)) (ctx : Context) (s : Session) (w : World)
      (c : Credential L) (r : RouteEntry L) (i : ℕ)
      → is_ok (call cfg s.user ctx c).0 ≡ true
      → IsFirst cfg.routes s.user r i
      → r.role ≢ []
      → ¬ Holds cfg c r.role
      → mux H cfg ps (call cfg s.user ctx c).1 s w ≡ exit (pos 1) (stderr permission_denied w)
  mux_of_accepted cfg ps ctx s w c r i h first protected lacks =
      mux_refuses H cfg ps _ s w r i first protected
        (rw (roles-call_ok cfg s.user ctx c h) (ground (arith, roles_of-Holds cfg s.user c r.role)))
