-- ===== src/Server/Auth.antt =====
-- internal/server/auth.go: who may connect as a username, and with which roles.
pub mod Grants
pub mod Callbacks
use sshmux.Base.{
  Text, codes, Bool, true, false, not, ◌&&◌, ◌||◌, Option, none, some, List, [], ◌∷◌, ◌++◌, ◌==◌,
  text_eq, contains, is_empty, Result, ok, err, if◌then◌else◌, base64_encode,
}
use sshmux.Externals.{Libs}
use sshmux.Config.{AuthEntry, RouteEntry, Config}
use sshmux.Config.Pattern.{match}
use sshmux.Server.Session.{Context, context_with_roles}

-- `gossh.Permissions`, by its extensions
pub record Permissions : Type 0 where
  pub extensions : List (Text × Text)

abbrev pub no_permissions : Permissions
no_permissions = record { extensions = [] }

-- "permission denied"
pub data Denied : Type 0 where
  permission_denied : Denied

-- A callback reads and changes the context of the connection.
abbrev pub Callback : Type 0 → Type 0
Callback A = Context → A → Result Denied Permissions × Context

module _ (L : Libs) where
  -- `usernameMatchingRoutes`
  unfoldable pub username_matching_routes : List (RouteEntry L) → Text → List (RouteEntry L)
  username_matching_routes [] username = []
  username_matching_routes (r ∷ rs) username =
      let rest = username_matching_routes rs username in
      if match L r.username username then r ∷ rest else rest

  -- `routesArePublic`
  unfoldable pub routes_are_public : List (RouteEntry L) → Bool
  routes_are_public [] = true
  routes_are_public (r ∷ rs) = if not (r.role == []) then false else routes_are_public rs

  -- `auth.Key.PublicKey != nil && ssh.KeysEqual(key, auth.Key.PublicKey)`
  unfoldable pub has_equal_key : Option L.PublicKey → L.PublicKey → Bool
  has_equal_key none key = false
  has_equal_key (some k) key = L.keys_equal key k

  -- `publicKeyRoles`
  unfoldable pub public_key_roles : List (AuthEntry L) → L.PublicKey → List Text
  public_key_roles [] key = []
  public_key_roles (a ∷ entries) key =
      let rest = public_key_roles entries key in
      if not (a.key.fingerprint == []) && a.key.fingerprint == L.fingerprint_sha256 key
      then a.role ++ rest
      else if has_equal_key a.key.public_key key
      then a.role ++ rest
      else rest

  -- The loop of `matchPassword` over the systems: the first that can read the stored text decides.
  unfoldable pub match_systems : List (Text → Option (Text → Bool)) → Text → Text → Bool
  match_systems [] stored password = false
  match_systems (parser ∷ parsers) stored password = elim (parser stored) [
    | none ↦ match_systems parsers stored password
    | some matches_password ↦ matches_password password
  ]

  -- `matchPassword`
  unfoldable pub match_password : Text → Text → Bool
  match_password = match_systems L.default_systems

  -- `passwordRoles`
  unfoldable pub password_roles : List (AuthEntry L) → Text → List Text
  password_roles [] password = []
  password_roles (a ∷ entries) password =
      let rest = password_roles entries password in
      if not (a.password == []) && match_password a.password password then a.role ++ rest else rest

  -- `passwordAuthRoles`
  unfoldable pub password_auth_roles : List (AuthEntry L) → List Text
  password_auth_roles [] = []
  password_auth_roles (a ∷ entries) =
      let rest = password_auth_roles entries in
      if not (a.password == []) then a.role ++ rest else rest

  -- `routeRoleAllowed` of router.go
  unfoldable pub route_role_allowed : RouteEntry L → List Text → Bool
  route_role_allowed r roles = r.role == [] || contains roles r.role

  -- `canReachRoute`
  unfoldable pub can_reach_route : List (RouteEntry L) → Text → List Text → Bool
  can_reach_route [] username roles = false
  can_reach_route (r ∷ rs) username roles =
      if match L r.username username && route_role_allowed r roles
      then true
      else can_reach_route rs username roles

  -- The loop of `passwordAllowedForUsername`
  unfoldable pub some_route_wants : List (RouteEntry L) → Text → List Text → Bool
  some_route_wants [] username roles = false
  some_route_wants (r ∷ rs) username roles =
      let rest = some_route_wants rs username roles in
      if not (match L r.username username)
      then rest
      else if not (r.role == []) && contains roles r.role
      then true
      else rest

  -- `passwordAllowedForUsername`
  unfoldable pub password_allowed_for_username : Config L → Text → Bool
  password_allowed_for_username cfg username =
      let roles = password_auth_roles cfg.auth in
      if is_empty roles then false else some_route_wants cfg.routes username roles

  -- `applyRoles`
  unfoldable pub apply_roles : Context → List Text → Bool × Context
  unfolding context_with_roles
  apply_roles ctx [] = (false, ctx)
  apply_roles ctx (r ∷ roles) = (true, context_with_roles ctx (r ∷ roles))

  -- `publicKeyPermissions`
  unfoldable pub public_key_permissions : L.PublicKey → Permissions
  public_key_permissions key = record {
    extensions = (codes "gliderlabs/ssh.PublicKey", base64_encode (L.marshal key)) ∷ [];
  }

  -- `!canReachRoute(cfg, username, roles) || !applyRoles(ctx, roles)`, then the error or the
  -- permissions.
  unfoldable pub admit :
      Config L → Text → List Text → Permissions → Context → Result Denied Permissions × Context
  unfolding apply_roles
  admit cfg username roles permissions ctx =
      if not (can_reach_route cfg.routes username roles)
      then (err permission_denied, ctx)
      else let (applied, ctx') = apply_roles ctx roles in
        if not applied then (err permission_denied, ctx') else (ok permissions, ctx')

  -- The `PublicKeyCallback` of `authCallbacks`
  unfoldable pub public_key_callback : Config L → Text → Callback L.PublicKey
  unfolding admit
  public_key_callback cfg username ctx key =
      admit cfg username (public_key_roles cfg.auth key) (public_key_permissions key) ctx

  -- The `PasswordCallback` of `authCallbacks`
  unfoldable pub password_callback : Config L → Text → Callback Text
  unfolding admit
  password_callback cfg username ctx password =
      admit cfg username (password_roles cfg.auth password) no_permissions ctx

  -- `gossh.ServerAuthCallbacks`, by the two callbacks that sshmux sets; `none` is a nil callback.
  pub record ServerAuthCallbacks : Type 0 where
    pub public_key : Option (Callback L.PublicKey)
    pub password : Option (Callback Text)

  -- `authCallbacks`: the callbacks, and whether the username is public.
  unfoldable pub auth_callbacks : Config L → Text → ServerAuthCallbacks × Bool
  auth_callbacks cfg username =
      let candidates = username_matching_routes cfg.routes username in
      if not (is_empty candidates) && routes_are_public candidates
      then (record { public_key = none; password = none }, true)
      else (
        record {
          public_key = some (public_key_callback cfg username);
          password =
              if password_allowed_for_username cfg username
              then some (password_callback cfg username)
              else none;
        },
        false,
      )

  -- `&gossh.PartialSuccessError{Next: next}`
  pub data PartialSuccess : Type 0 where
    partial_success : ServerAuthCallbacks → PartialSuccess

  -- The `NoClientAuthCallback` that `WithAuth` installs
  unfoldable pub no_client_auth : Config L → Text → Result PartialSuccess Permissions
  unfolding auth_callbacks
  no_client_auth cfg username =
      let (next, public) = auth_callbacks cfg username in
      if public then ok no_permissions else err (partial_success next)
