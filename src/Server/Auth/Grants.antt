-- ===== src/Server/Auth/Grants.antt =====
-- Which roles a key or a password is granted, and what the callbacks do with them.
use sshmux.Base.{
  Text, true, false, some, List, [], ◌∷◌, text_eq, contains, contains-append, is_empty, ◌≡◌, ◌≢◌,
  ◌⊎◌, ◌↔◌, All, Any, arith, refl, is_ok, Bool-cases, inl, inr,
}
use sshmux.Externals.{Libs}
use sshmux.Config.{AuthEntry, RouteEntry, Config}
use sshmux.Config.Pattern.{match}
use sshmux.Server.Auth.{
  username_matching_routes, routes_are_public, has_equal_key, public_key_roles, match_password,
  password_roles, route_role_allowed, can_reach_route, some_route_wants, no_client_auth,
}

module _ {L : Libs} where
  -- The entry names the key: by its fingerprint, or by a key that is equal to it.
  abbrev pub NamesKey : L.PublicKey → AuthEntry L → Type 0
  NamesKey key a =
      ((a.key.fingerprint ≢ []) × (a.key.fingerprint ≡ L.fingerprint_sha256 key))
      ⊎ ((k : L.PublicKey) × (a.key.public_key ≡ some k) × (L.keys_equal key k ≡ true))

  -- The entry has a password that the given text matches.
  abbrev pub NamesPassword : Text → AuthEntry L → Type 0
  NamesPassword password a = (a.password ≢ []) × (match_password L a.password password ≡ true)

  abbrev pub GivesRole : Text → AuthEntry L → Type 0
  GivesRole role a = contains a.role role ≡ true

  -- A key has exactly the roles of the entries that name it.
  pub public_key_roles_iff :
      (entries : List (AuthEntry L)) (key : L.PublicKey) (role : Text)
      → (contains (public_key_roles L entries key) role ≡ true)
        ↔ Any (λ a. NamesKey key a × GivesRole role a) entries
  unfolding public_key_roles has_equal_key
  public_key_roles_iff [] key role = (λ h. cc, λ h. absurd h)
  public_key_roles_iff (a ∷ entries) key role = ground (
    arith,
    public_key_roles_iff entries key role,
    contains-append a.role (public_key_roles L entries key) role,
  )

  -- A password has exactly the roles of the entries with a password that it matches.
  pub password_roles_iff :
      (entries : List (AuthEntry L)) (password role : Text)
      → (contains (password_roles L entries password) role ≡ true)
        ↔ Any (λ a. NamesPassword password a × GivesRole role a) entries
  unfolding password_roles
  password_roles_iff [] password role = (λ h. cc, λ h. absurd h)
  password_roles_iff (a ∷ entries) password role = ground (
    arith,
    password_roles_iff entries password role,
    contains-append a.role (password_roles L entries password) role,
  )

  abbrev pub Matches : Text → RouteEntry L → Type 0
  Matches username r = match L r.username username ≡ true

  -- A route that the roles open for the username.
  abbrev pub Opens : Text → List Text → RouteEntry L → Type 0
  Opens username roles r = Matches username r × ((r.role ≡ []) ⊎ (contains roles r.role ≡ true))

  pub can_reach_route_iff :
      (routes : List (RouteEntry L)) (username : Text) (roles : List Text)
      → (can_reach_route L routes username roles ≡ true) ↔ Any (Opens username roles) routes
  unfolding can_reach_route route_role_allowed
  can_reach_route_iff [] username roles = (λ h. cc, λ h. absurd h)
  can_reach_route_iff (r ∷ rs) username roles =
      ground (arith, can_reach_route_iff rs username roles)

  some_route_wants_iff :
      (routes : List (RouteEntry L)) (username : Text) (roles : List Text)
      → (some_route_wants L routes username roles ≡ true)
        ↔ Any (λ r. Matches username r × (r.role ≢ []) × (contains roles r.role ≡ true)) routes
  unfolding some_route_wants
  some_route_wants_iff [] username roles = (λ h. cc, λ h. absurd h)
  some_route_wants_iff (r ∷ rs) username roles =
      ground (arith, some_route_wants_iff rs username roles)

  -- A public username: some route matches it, and no route that matches it asks for a role.
  abbrev pub IsPublic : List (RouteEntry L) → Text → Type 0
  IsPublic routes username =
      Any (Matches username) routes × All (λ r. Matches username r → r.role ≡ []) routes

  candidates_some :
      (routes : List (RouteEntry L)) (username : Text)
      → (is_empty (username_matching_routes L routes username) ≡ false)
        ↔ Any (Matches username) routes
  unfolding username_matching_routes
  candidates_some [] username = (λ h. cc, λ h. absurd h)
  candidates_some (r ∷ rs) username = ground (arith, candidates_some rs username)

  candidates_public :
      (routes : List (RouteEntry L)) (username : Text)
      → (routes_are_public L (username_matching_routes L routes username) ≡ true)
        ↔ All (λ r. Matches username r → r.role ≡ []) routes
  unfolding username_matching_routes routes_are_public
  candidates_public [] username = (λ h. tt, λ h. refl)
  candidates_public (r ∷ rs) username = elim (Bool-cases (match L r.username username)) [
    | inl m ↦ ground (arith, candidates_public rs username)
    | inr m ↦ ground (arith, candidates_public rs username)
  ]

  -- A client is let in with no authentication exactly at the public usernames.
  pub no_client_auth_iff :
      (cfg : Config L) (username : Text)
      → (is_ok (no_client_auth L cfg username) ≡ true) ↔ IsPublic cfg.routes username
  unfolding no_client_auth
  no_client_auth_iff cfg username =
      ground (arith, candidates_some cfg.routes username, candidates_public cfg.routes username)
