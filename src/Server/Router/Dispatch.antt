-- ===== src/Server/Router/Dispatch.antt =====
-- What a session's handler does, from the way the client was let in to the command that runs.
use sshmux.Base.{
  ℕ, suc, Text, true, false, Option, some, List, [], ◌∷◌, text_eq, contains, Result, ok, is_ok, pos,
  ◌≡◌, ◌≢◌, ◌⊎◌, ◌↔◌, Any, arith, is_some, All-get, ◌∙◌,
}
use sshmux.Externals.{Libs}
use sshmux.Config.{RouteEntry, CloudEntry, Config}
use sshmux.Config.Validate.{validate}
use sshmux.Config.Validate.Laws.{validate_iff, RouteIsValid}
use sshmux.Cloud.Provider.{provider_at, build_providers, build_providers_lem}
use sshmux.Server.Session.{Context, Session, roles_from_context, fresh_context}
use sshmux.Server.Auth.{route_role_allowed, no_client_auth}
use sshmux.Server.Auth.Grants.{Matches, no_client_auth_iff}
use sshmux.Server.Router.{
  Handlers, find_from, matches_route_session, find_route_index, session_request, find_route, report,
  report_run, serve, mux, permission_denied, proxy_error, cloud_error,
}
use sshmux.Server.Router.Laws.{IsFirst, IsFirst-exists, find_route_index_iff}

module _ {L : Libs} where
  find_from_some :
      (i : ℕ) (rs : List (RouteEntry L)) (username : Text)
      → (is_some (find_from L i rs username) ≡ true) ↔ Any (Matches username) rs
  unfolding find_from matches_route_session
  find_from_some i [] username = (λ h. cc, λ h. absurd h)
  find_from_some i (r ∷ rs) username = ground (arith, find_from_some (suc i) rs username)

  -- A session is accepted exactly if some route matches its username.
  pub session_request_iff :
      (cfg : Config L) (s : Session)
      → (session_request L cfg s ≡ true) ↔ Any (Matches s.user) cfg.routes
  unfolding session_request find_route find_route_index
  session_request_iff cfg s = ground (arith, find_from_some 0 cfg.routes s.user)

module _ {L : Libs} (H : Handlers L) where
  open H use {World, Provider, stderr, exit, proxy_session, cloud_session, run_cmd}

  mux-serve :
      (cfg : Config L) (ps : List (ℕ × Provider)) (ctx : Context) (s : Session) (w : World)
      (r : RouteEntry L) (i : ℕ)
      → IsFirst cfg.routes s.user r i
      → mux H cfg ps ctx s w ≡ serve H ps ctx s r i w
  unfolding mux
  mux-serve cfg ps ctx s w r i first = rw ((find_route_index_iff cfg s.user r i).1 first, mux)

  -- Without the role of its route a session is refused: a notice and exit code 1, and no handler.
  pub mux_refuses :
      (cfg : Config L) (ps : List (ℕ × Provider)) (ctx : Context) (s : Session) (w : World)
      (r : RouteEntry L) (i : ℕ)
      → IsFirst cfg.routes s.user r i
      → r.role ≢ []
      → contains (roles_from_context ctx) r.role ≡ false
      → mux H cfg ps ctx s w ≡ exit (pos 1) (stderr permission_denied w)
  unfolding serve route_role_allowed
  mux_refuses cfg ps ctx s w r i first protected lacks =
      mux-serve cfg ps ctx s w r i first ∙ ground arith

  -- What the configured handler of a route does with a session.
  abbrev pub Handled : RouteEntry L → Option Provider → Context → Session → World → World → Type 0
  Handled r p ctx s w w' =
      ((r.run.cmd ≢ []) × (w' ≡ report_run H (run_cmd ctx s r.run.cmd r.run.pty w)))
      ⊎ ((r.proxy.host ≢ []) × (w' ≡ report H proxy_error (proxy_session ctx s r w)))
      ⊎ ((r.cloud.provider ≢ [])
          × ((q : Provider) × (p ≡ some q) × (w' ≡ report H cloud_error (cloud_session ctx s q w))))

  serve-Handled :
      (ps : List (ℕ × Provider)) (ctx : Context) (s : Session) (w : World) (r : RouteEntry L)
      (i : ℕ)
      → RouteIsValid r
      → (is_some (provider_at ps i) ≡ true) ↔ (r.cloud.provider ≢ [])
      → route_role_allowed L r (roles_from_context ctx) ≡ true
      → Handled r (provider_at ps i) ctx s w (serve H ps ctx s r i w)
  unfolding serve
  serve-Handled ps ctx s w r i valid set allowed = ground arith

  -- Under a validated configuration with its providers built, a session that holds the role of its
  -- route is given to the one handler that the route configures: never to another, and never to
  -- a provider that is not there.
  pub mux-Handled :
      {E : Type 0} (new : CloudEntry → Result E Provider) (cfg : Config L)
      (ps : List (ℕ × Provider)) (ctx : Context) (s : Session) (w : World) (r : RouteEntry L)
      (i : ℕ)
      → validate L cfg ≡ ok tt
      → build_providers L new cfg ≡ ok ps
      → IsFirst cfg.routes s.user r i
      → route_role_allowed L r (roles_from_context ctx) ≡ true
      → Handled r (provider_at ps i) ctx s w (mux H cfg ps ctx s w)
  mux-Handled new cfg ps ctx s w r i valid built first allowed =
      rw (mux-serve cfg ps ctx s w r i first) (
        serve-Handled ps ctx s w r i
          (All-get RouteIsValid cfg.routes i r ((validate_iff cfg).0 valid) first.at)
          (build_providers_lem L new cfg ps i r built first.at) allowed)

  -- A client that is let in with no authentication is served: some route matches its username,
  -- and the first that does asks for no role.
  pub mux_public :
      (cfg : Config L) (s : Session)
      → is_ok (no_client_auth L cfg s.user) ≡ true
      → (r : RouteEntry L) × (i : ℕ) × IsFirst cfg.routes s.user r i
        × (route_role_allowed L r (roles_from_context fresh_context) ≡ true)
  unfolding route_role_allowed
  mux_public cfg s h =
      let (some_match, public) = (no_client_auth_iff cfg s.user).0 h in
      let (r, i, first) = IsFirst-exists cfg.routes s.user some_match in
      (
        r,
        i,
        first,
        ground (
          arith,
          All-get (λ t. Matches s.user t → t.role ≡ []) cfg.routes i r public first.at first.fits,
        ),
      )
