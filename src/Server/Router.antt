-- ===== src/Server/Router.antt =====
-- internal/server/router.go, and `ExitCode` of server.go: from a session to its handler.
pub mod Laws
pub mod Dispatch
use sshmux.Base.{
  ℕ, suc, Text, codes, Bool, true, false, not, ◌&&◌, ◌||◌, Option, none, some, List, [], ◌∷◌, ◌++◌,
  ◌==◌, text_eq, nat_eq, contains, if◌then◌else◌, ℤ, pos,
}
use sshmux.Errors.{Error, as_exec_exit, as_ssh_exit}
use sshmux.Externals.{Libs}
use sshmux.Config.{RouteEntry, Config}
use sshmux.Config.Pattern.{match}
use sshmux.Cloud.Provider.{provider_at}
use sshmux.Server.Session.{Context, Session, roles_from_context}
use sshmux.Server.Auth.{route_role_allowed}

-- `ExitCode`
unfoldable pub exit_code : Error → ℤ
unfolding as_exec_exit as_ssh_exit
exit_code e = elim (as_exec_exit e) [
  | some code ↦ code
  | none ↦ elim (as_ssh_exit e) [ some code ↦ code | none ↦ pos 1 ]
]

-- What the router prints to the client's standard error.
pub data Notice : Type 0 where
  -- "permission denied\r\n"
  permission_denied : Notice
  -- "proxy error: %v\r\n"
  proxy_error : Error → Notice
  -- "cloud provider is not configured\r\n"
  cloud_not_configured : Notice
  -- "cloud error: %v\r\n"
  cloud_error : Error → Notice

-- What the router needs of the session and of the three handlers, over a state of the world:
-- `fmt.Fprintf(s.Stderr(), ...)`, `s.Exit`, `proxySession`, `cloudSession` and `runCmd`.
pub record Handlers (L : Libs) : Type 1 where
  pub World : Type 0
  pub Provider : Type 0
  pub stderr : Notice → World → World
  pub exit : ℤ → World → World
  pub proxy_session : Context → Session → RouteEntry L → World → Option Error × World
  pub cloud_session : Context → Session → Provider → World → Option Error × World
  pub run_cmd : Context → Session → Text → Option Bool → World → Option Error × World

-- `matchesRouteSession`
unfoldable pub matches_route_session : (L : Libs) → RouteEntry L → Text → Bool
matches_route_session L r username = match L r.username username

-- The loop of `findRouteIndex` from index `i`: the route and its index.
unfoldable pub find_from : (L : Libs) → ℕ → List (RouteEntry L) → Text → Option (RouteEntry L × ℕ)
unfolding matches_route_session
find_from L i [] username = none
find_from L i (r ∷ rs) username =
    let rest = find_from L (suc i) rs username in
    if matches_route_session L r username then some (r, i) else rest

-- `findRouteIndex`; `none` is a nil route and the index -1.
unfoldable pub find_route_index : (L : Libs) → Config L → Text → Option (RouteEntry L × ℕ)
unfolding find_from
find_route_index L cfg username = find_from L 0 cfg.routes username

-- `findRoute`
unfoldable pub find_route : (L : Libs) → Config L → Text → Option (RouteEntry L)
unfolding find_route_index
find_route L cfg username = elim (find_route_index L cfg username) [
  | none ↦ none
  | some (r, i) ↦ some r
]

-- The callback that `WithSessionRoutingPolicy` of server.go installs
unfoldable pub session_request : (L : Libs) → Config L → Session → Bool
unfolding find_route
session_request L cfg s = elim (find_route L cfg s.user) [ none ↦ false | some r ↦ true ]

module _ {L : Libs} (H : Handlers L) where
  open H use {World, Provider, stderr, exit, proxy_session, cloud_session, run_cmd}

  -- After a proxy or cloud handler: on an error its notice and its exit code, and else nothing.
  unfoldable pub report : (Error → Notice) → Option Error × World → World
  report notice (none, w) = w
  report notice (some e, w) = exit (exit_code e) (stderr (notice e) w)

  -- After `runCmd`: the exit code of its error, or 0.
  unfoldable pub report_run : Option Error × World → World
  report_run (none, w) = exit (pos 0) w
  report_run (some e, w) = exit (exit_code e) w

  -- The branch of the handler for a route that was found.
  unfoldable pub serve : List (ℕ × Provider) → Context → Session → RouteEntry L → ℕ → World → World
  serve providers ctx s r i w =
      if not (route_role_allowed L r (roles_from_context ctx))
      then exit (pos 1) (stderr permission_denied w)
      else if not (r.proxy.host == [])
      then report proxy_error (proxy_session ctx s r w)
      else if not (r.cloud.provider == [])
      then elim (provider_at providers i) [
        | none ↦ exit (pos 1) (stderr cloud_not_configured w)
        | some provider ↦ report cloud_error (cloud_session ctx s provider w)
      ]
      else if not (r.run.cmd == [])
      then report_run (run_cmd ctx s r.run.cmd r.run.pty w)
      else exit (pos 1) w

  -- The session handler that `MuxMiddleware` returns
  unfoldable pub mux : Config L → List (ℕ × Provider) → Context → Session → World → World
  unfolding serve
  mux cfg providers ctx s w = elim (find_route_index L cfg s.user) [
    | none ↦ exit (pos 1) w
    | some (r, i) ↦ serve providers ctx s r i w
  ]
