-- ===== src/Server/Run/Start.antt =====
-- What holds once the program listens.
use sshmux.Base.{ℕ, Text, true, none, List, Result, ok, ◌≡◌, arith}
use sshmux.Errors.{Error}
use sshmux.Externals.{Libs, System}
use sshmux.Config.{RouteEntry, CloudEntry, Config}
use sshmux.Config.Validate.{validate}
use sshmux.Cloud.Provider.{provider_at, build_providers}
use sshmux.Server.Session.{Context, Session, roles_from_context}
use sshmux.Server.Auth.{route_role_allowed}
use sshmux.Server.Router.{Handlers, mux}
use sshmux.Server.Router.Laws.{IsFirst}
use sshmux.Server.Router.Dispatch.{Handled, mux-Handled}
use sshmux.Server.Run.{ServerOption, load, given_or_built, prepare, start}

module _ {L : Libs} (H : Handlers L) {D E Server : Type 0} (unmarshal : Text → Result D (Config L))
    (new : CloudEntry → Result E H.Provider)
    (new_server : List ServerOption → Config L → List (ℕ × H.Provider) → Result Error Server) where
  load-valid :
      (sys : System) (path : Text) (cfg : Config L)
      → load L unmarshal new new_server sys path ≡ ok cfg
      → validate L cfg ≡ ok tt
  unfolding load
  load-valid sys path cfg h = ground arith

  prepare-built :
      (cfg : Config L) (host : Text) (host_keys : List Text) (srv : Server)
      (ps : List (ℕ × H.Provider))
      → prepare L unmarshal new new_server none cfg host host_keys ≡ ok (srv, ps)
      → build_providers L new cfg ≡ ok ps
  unfolding prepare given_or_built
  prepare-built cfg host host_keys srv ps h = ground arith

  start-both :
      (sys : System) (config host : Text) (host_keys : List Text) (cfg : Config L) (srv : Server)
      (ps : List (ℕ × H.Provider))
      → start L unmarshal new new_server sys config host host_keys ≡ ok (cfg, srv, ps)
      → (load L unmarshal new new_server sys config ≡ ok cfg)
        × (prepare L unmarshal new new_server none cfg host host_keys ≡ ok (srv, ps))
  unfolding start
  start-both sys config host host_keys cfg srv ps h = ground arith

  -- When the program has read its configuration and made its server, then a session that holds the
  -- role of its route, whatever the configuration was, is given to the one handler that the route
  -- configures.
  pub start-Handled :
      (sys : System) (config host : Text) (host_keys : List Text) (cfg : Config L) (srv : Server)
      (ps : List (ℕ × H.Provider)) (ctx : Context) (s : Session) (w : H.World) (r : RouteEntry L)
      (i : ℕ)
      → start L unmarshal new new_server sys config host host_keys ≡ ok (cfg, srv, ps)
      → IsFirst cfg.routes s.user r i
      → route_role_allowed L r (roles_from_context ctx) ≡ true
      → Handled H r (provider_at ps i) ctx s w (mux H cfg ps ctx s w)
  start-Handled sys config host host_keys cfg srv ps ctx s w r i h first allowed =
      let (loaded, prepared) = start-both sys config host host_keys cfg srv ps h in
      mux-Handled H new cfg ps ctx s w r i (load-valid sys config cfg loaded)
        (prepare-built cfg host host_keys srv ps prepared) first allowed
