-- ===== src/Tests/Server.antt =====
-- Logins, routes and backends, at concrete inputs.
use sshmux.Base.{
  ℕ, Text, codes, true, false, none, some, List, [], ◌∷◌, ◌≡◌, refl, Result, ok, nat_eq, text_eq,
  arith, ℤ, pos, ◌↔◌, Any, is_ok, contains, if◌then◌else◌, length,
}
use sshmux.Config.{CloudEntry}
use sshmux.Config.Pattern.{match, match_glob}
use sshmux.Config.Validate.{validate, validate_from, validate_route}
use sshmux.Cloud.Provider.{build_providers, build_from, provider_at}
use sshmux.Server.Session.{Context, fresh_context, roles_from_context, context_with_roles}
use sshmux.Server.Auth.{
  public_key_roles, password_roles, match_password, match_systems, can_reach_route,
  route_role_allowed, apply_roles, admit, password_callback, no_client_auth,
}
use sshmux.Server.Auth.Grants.{
  NamesKey, NamesPassword, GivesRole, IsPublic, public_key_roles_iff, password_roles_iff,
  no_client_auth_iff,
}
use sshmux.Server.Auth.Callbacks.{
  key, password, roles_of, call, call_all, last_roles, Acceptable, call_lem, roles-call_all,
}
use sshmux.Server.Router.{Handlers, Notice, permission_denied, mux}
use sshmux.Server.Router.Laws.{IsFirst}
use sshmux.Server.Router.Dispatch.{mux_refuses, Handled}
use sshmux.Server.Run.{server_options, load, given_or_built, prepare, start}
use sshmux.Server.Run.Start.{start-Handled}
use sshmux.Server.Run.Signals.{running, signalled, signal, begin}
use sshmux.Server.Run.Signals.Laws.{Inv, run-Inv, CanReturn, signalled-CanReturn}
use sshmux.Server.Login.{Holds, mux_of_accepted}
use sshmux.Tests.Sample.{libs, system, config, session, run_route, proxy_route, cloud_route}

-- What happens to a session, the latest first
data Event : Type 0 where
  printed : Notice → Event
  exited : ℤ → Event
  proxied : Text → Event
  sent_to : Text → Event
  ran : Text → Event

abbrev handlers : Handlers libs
handlers = record {
  World = List Event;
  Provider = Text;
  stderr = λ notice w. printed notice ∷ w;
  exit = λ code w. exited code ∷ w;
  proxy_session = λ ctx s r w. (none, proxied r.proxy.host ∷ w);
  cloud_session = λ ctx s p w. (none, sent_to p ∷ w);
  run_cmd = λ ctx s command with_pty w. (none, ran command ∷ w);
}

abbrev providers : List (ℕ × Text)
providers = (3, codes "unikraft") ∷ (2, codes "unikraft") ∷ []

public_key_roles_iff_example :
    (contains (public_key_roles libs config.auth 7) (codes "r") ≡ true)
    ↔ Any (λ a. NamesKey 7 a × GivesRole (codes "r") a) config.auth
public_key_roles_iff_example = public_key_roles_iff config.auth 7 (codes "r")

password_roles_iff_example :
    (contains (password_roles libs config.auth (codes "pw")) (codes "q") ≡ true)
    ↔ Any (λ a. NamesPassword (codes "pw") a × GivesRole (codes "q") a) config.auth
password_roles_iff_example = password_roles_iff config.auth (codes "pw") (codes "q")

no_client_auth_iff_example :
    (is_ok (no_client_auth libs config (codes "a")) ≡ true) ↔ IsPublic config.routes (codes "a")
no_client_auth_iff_example = no_client_auth_iff config (codes "a")

call_lem_example :
    ((is_ok (call config (codes "b") fresh_context (key 7)).0 ≡ true)
      ↔ Acceptable config (codes "b") (key 7))
    × ((call config (codes "b") fresh_context (key 7)).1 ≡ (
        if is_ok (call config (codes "b") fresh_context (key 7)).0
        then context_with_roles fresh_context (roles_of config (codes "b") (key 7))
        else fresh_context))
call_lem_example = call_lem config (codes "b") fresh_context (key 7)

roles-call_all_example :
    roles_from_context
      (call_all config (codes "b") fresh_context (key 7 ∷ password (codes "no") ∷ []))
    ≡ last_roles config
        (codes "b")
        (roles_from_context fresh_context)
        (key 7 ∷ password (codes "no") ∷ [])
roles-call_all_example =
    roles-call_all config (codes "b") fresh_context (key 7 ∷ password (codes "no") ∷ [])

a_fits_b : match libs (run_route (codes "a") []).username (codes "b") ≡ false
unfolding match match_glob text_eq nat_eq
a_fits_b = refl

b_fits_b : match libs (proxy_route (codes "b") (codes "r")).username (codes "b") ≡ true
unfolding match match_glob text_eq nat_eq
b_fits_b = refl

b-IsFirst : IsFirst config.routes (codes "b") (proxy_route (codes "b") (codes "r")) 1
b-IsFirst = record { at = refl; fits = b_fits_b; before = (λ h. ground (arith, a_fits_b), tt) }

no_roles : contains (roles_from_context fresh_context) (codes "r") ≡ false
unfolding roles_from_context
no_roles = refl

mux_refuses_example :
    mux handlers config providers fresh_context (session (codes "b")) []
    ≡ exited (pos 1) ∷ printed permission_denied ∷ []
mux_refuses_example =
    mux_refuses handlers config providers fresh_context (session (codes "b")) []
      (proxy_route (codes "b") (codes "r")) 1 b-IsFirst (λ e. ground arith) no_roles

abbrev named_provider : CloudEntry → Result Text Text
named_provider entry = ok entry.provider

is_valid : validate libs config ≡ ok tt
unfolding validate validate_from validate_route nat_eq text_eq
is_valid = refl

is_built : build_providers libs named_provider config ≡ ok providers
unfolding build_providers build_from nat_eq text_eq
is_built = refl

a_fits_c : match libs (run_route (codes "a") []).username (codes "c") ≡ false
unfolding match match_glob text_eq nat_eq
a_fits_c = refl

b_fits_c : match libs (proxy_route (codes "b") (codes "r")).username (codes "c") ≡ false
unfolding match match_glob text_eq nat_eq
b_fits_c = refl

c_fits_c : match libs (cloud_route (codes "c") (codes "q")).username (codes "c") ≡ true
unfolding match match_glob text_eq nat_eq
c_fits_c = refl

c-IsFirst : IsFirst config.routes (codes "c") (cloud_route (codes "c") (codes "q")) 2
c-IsFirst = record {
  at = refl;
  fits = c_fits_c;
  before = (λ h. ground (arith, a_fits_c), (λ h. ground (arith, b_fits_c), tt));
}

abbrev pub with_q : Context
with_q = record { roles = some (codes "q" ∷ []); ptys = [] }

q_allowed :
    route_role_allowed libs (cloud_route (codes "c") (codes "q")) (roles_from_context with_q) ≡ true
unfolding route_role_allowed roles_from_context nat_eq text_eq
q_allowed = refl

config_loaded :
    start libs {D = Text}
      (λ text. ok config)
      named_provider
      (λ options cfg ps. ok (length options))
      system
      (codes "/keys/7")
      (codes ":22")
      []
    ≡ ok (config, 6, providers)
unfolding start load prepare given_or_built server_options validate validate_from validate_route
    build_providers build_from text_eq nat_eq
config_loaded = refl

start-Handled_example :
    Handled handlers
      (cloud_route (codes "c") (codes "q"))
      (provider_at providers 2)
      with_q
      (session (codes "c"))
      []
      (mux handlers config providers with_q (session (codes "c")) [])
start-Handled_example =
    start-Handled handlers {D = Text} (λ text. ok config) named_provider
      (λ options cfg ps. ok (length options)) system (codes "/keys/7") (codes ":22") [] config 6
      providers with_q (session (codes "c")) [] (cloud_route (codes "c") (codes "q")) 2
      config_loaded c-IsFirst q_allowed

run-Inv_example : Inv 3 (signalled (signalled (signalled running)))
run-Inv_example = run-Inv (signal (signal (signal begin)))

signalled-CanReturn_example : CanReturn (signalled running)
signalled-CanReturn_example = signalled-CanReturn 1 (signalled running) (signal begin) (omega arith)

-- The password has a role that opens the last route for `b`, and not the first.
let_in : is_ok (call config (codes "b") fresh_context (password (codes "pw"))).0 ≡ true
unfolding call password_callback admit apply_roles can_reach_route route_role_allowed password_roles
    match_password match_systems match match_glob nat_eq text_eq
let_in = refl

lacks_r : ¬ Holds config (password (codes "pw")) (codes "r")
unfolding match_password match_systems nat_eq text_eq
lacks_r h = ground arith

mux_of_accepted_example :
    mux handlers config providers
      (call config (codes "b") fresh_context (password (codes "pw"))).1
      (session (codes "b"))
      []
    ≡ exited (pos 1) ∷ printed permission_denied ∷ []
mux_of_accepted_example =
    mux_of_accepted handlers config providers fresh_context (session (codes "b")) []
      (password (codes "pw")) (proxy_route (codes "b") (codes "r")) 1 let_in b-IsFirst
      (λ e. ground arith) lacks_r
