-- ===== src/Tests/Backends.antt =====
-- Backends, local commands and their terminals, at concrete inputs.
use sshmux.Base.{
  codes, true, false, none, some, [], ◌∷◌, ◌≡◌, refl, ok, nat_eq, text_eq, arith, ◌↔◌, Any, is_ok,
  has_infix, has_prefix, strip,
}
use sshmux.Server.Session.{Session, Pty, roles_from_context, session_pty, pty_window_size}
use sshmux.Server.Auth.{}
use sshmux.Server.Auth.Grants.{}
use sshmux.Server.Auth.Callbacks.{}
use sshmux.Server.Proxy.{
  parse_proxy_public_key, parse_host_key_data, parse_host_keys, check_host_key,
  proxy_host_key_callback,
}
use sshmux.Server.Proxy.Laws.{Pins, proxy_host_key_callback_iff, proxy_host_key_of_path}
use sshmux.Server.Command.{Launch, launch, command_env, join_comma}
use sshmux.Server.Command.Laws.{Tells, launch-Tells}
use sshmux.Tests.Sample.{libs, system, session}
use sshmux.Server.Session.{pty_value}
use sshmux.Server.Session.Requests.{requested, after_events, latest, session_pty-after_events}
use sshmux.Server.Command.Terminal.{
  Terminal, returned, process_writes, processes_release, command_exits, output_copied, output_ends,
  wait_returns, output_seen, Reach, begin, after_step, Delivered, returned-Delivered,
}
use sshmux.Tests.Server.{with_q}

host_keys_found :
    proxy_host_key_callback libs system (codes "/keys/7" ∷ [])
    ≡ ok (check_host_key libs (b'7' ∷ []))
unfolding proxy_host_key_callback parse_host_keys parse_proxy_public_key parse_host_key_data
    has_infix has_prefix strip nat_eq text_eq
host_keys_found = refl

proxy_host_key_callback_iff_example :
    (check_host_key libs (b'7' ∷ []) 8 ≡ none) ↔ Any (Pins libs system 8) (codes "/keys/7" ∷ [])
proxy_host_key_callback_iff_example =
    proxy_host_key_callback_iff libs system (codes "/keys/7" ∷ []) (check_host_key libs (b'7' ∷ []))
      8 (λ e. ground arith) host_keys_found

is_path : has_infix (codes "~/key") (codes "ssh-") ≡ false
unfolding has_infix has_prefix strip nat_eq
is_path = refl

no_file : system.read_file (codes "~/key") ≡ none
unfolding nat_eq text_eq
no_file = refl

proxy_host_key_of_path_example :
    is_ok
      (proxy_host_key_callback libs (record system { user_home_dir = none }) (codes "~/key" ∷ []))
    ≡ false
proxy_host_key_of_path_example =
    proxy_host_key_of_path libs system none (codes "~/key") [] is_path no_file

abbrev pty : Pty
pty = record {
  term = codes "vt";
  window = record { width = 80; height = 24; width_pixels = 0; height_pixels = 0 };
  modes = [];
}

abbrev with_pty : Session
with_pty = record (session (codes "b")) { pty = some pty }

abbrev started : Launch
started = record {
  args = codes "sh" ∷ codes "-c" ∷ codes "ls" ∷ [];
  env =
      codes "K=v"
      ∷ codes "SSHMUX_USERNAME=b"
      ∷ codes "SSHMUX_COMMAND=ls"
      ∷ codes "SSHMUX_ROLES=q"
      ∷ codes "TERM=vt"
      ∷ [];
  pty = some (pty_window_size pty.window);
}

is_started : launch [] with_q with_pty (codes "ls") none ≡ ok started
unfolding launch command_env join_comma roles_from_context session_pty
is_started = refl

launch-Tells_example : Tells started.env with_q with_pty
launch-Tells_example = launch-Tells [] with_q with_pty (codes "ls") none started is_started

-- One byte is written and sent, and the command ends.
abbrev over : Terminal
over = record {
  written = 1 ∷ [];
  unread = [];
  sent = 1 ∷ [];
  exited = some none;
  released = true;
  gone = false;
  output_done = true;
  waiting = returned none;
}

over-Reach : Reach over
over-Reach =
    after_step
      (after_step
        (after_step
          (after_step
            (after_step
              (after_step (after_step begin (process_writes (1 ∷ []) refl))
                (output_copied (1 ∷ []) [] refl refl))
              (command_exits none refl))
            processes_release)
          (output_ends refl refl))
        (wait_returns none refl refl))
      (output_seen none refl refl)

returned-Delivered_example : (over.exited ≡ some none) × Delivered over
returned-Delivered_example = returned-Delivered over none over-Reach refl

session_pty-after_events_example :
    (session_pty
        (after_events with_q (requested (session (codes "a")) pty ∷ []))
        (session (codes "a"))
      ≡ latest 1 (pty_value with_q.ptys 1) (requested (session (codes "a")) pty ∷ []))
    × (roles_from_context (after_events with_q (requested (session (codes "a")) pty ∷ []))
        ≡ roles_from_context with_q)
session_pty-after_events_example =
    session_pty-after_events with_q (session (codes "a")) (requested (session (codes "a")) pty ∷ [])
      refl
