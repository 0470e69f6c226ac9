-- ===== src/Tests/Guest.antt =====
-- The idle timer and the sessions of the guest, at concrete inputs.
use sshmux.Base.{
  ◌+◌, ◌-◌, codes, true, false, [], ◌≡◌, refl, ok, nat_eq, text_eq, arith, pos, trim_space, strip,
  ◌∷◌, lookup,
}
use sshmux.Guest.Idle.{
  start_idle_timer, reset_idle_timer, session_started, session_finished, timer_function, Guest,
  boot, begin_session, end_session, Reach, here, next,
}
use sshmux.Guest.Idle.Laws.{Inv, Reach-Inv}
use sshmux.Guest.Idle.Exit.{begun, timer_function-exits, idle_guest_exits}
use sshmux.Guest.Session.{
  Settings, GuestPty, Variables, GuestConfig, init, parse_host_key, parse_allow_key,
  parse_idle_timeout, cmp_or,
}
use sshmux.Tests.Sample.{libs}
use sshmux.Server.Command.{join_comma}
use sshmux.Guest.Modes.{decimal, decimal_on, insert_key, sort_keys, keys, terminal_modes_string}

boot_live : boot.idle.exited ≡ false
unfolding start_idle_timer reset_idle_timer
boot_live = refl

abbrev busy : Guest
busy = record { idle = session_started boot.idle; sessions = boot.sessions + 1 }

busy_live : busy.idle.exited ≡ false
unfolding session_started start_idle_timer reset_idle_timer
busy_live = refl

abbrev quiet : Guest
quiet = record { idle = session_finished busy.idle; sessions = busy.sessions - 1 }

to_busy : Reach boot busy
to_busy = next here (begin_session boot boot_live)

to_quiet : Reach boot quiet
to_quiet = next to_busy (end_session busy busy_live (omega arith))

Reach-Inv_example : Inv quiet
Reach-Inv_example = Reach-Inv to_quiet

quiet_live : quiet.idle.exited ≡ false
unfolding session_finished session_started start_idle_timer reset_idle_timer nat_eq
quiet_live = refl

quiet_exits : (timer_function quiet.idle.generation quiet.idle).exited ≡ true
unfolding timer_function session_finished session_started start_idle_timer reset_idle_timer nat_eq
quiet_exits = refl

timer_function-exits_example : (begun {g = quiet} Reach.here ≡ 0) × (quiet.sessions ≡ 0)
timer_function-exits_example = timer_function-exits to_quiet (Reach.here) quiet_live quiet_exits

idle_guest_exits_example :
    (h : Guest) × (r : Reach quiet h) × (h.idle.exited ≡ true) × (begun r ≡ 0)
idle_guest_exits_example = idle_guest_exits to_quiet refl

abbrev settings : Settings
settings = record { shell = codes "/bin/sh"; home = codes "/home/user"; environ = [] }

abbrev terminal : GuestPty
terminal = record { term = codes "vt"; name = codes "/dev/pts/0" }

abbrev variables : Variables
variables = record {
  guest_host_key = codes "<7>";
  guest_allow_key = codes "[8]";
  guest_idle_timeout = [];
  shell = [];
  home = codes "/root";
}

abbrev guest : GuestConfig libs
guest = record {
  host_key = b'7';
  allow_key = b'8';
  idle_timeout = pos 60000000000;
  shell = codes "/bin/sh";
  home = codes "/root";
}

comes_up : init libs variables ≡ ok guest
unfolding init parse_host_key parse_allow_key parse_idle_timeout cmp_or trim_space strip nat_eq
    text_eq
comes_up = refl

modes_listed : terminal_modes_string ((53, 1) ∷ (2, 127) ∷ []) ≡ codes "2=127,53=1"
unfolding terminal_modes_string sort_keys insert_key keys decimal decimal_on lookup join_comma
    nat_eq
modes_listed = refl
