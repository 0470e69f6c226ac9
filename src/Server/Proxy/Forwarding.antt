-- ===== src/Server/Proxy/Forwarding.antt =====
-- The two threads of `proxySSHSession` in internal/server/proxy.go that pass on what the client sends
-- while the backend's command runs: changes of the window, if there is a PTY, and signals.
use sshmux.Base.{
  ℕ, Text, Bool, true, List, [], ◌∷◌, ◌++◌, append-nil, append_assoc, ◌≡◌, refl, sym, ap, ◌∙◌,
}
use sshmux.Server.Session.{Window}

-- `backend.WindowChange` of a height and a width, and `backend.Signal`. Their answers are not looked at.
pub data Passed : Type 0 where
  window_change : ℕ → ℕ → Passed
  signal : Text → Passed

-- `asked` is all that the client sent, `windows` and `signals` what stands in the two channels,
-- `passed` what the backend was told.
pub record Forwarding : Type 0 where
  pub asked_windows : List Window
  pub asked_signals : List Text
  pub windows : List Window
  pub signals : List Text
  pub passed : List Passed

abbrev pub nothing_asked : Forwarding
nothing_asked = record {
  asked_windows = [];
  asked_signals = [];
  windows = [];
  signals = [];
  passed = [];
}

-- `has_pty` is whether the client made a PTY request: without it no thread reads the window changes.
pub data Step (has_pty : Bool) : Forwarding → Forwarding → Type 0 where
  client_resizes :
      {f : Forwarding} (w : Window)
      → Step has_pty f
          (record f { asked_windows = f.asked_windows ++ w ∷ []; windows = f.windows ++ w ∷ [] })
  client_signals :
      {f : Forwarding} (s : Text)
      → Step has_pty f
          (record f { asked_signals = f.asked_signals ++ s ∷ []; signals = f.signals ++ s ∷ [] })
  window_passes :
      {f : Forwarding} (w : Window) (ws : List Window)
      → has_pty ≡ true
      → f.windows ≡ w ∷ ws
      → Step has_pty f
          (record f { windows = ws; passed = f.passed ++ window_change w.height w.width ∷ [] })
  signal_passes :
      {f : Forwarding} (s : Text) (ss : List Text)
      → f.signals ≡ s ∷ ss
      → Step has_pty f (record f { signals = ss; passed = f.passed ++ signal s ∷ [] })

pub data Reach (has_pty : Bool) : Forwarding → Type 0 where
  begin : Reach has_pty nothing_asked
  after_step : {f f' : Forwarding} → Reach has_pty f → Step has_pty f f' → Reach has_pty f'

-- The window changes, and the signals, among what was passed or is still to be passed.
pub changes : List Window → List Passed
changes [] = []
changes (w ∷ ws) = window_change w.height w.width ∷ changes ws

pub passed_windows : List Passed → List Passed
passed_windows [] = []
passed_windows (window_change h w ∷ ps) = window_change h w ∷ passed_windows ps
passed_windows (signal s ∷ ps) = passed_windows ps

pub passed_signals : List Passed → List Text
passed_signals [] = []
passed_signals (window_change h w ∷ ps) = passed_signals ps
passed_signals (signal s ∷ ps) = s ∷ passed_signals ps

changes-append : (ws vs : List Window) → changes (ws ++ vs) ≡ changes ws ++ changes vs
unfolding changes
changes-append [] vs = refl
changes-append (w ∷ ws) vs = ap (λ ps. window_change w.height w.width ∷ ps) (changes-append ws vs)

passed_windows-append :
    (ps qs : List Passed) → passed_windows (ps ++ qs) ≡ passed_windows ps ++ passed_windows qs
unfolding passed_windows
passed_windows-append [] qs = refl
passed_windows-append (window_change h w ∷ ps) qs =
    ap (λ xs. window_change h w ∷ xs) (passed_windows-append ps qs)
passed_windows-append (signal s ∷ ps) qs = passed_windows-append ps qs

passed_signals-append :
    (ps qs : List Passed) → passed_signals (ps ++ qs) ≡ passed_signals ps ++ passed_signals qs
unfolding passed_signals
passed_signals-append [] qs = refl
passed_signals-append (window_change h w ∷ ps) qs = passed_signals-append ps qs
passed_signals-append (signal s ∷ ps) qs = ap (λ xs. s ∷ xs) (passed_signals-append ps qs)

pub record Inv (f : Forwarding) : Type 0 where
  pub in_windows : passed_windows f.passed ++ changes f.windows ≡ changes f.asked_windows
  pub in_signals : passed_signals f.passed ++ f.signals ≡ f.asked_signals

Step-Inv : {has_pty : Bool} {f f' : Forwarding} → Step has_pty f f' → Inv f → Inv f'
unfolding changes passed_windows passed_signals
Step-Inv {f = f} (client_resizes w) inv = record {
  in_windows =
      ap (λ ps. passed_windows f.passed ++ ps) (changes-append f.windows (w ∷ []))
      ∙ sym (append_assoc (passed_windows f.passed) (changes f.windows) (changes (w ∷ [])))
      ∙ ap (λ ps. ps ++ changes (w ∷ [])) inv.in_windows
      ∙ sym (changes-append f.asked_windows (w ∷ []));
  in_signals = inv.in_signals;
}
Step-Inv {f = f} (client_signals s) inv = record {
  in_windows = inv.in_windows;
  in_signals =
      sym (append_assoc (passed_signals f.passed) f.signals (s ∷ []))
      ∙ ap (λ ps. ps ++ s ∷ []) inv.in_signals;
}
Step-Inv {f = f} (window_passes w ws h e) inv = record {
  in_windows =
      ap (λ ps. ps ++ changes ws)
        (passed_windows-append f.passed (window_change w.height w.width ∷ []))
      ∙ append_assoc (passed_windows f.passed) (window_change w.height w.width ∷ []) (changes ws)
      ∙ ap (λ vs. passed_windows f.passed ++ changes vs) (sym e)
      ∙ inv.in_windows;
  in_signals =
      ap (λ ps. ps ++ f.signals)
        (passed_signals-append f.passed (window_change w.height w.width ∷ [])
          ∙ append-nil (passed_signals f.passed))
      ∙ inv.in_signals;
}
Step-Inv {f = f} (signal_passes s ss e) inv = record {
  in_windows =
      ap (λ ps. ps ++ changes f.windows)
        (passed_windows-append f.passed (signal s ∷ []) ∙ append-nil (passed_windows f.passed))
      ∙ inv.in_windows;
  in_signals =
      ap (λ ps. ps ++ ss) (passed_signals-append f.passed (signal s ∷ []))
      ∙ append_assoc (passed_signals f.passed) (s ∷ []) ss
      ∙ ap (λ ts. passed_signals f.passed ++ ts) (sym e)
      ∙ inv.in_signals;
}

-- In whatever order the threads run, the backend is told the window changes in the order in which the
-- client made them, and the signals in the order in which it sent them, none twice and none left
-- out but for the last ones that still wait.
pub forwarding-Inv : {has_pty : Bool} {f : Forwarding} → Reach has_pty f → Inv f
forwarding-Inv begin = record {
  in_windows = unfold changes passed_windows in refl;
  in_signals = unfold passed_signals in refl;
}
forwarding-Inv (after_step before s) = Step-Inv s (forwarding-Inv before)
