-- ===== src/Server/Run/Signals.antt =====
-- The three threads of `Run` in internal/server/server.go: the one that counts signals, the one that
-- listens, and `Run` itself, which waits for the first of them.
pub mod Laws
use sshmux.Base.{
  ℕ, ◌+◌, ◌≤◌, Bool, true, false, not, ◌&&◌, ◌||◌, Option, none, some, List, [], ◌∷◌, ◌==◌, nat_eq,
  if◌then◌else◌, ltb, ◌≡◌, ◌≢◌, ◌⊎◌, inl, inr, refl, arith, subst, suc, sym,
}
use sshmux.Errors.{Error}

-- A channel that is only closed: closing it again panics.
pub data Gate : Type 0 where
  open_gate : Gate
  closed_gate : Gate
  panicked : Gate

unfoldable pub close_gate : Gate → Gate
close_gate open_gate = closed_gate
close_gate closed_gate = panicked
close_gate panicked = panicked

-- How `ListenAndServe` and `Shutdown` return: with nil or `ErrServerClosed`, or with another error.
pub data Returned : Type 0 where
  server_closed : Returned
  failed : Error → Returned

-- Where `Run` stands.
pub data Phase : Type 0 where
  -- in the `select`
  selecting : Phase
  -- in `s.Shutdown`
  shutting_down : Phase
  -- returned nil, "server error: %w" or "shutdown server: %w"
  stopped : Phase
  server_failed : Error → Phase
  shutdown_failed : Error → Phase

-- `count` and the rest of the signal thread, which has returned once it has called `s.Close`; the
-- channel `serverErr`, which holds one error; whether the listening thread has returned.
pub record Running : Type 0 where
  pub count : ℕ
  pub shutdown : Gate
  pub closed : Bool
  pub server_err : Option Error
  pub listening : Bool
  pub phase : Phase

abbrev pub running : Running
running = record {
  count = 0;
  shutdown = open_gate;
  closed = false;
  server_err = none;
  listening = true;
  phase = selecting;
}

-- One round of the signal thread's loop, by the new count
unfoldable pub counted : ℕ → Running → Running
unfolding close_gate
counted n r =
    if n == 1
    then record r { count = n; shutdown = close_gate r.shutdown }
    else if n == 2
    then record r { count = n }
    else record r { count = n; closed = true }

-- A signal that arrives; nobody takes it once the thread has returned.
unfoldable pub signalled : Running → Running
unfolding counted
signalled r = if r.closed then r else counted (r.count + 1) r

-- The end of the listening thread
unfoldable pub listened : Returned → Running → Running
listened server_closed r = record r { listening = false }
listened (failed e) r = record r { listening = false; server_err = some e }

-- The end of `Run`
unfoldable pub shut : Returned → Running → Running
shut server_closed r = record r { phase = stopped }
shut (failed e) r = record r { phase = shutdown_failed e }

-- The steps that the threads take without a new signal, in any order. The `select` takes either channel
-- if both are ready.
pub data Step : Running → Running → Type 0 where
  listen_returns : {r : Running} (how : Returned) → r.listening ≡ true → Step r (listened how r)
  select_shutdown :
      {r : Running}
      → r.phase ≡ selecting
      → r.shutdown ≡ closed_gate
      → Step r (record r { phase = shutting_down })
  select_error :
      {r : Running} (e : Error)
      → r.phase ≡ selecting
      → r.server_err ≡ some e
      → Step r (record r { phase = server_failed e; server_err = none })
  shutdown_returns : {r : Running} (how : Returned) → r.phase ≡ shutting_down → Step r (shut how r)

-- The states that `Run` can be in, with the number of signals that have arrived.
pub data Reach : ℕ → Running → Type 0 where
  begin : Reach 0 running
  signal : {n : ℕ} {r : Running} → Reach n r → Reach (n + 1) (signalled r)
  after_step : {n : ℕ} {r r' : Running} → Reach n r → Step r r' → Reach n r'

pub data Steps : Running → Running → Type 0 where
  no_steps : {r : Running} → Steps r r
  then_step : {r r' r'' : Running} → Step r r' → Steps r' r'' → Steps r r''
