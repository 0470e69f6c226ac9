-- ===== src/Guest/Idle.antt =====
-- The idle timer of support/guest/main.go: the guest exits when no session has run for a while.
pub mod Laws
pub mod Exit
use sshmux.Base.{
  ℕ, ◌+◌, ◌-◌, Bool, true, false, ◌&&◌, Option, none, some, List, [], ◌∷◌, ◌++◌, ◌==◌, nat_eq,
  if◌then◌else◌, ◌≡◌, ◌<◌,
}

-- The variables that the mutex guards, and the timers behind `idleTimer`. `armed` is the generation
-- of the timer that runs, if one does; `fired` are the generations of the timers that have expired
-- and whose functions wait for the mutex, which `Stop` no longer prevents.
pub record Idle : Type 0 where
  pub active : ℕ
  pub generation : ℕ
  pub armed : Option ℕ
  pub fired : List ℕ
  pub exited : Bool

abbrev pub initial : Idle
initial = record { active = 0; generation = 0; armed = none; fired = []; exited = false }

-- `resetIdleTimerLocked`
unfoldable pub reset_idle_timer : Idle → Idle
reset_idle_timer s =
    let stopped = record s { armed = none } in
    let generation = stopped.generation + 1 in
    record stopped { generation = generation; armed = some generation }

-- `startIdleTimer`
unfoldable pub start_idle_timer : Idle → Idle
unfolding reset_idle_timer
start_idle_timer s = reset_idle_timer s

-- `sessionStarted`
unfoldable pub session_started : Idle → Idle
session_started s = record s { active = s.active + 1; generation = s.generation + 1; armed = none }

-- `sessionFinished`. A count below 0 is set to 0, so that the subtraction may stop there.
unfoldable pub session_finished : Idle → Idle
unfolding reset_idle_timer
session_finished s =
    let t = record s { active = s.active - 1 } in
    if t.active == 0 then reset_idle_timer (record t { active = 0 }) else t

-- The function that `time.AfterFunc` calls, for the timer of a generation.
unfoldable pub timer_function : ℕ → Idle → Idle
timer_function generation s =
    if s.active == 0 && generation == s.generation then record s { exited = true } else s

-- The guest with the number of sessions that `handleSession` has begun and not ended.
pub record Guest : Type 0 where
  pub idle : Idle
  pub sessions : ℕ

-- `main` starts the timer before it listens.
abbrev pub boot : Guest
boot = record { idle = start_idle_timer initial; sessions = 0 }

-- What may happen next, as long as the process runs.
pub data Step : Guest → Guest → Type 0 where
  -- `handleSession` begins
  begin_session :
      (g : Guest)
      → g.idle.exited ≡ false
      → Step g (record { idle = session_started g.idle; sessions = g.sessions + 1 })
  -- `handleSession` returns
  end_session :
      (g : Guest)
      → g.idle.exited ≡ false
      → 0 < g.sessions
      → Step g (record { idle = session_finished g.idle; sessions = g.sessions - 1 })
  -- the timer that runs expires
  expire :
      (g : Guest) (generation : ℕ)
      → g.idle.exited ≡ false
      → g.idle.armed ≡ some generation
      → Step g
          (record g { idle = record g.idle { armed = none; fired = generation ∷ g.idle.fired } })
  -- the function of a timer that has expired gets the mutex
  call_back :
      (g : Guest) (generation : ℕ) (before after : List ℕ)
      → g.idle.exited ≡ false
      → g.idle.fired ≡ before ++ generation ∷ after
      → Step g (record g {
        idle = timer_function generation (record g.idle { fired = before ++ after });
      })

pub data Reach (g : Guest) : Guest → Type 0 where
  here : Reach g g
  next : {h k : Guest} → Reach g h → Step h k → Reach g k
