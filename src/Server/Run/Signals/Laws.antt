-- ===== src/Server/Run/Signals/Laws.antt =====
-- What the order of signals, of the listener's end and of the threads can do to `Run`.
use sshmux.Base.{
  ℕ, ◌+◌, ◌≤◌, true, false, ◌||◌, none, ◌==◌, nat_eq, if◌then◌else◌, ltb, ◌≡◌, refl, arith, subst,
  sym,
}
use sshmux.Server.Run.Signals.{
  open_gate, closed_gate, close_gate, server_closed, failed, Phase, selecting, shutting_down,
  stopped, server_failed, shutdown_failed, Running, counted, signalled, listened, shut, Step,
  signal, listen_returns, select_shutdown, select_error, shutdown_returns, Reach, begin, after_step,
  Steps, no_steps, then_step,
}

-- What the phase says of the past, by the number of signals that have arrived.
abbrev pub PhaseFits : ℕ → Running → Phase → Type 0
PhaseFits n r selecting = Unit {0}
PhaseFits n r shutting_down = 1 ≤ n
PhaseFits n r stopped = 1 ≤ n
PhaseFits n r (server_failed e) = r.listening ≡ false
PhaseFits n r (shutdown_failed e) = 1 ≤ n

-- What holds in every state, by the number of signals that have arrived.
pub record Inv (n : ℕ) (r : Running) : Type 0 where
  pub counts : r.count ≡ (if ltb 2 n then 3 else n)
  pub gate : r.shutdown ≡ (if n == 0 then open_gate else closed_gate)
  pub force : r.closed ≡ ltb 2 n
  pub error_ends : r.listening ≡ true → r.server_err ≡ none
  pub phase_fits : PhaseFits n r r.phase

PhaseFits-mono :
    (n m : ℕ) (r r' : Running) (p : Phase)
    → n ≤ m
    → (r'.listening ≡ true → r.listening ≡ true)
    → PhaseFits n r p
    → PhaseFits m r' p
PhaseFits-mono n m r r' selecting le still h = tt
PhaseFits-mono n m r r' shutting_down le still h = omega arith
PhaseFits-mono n m r r' stopped le still h = omega arith
PhaseFits-mono n m r r' (server_failed e) le still h = ground arith
PhaseFits-mono n m r r' (shutdown_failed e) le still h = omega arith

-- A signal changes the count, the gate and what is closed, and nothing else.
signalled_fields :
    (r : Running)
    → ((signalled r).listening ≡ r.listening)
      × ((signalled r).server_err ≡ r.server_err)
      × ((signalled r).phase ≡ r.phase)
      × ((signalled r).count ≡ (if r.closed then r.count else r.count + 1))
      × ((signalled r).closed ≡ (r.closed || (ltb 1 r.count || r.count + 1 == 0)))
unfolding signalled counted nat_eq
signalled_fields r = ground arith

signalled-gate :
    (n : ℕ) (r : Running)
    → Inv n r
    → (signalled r).shutdown ≡ (if n + 1 == 0 then open_gate else closed_gate)
unfolding signalled counted close_gate nat_eq
signalled-gate n r inv = ground (arith, inv.gate, inv.force, inv.counts)

signalled-Inv : (n : ℕ) (r : Running) → Inv n r → Inv (n + 1) (signalled r)
signalled-Inv n r inv =
    let (listening, server_err, phase, count, closed) = signalled_fields r in
    record {
      counts = ground (arith, count, inv.force, inv.counts);
      gate = signalled-gate n r inv;
      force = ground (arith, closed, inv.counts, inv.force);
      error_ends = λ h. ground (arith, listening, server_err, inv.error_ends);
      phase_fits = rw phase (
          PhaseFits-mono n (n + 1) r (signalled r) r.phase (omega arith)
            (λ h. ground (arith, listening)) inv.phase_fits);
    }

was_shutting : (n : ℕ) (r : Running) → r.phase ≡ shutting_down → Inv n r → 1 ≤ n
was_shutting n r p inv = subst (PhaseFits n r) p inv.phase_fits

Step-Inv : {n : ℕ} {r r' : Running} → Step r r' → Inv n r → Inv n r'
unfolding listened shut
Step-Inv {n} {r} (listen_returns server_closed x) inv = record {
  counts = inv.counts;
  gate = inv.gate;
  force = inv.force;
  error_ends = λ h. absurd (ground (arith, h));
  phase_fits =
      PhaseFits-mono n n r (listened server_closed r) r.phase (omega arith) (λ h. x) inv.phase_fits;
}
Step-Inv {n} {r} (listen_returns (failed e) x) inv = record {
  counts = inv.counts;
  gate = inv.gate;
  force = inv.force;
  error_ends = λ h. absurd (ground (arith, h));
  phase_fits =
      PhaseFits-mono n n r (listened (failed e) r) r.phase (omega arith) (λ h. x) inv.phase_fits;
}
Step-Inv {n} {r} (select_shutdown p g) inv = record {
  counts = inv.counts;
  gate = inv.gate;
  force = inv.force;
  error_ends = inv.error_ends;
  phase_fits = ground (arith, inv.gate, g);
}
Step-Inv {n} {r} (select_error e p h) inv = record {
  counts = inv.counts;
  gate = inv.gate;
  force = inv.force;
  error_ends = λ x. refl;
  phase_fits = ground (arith, inv.error_ends, h);
}
Step-Inv {n} {r} (shutdown_returns server_closed p) inv = record {
  counts = inv.counts;
  gate = inv.gate;
  force = inv.force;
  error_ends = inv.error_ends;
  phase_fits = was_shutting n r p inv;
}
Step-Inv {n} {r} (shutdown_returns (failed e) p) inv = record {
  counts = inv.counts;
  gate = inv.gate;
  force = inv.force;
  error_ends = inv.error_ends;
  phase_fits = was_shutting n r p inv;
}

-- Whatever the order in which signals arrive and the threads run: the channel that the first signal
-- closes is closed exactly if at least one has arrived, and never closed a second time; the
-- connections are forced to close exactly if at least three have arrived, and the signals are counted
-- up to three; `Run` shuts down, and returns nil or an error of the shutdown, only after a signal, and
-- it returns an error of the server only when that no longer listens.
pub run-Inv : {n : ℕ} {r : Running} → Reach n r → Inv n r
run-Inv begin = record {
  counts = refl;
  gate = unfold nat_eq in refl;
  force = refl;
  error_ends = λ h. refl;
  phase_fits = tt;
}
run-Inv (signal {n} {r} before) = signalled-Inv n r (run-Inv before)
run-Inv (after_step before s) = Step-Inv s (run-Inv before)

-- `Run` has returned.
abbrev pub HasReturned : Phase → Type 0
HasReturned selecting = ⊥
HasReturned shutting_down = ⊥
HasReturned stopped = Unit {0}
HasReturned (server_failed e) = Unit {0}
HasReturned (shutdown_failed e) = Unit {0}

-- Steps that need no signal lead to a state in which `Run` has returned.
abbrev pub CanReturn : Running → Type 0
CanReturn r = (r' : Running) × Steps r r' × HasReturned r'.phase

shutting-CanReturn : (r : Running) → r.phase ≡ shutting_down → CanReturn r
unfolding shut
shutting-CanReturn r p = (_, then_step (shutdown_returns server_closed p) no_steps, tt)

-- From every state after a first signal has arrived `Run` can still return by steps of the threads
-- alone, with no further signal: no order of the threads leaves it waiting for what can no longer come.
pub signalled-CanReturn : (n : ℕ) (r : Running) → Reach n r → 1 ≤ n → CanReturn r
signalled-CanReturn n r reach h =
    elim r.phase as (λ p. r.phase ≡ p → CanReturn r) [
      | selecting ↦ λ p.
          let (r', steps, end) = shutting-CanReturn (record r { phase = shutting_down }) refl in
          (r', then_step (select_shutdown p (ground (arith, (run-Inv reach).gate))) steps, end)
      | shutting_down ↦ λ p. shutting-CanReturn r p
      | stopped ↦ λ p. (r, no_steps, subst HasReturned (sym p) tt)
      | server_failed e ↦ λ p. (r, no_steps, subst HasReturned (sym p) tt)
      | shutdown_failed e ↦ λ p. (r, no_steps, subst HasReturned (sym p) tt)
    ]
      refl
