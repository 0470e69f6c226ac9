-- ===== src/Guest/Idle/Exit.antt =====
-- When the guest exits, and that it can.
use sshmux.Base.{
  ℕ, ◌+◌, ◌≤◌, true, false, List, [], ◌∷◌, ◌++◌, ◌==◌, nat_eq, ◌≡◌, inl, inr, refl, arith, contains,
  ap, Bool-cases,
}
use sshmux.Guest.Idle.{
  Idle, session_started, session_finished, timer_function, Guest, boot, begin_session, end_session,
  expire, call_back, Reach, here, next,
}
use sshmux.Guest.Idle.Laws.{Reach-Inv}

-- The sessions that begin along a run.
pub begun : {g h : Guest} → Reach g h → ℕ
begun here = 0
begun (next r (begin_session g live)) = begun r + 1
begun (next r s) = begun r

generation-call_back : (n : ℕ) (s : Idle) → (timer_function n s).generation ≡ s.generation
unfolding timer_function
generation-call_back n s = ground arith

-- Every session that begins raises the generation, and nothing lowers it.
generation-Reach : {g h : Guest} (r : Reach g h) → g.idle.generation + begun r ≤ h.idle.generation
unfolding begun session_started session_finished
generation-Reach here = omega arith
generation-Reach (next r (begin_session g live)) = omega (arith, generation-Reach r)
generation-Reach (next r (end_session g live some_session)) = ground (arith, generation-Reach r)
generation-Reach (next r (expire g n live armed)) = generation-Reach r
generation-Reach (next r (call_back g n before after live waiting)) =
    omega (
      arith,
      generation-Reach r,
      generation-call_back n (record g.idle { fired = before ++ after }),
    )

Reach-append : {g h k : Guest} → Reach g h → Reach h k → Reach g k
Reach-append r here = r
Reach-append r (next q s) = next (Reach-append r q) s

-- The function of a timer ends the process only if no session has begun since the timer was set,
-- however long the function waited, and only if no session runs.
pub timer_function-exits :
    {g h : Guest} (start : Reach boot g) (r : Reach g h)
    → h.idle.exited ≡ false
    → (timer_function g.idle.generation h.idle).exited ≡ true
    → (begun r ≡ 0) × (h.sessions ≡ 0)
unfolding timer_function
timer_function-exits {g} {h} start r live exits =
    ground (arith, generation-Reach r, (Reach-Inv (Reach-append start r)).counted)

contains-split :
    (n : ℕ) (xs : List ℕ)
    → contains xs n ≡ true
    → (before : List ℕ) × (after : List ℕ) × (xs ≡ before ++ n ∷ after)
contains-split n [] h = absurd (cc)
contains-split n (x ∷ xs) h = elim (Bool-cases (n == x)) [
  | inl e ↦ ([], xs, ground arith)
  | inr e ↦
      let (before, after, p) = contains-split n xs (ground arith) in
      (x ∷ before, after, ap (λ ys. x ∷ ys) p)
]

fire :
    {f : Guest} (g : Guest) (r : Reach f g)
    → g.idle.active ≡ 0
    → g.idle.exited ≡ false
    → contains g.idle.fired g.idle.generation ≡ true
    → (h : Guest) × (q : Reach f h) × (h.idle.exited ≡ true) × (begun q ≡ begun r)
unfolding timer_function begun
fire g r idle live waiting =
    let (before, after, p) = contains-split g.idle.generation g.idle.fired waiting in
    (_, next r (call_back g g.idle.generation before after live p), ground arith, refl)

-- From every state without a session the guest can exit, with no session beginning before.
pub idle_guest_exits :
    {g : Guest}
    → Reach boot g
    → g.sessions ≡ 0
    → (h : Guest) × (r : Reach g h) × (h.idle.exited ≡ true) × (begun r ≡ 0)
unfolding begun
idle_guest_exits {g} start none_running = elim (Bool-cases g.idle.exited) [
  | inl out ↦ (g, here, out, refl)
  | inr live ↦
      let inv = Reach-Inv start in
      elim (inv.pending none_running) [
        | inl out ↦ (g, here, out, refl)
        | inr (inl armed) ↦
            fire _ (next here (expire g g.idle.generation live armed)) (omega (arith, inv.counted))
              live (ground arith)
        | inr (inr waiting) ↦ fire g here (omega (arith, inv.counted)) live waiting
      ]
]
