-- ===== src/Guest/Idle/Laws.antt =====
-- The guest never exits under a session, and an idle guest can always exit.
use sshmux.Base.{
  ℕ, ◌+◌, ◌-◌, ◌≤◌, ◌<◌, Bool, true, false, ◌&&◌, none, some, List, [], ◌∷◌, ◌++◌, ◌==◌, nat_eq,
  if◌then◌else◌, ◌≡◌, ◌⊎◌, inl, inr, refl, arith, contains, contains-append, All, ap, subst,
}
use sshmux.Guest.Idle.{
  Idle, start_idle_timer, session_started, session_finished, timer_function, Guest, boot, Step,
  begin_session, end_session, expire, call_back, Reach, here, next,
}

-- Every expired timer is of the current generation or an earlier one.
abbrev pub IsPast : Idle → Type 0
IsPast s = All (λ n. n ≤ s.generation) s.fired

if-IsPast : (b : Bool) (s t : Idle) → IsPast s → IsPast t → IsPast (if b then s else t)
if-IsPast true s t h k = h
if-IsPast false s t h k = k

-- What holds of the guest in every state.
pub record Inv (g : Guest) : Type 0 where
  -- the counter is the number of sessions
  pub counted : g.idle.active ≡ g.sessions
  -- the process has not exited under a session
  pub safe : g.idle.exited ≡ true → g.sessions ≡ 0
  -- a timer runs only for the current generation
  pub current : (n : ℕ) → g.idle.armed ≡ some n → n ≡ g.idle.generation
  -- no timer runs during a session
  pub quiet : 0 < g.sessions → g.idle.armed ≡ none
  -- without sessions the timer of the current generation runs, or has expired, or the guest exited
  pub pending :
      g.sessions ≡ 0
      → (g.idle.exited ≡ true)
        ⊎ (g.idle.armed ≡ some g.idle.generation)
        ⊎ (contains g.idle.fired g.idle.generation ≡ true)
  -- no expired timer is of a later generation
  pub past : IsPast g.idle

boot-Inv : Inv boot
unfolding start_idle_timer
boot-Inv = record {
  counted = refl;
  safe = λ e. refl;
  current = λ n e. cc;
  quiet = λ h. absurd (omega arith);
  pending = λ e. inr (inl refl);
  past = tt;
}

All-le_weaken : (m n : ℕ) (xs : List ℕ) → m ≤ n → All (λ x. x ≤ m) xs → All (λ x. x ≤ n) xs
All-le_weaken m n [] h a = tt
All-le_weaken m n (x ∷ xs) h a = (omega arith, All-le_weaken m n xs h a.1)

All-without :
    (n : ℕ) (xs ys : List ℕ) (y : ℕ) → All (λ x. x ≤ n) (xs ++ y ∷ ys) → All (λ x. x ≤ n) (xs ++ ys)
All-without n [] ys y a = a.1
All-without n (x ∷ xs) ys y a = (a.0, All-without n xs ys y a.1)

begin-Inv :
    (g : Guest)
    → g.idle.exited ≡ false
    → Inv g
    → Inv (record { idle = session_started g.idle; sessions = g.sessions + 1 })
unfolding session_started
begin-Inv g live inv = record {
  counted = omega arith;
  safe = λ e. cc;
  current = λ n e. cc;
  quiet = λ h. refl;
  pending = λ e. absurd (omega arith);
  past =
      All-le_weaken g.idle.generation (g.idle.generation + 1) g.idle.fired (omega arith) inv.past;
}

end-Inv :
    (g : Guest)
    → g.idle.exited ≡ false
    → 0 < g.sessions
    → Inv g
    → Inv (record { idle = session_finished g.idle; sessions = g.sessions - 1 })
unfolding session_finished nat_eq
end-Inv g live some_session inv = record {
  counted = ground arith;
  safe = λ e. ground arith;
  current = λ n e. ground (arith, inv.current n);
  quiet = λ h. ground arith;
  pending = λ e. ground arith;
  past =
      if-IsPast (g.idle.active - 1 == 0) _ _
        (All-le_weaken g.idle.generation (g.idle.generation + 1) g.idle.fired (omega arith)
          inv.past)
        inv.past;
}

expire-Inv :
    (g : Guest) (generation : ℕ)
    → g.idle.exited ≡ false
    → g.idle.armed ≡ some generation
    → Inv g
    → Inv (record g { idle = record g.idle { armed = none; fired = generation ∷ g.idle.fired } })
expire-Inv g generation live armed inv = record {
  counted = inv.counted;
  safe = inv.safe;
  current = λ n e. cc;
  quiet = λ h. refl;
  pending = λ e. ground (arith, inv.current generation armed);
  past = (omega (arith, inv.current generation armed), inv.past);
}

call_back-Inv :
    (g : Guest) (generation : ℕ) (before after : List ℕ)
    → g.idle.exited ≡ false
    → g.idle.fired ≡ before ++ generation ∷ after
    → Inv g
    → Inv
        (record g { idle = timer_function generation (record g.idle { fired = before ++ after }) })
unfolding timer_function
call_back-Inv g generation before after live waiting inv = record {
  counted = ground arith;
  safe = λ e. ground arith;
  current = λ n e. ground (arith, inv.current n);
  quiet = λ h. ground arith;
  pending = λ e. ground (
    arith,
    ap (λ xs. contains xs g.idle.generation) waiting,
    contains-append before (generation ∷ after) g.idle.generation,
    contains-append before after g.idle.generation,
  );
  past =
      let left =
        All-without g.idle.generation before after generation
          (subst (All (λ n. n ≤ g.idle.generation)) waiting inv.past) in
      if-IsPast (g.idle.active == 0 && generation == g.idle.generation) _ _ left left;
}

Step-Inv : {g h : Guest} → Step g h → Inv g → Inv h
Step-Inv (begin_session g live) inv = begin-Inv g live inv
Step-Inv (end_session g live some_session) inv = end-Inv g live some_session inv
Step-Inv (expire g generation live armed) inv = expire-Inv g generation live armed inv
Step-Inv (call_back g generation before after live waiting) inv =
    call_back-Inv g generation before after live waiting inv

-- In every state that the guest can reach the counter is the number of sessions, the guest has not
-- exited under a session, no timer runs during one, and without a session the timer of the current
-- generation runs or has expired, or the guest has exited.
pub Reach-Inv : {g : Guest} → Reach boot g → Inv g
Reach-Inv here = boot-Inv
Reach-Inv (next r s) = Step-Inv s (Reach-Inv r)
