-- ===== src/Server/Command/Terminal.antt =====
-- `runCmd` of internal/server/cmd.go with a local PTY, after the start of the command: the thread that
-- copies the output, and `runCmd` itself, which waits for the command and then for that thread.
use sshmux.Base.{
  Text, Bool, true, false, Option, none, some, [], ◌++◌, append-nil, append_assoc, ◌≡◌, ◌⊎◌, inl,
  inr, refl, sym, ap, subst, ◌∙◌, arith,
}
use sshmux.Errors.{Error}

-- Where `runCmd` stands: in `cmd.Wait`, at `<-outputDone` with what that returned, or at its end.
pub data Waiting : Type 0 where
  for_command : Waiting
  for_output : Option Error → Waiting
  returned : Option Error → Waiting

-- `written` is all that was written to the terminal, `unread` what of it the PTY still holds, and
-- `sent` what the client was sent. `released` says that no process has the terminal open, `gone`
-- that the session can no longer be written to.
pub record Terminal : Type 0 where
  pub written : Text
  pub unread : Text
  pub sent : Text
  pub exited : Option (Option Error)
  pub released : Bool
  pub gone : Bool
  pub output_done : Bool
  pub waiting : Waiting

abbrev pub opened : Terminal
opened = record {
  written = [];
  unread = [];
  sent = [];
  exited = none;
  released = false;
  gone = false;
  output_done = false;
  waiting = for_command;
}

-- What the processes, the client and the two threads do, in any order. The copying ends when no
-- process has the terminal open and the PTY holds nothing more, or when the session is gone.
pub data Step : Terminal → Terminal → Type 0 where
  process_writes :
      {r : Terminal} (t : Text)
      → r.released ≡ false
      → Step r (record r { written = r.written ++ t; unread = r.unread ++ t })
  processes_release : {r : Terminal} → Step r (record r { released = true })
  command_exits :
      {r : Terminal} (e : Option Error) → r.exited ≡ none → Step r (record r { exited = some e })
  client_leaves : {r : Terminal} → Step r (record r { gone = true })
  output_copied :
      {r : Terminal} (t rest : Text)
      → r.output_done ≡ false
      → r.unread ≡ t ++ rest
      → Step r (record r { unread = rest; sent = r.sent ++ t })
  output_ends :
      {r : Terminal} → r.released ≡ true → r.unread ≡ [] → Step r (record r { output_done = true })
  output_fails : {r : Terminal} → r.gone ≡ true → Step r (record r { output_done = true })
  wait_returns :
      {r : Terminal} (e : Option Error)
      → r.waiting ≡ for_command
      → r.exited ≡ some e
      → Step r (record r { waiting = for_output e })
  output_seen :
      {r : Terminal} (e : Option Error)
      → r.waiting ≡ for_output e
      → r.output_done ≡ true
      → Step r (record r { waiting = returned e })

pub data Reach : Terminal → Type 0 where
  begin : Reach opened
  after_step : {r r' : Terminal} → Reach r → Step r r' → Reach r'

-- All was sent that will ever be written, or nobody is left to send it to.
abbrev pub Delivered : Terminal → Type 0
Delivered r = ((r.released ≡ true) × (r.sent ≡ r.written)) ⊎ (r.gone ≡ true)

abbrev pub WaitingFits : Terminal → Waiting → Type 0
WaitingFits r for_command = Unit {0}
WaitingFits r (for_output e) = r.exited ≡ some e
WaitingFits r (returned e) = (r.exited ≡ some e) × (r.output_done ≡ true)

pub record Inv (r : Terminal) : Type 0 where
  pub in_order : r.sent ++ r.unread ≡ r.written
  pub done_by : r.output_done ≡ true → ((r.released ≡ true) × (r.unread ≡ [])) ⊎ (r.gone ≡ true)
  pub fits : WaitingFits r r.waiting

all_sent : (r : Terminal) → Inv r → r.unread ≡ [] → r.sent ≡ r.written
all_sent r inv h = sym (append-nil r.sent) ∙ ap (λ t. r.sent ++ t) (sym h) ∙ inv.in_order

WaitingFits-mono :
    (r r' : Terminal) (p : Waiting)
    → ((e : Option Error) → r.exited ≡ some e → r'.exited ≡ some e)
    → (r.output_done ≡ true → r'.output_done ≡ true)
    → WaitingFits r p
    → WaitingFits r' p
WaitingFits-mono r r' for_command f g h = tt
WaitingFits-mono r r' (for_output e) f g h = f e h
WaitingFits-mono r r' (returned e) f g (h, d) = (f e h, g d)

-- The copying that ends
ended-Inv :
    (r : Terminal)
    → Inv r
    → (((r.released ≡ true) × (r.unread ≡ [])) ⊎ (r.gone ≡ true))
    → Inv (record r { output_done = true })
ended-Inv r inv why = record {
  in_order = inv.in_order;
  done_by = λ d. why;
  fits =
      WaitingFits-mono r (record r { output_done = true }) r.waiting (λ e h. h) (λ d. refl)
        inv.fits;
}

Step-Inv : {r r' : Terminal} → Step r r' → Inv r → Inv r'
Step-Inv {r} (process_writes t open_still) inv = record {
  in_order = sym (append_assoc r.sent r.unread t) ∙ ap (λ x. x ++ t) inv.in_order;
  done_by = λ d. ground (arith, inv.done_by d, open_still);
  fits =
      WaitingFits-mono r (record r { written = r.written ++ t; unread = r.unread ++ t }) r.waiting
        (λ e h. h) (λ d. d) inv.fits;
}
Step-Inv {r} processes_release inv = record {
  in_order = inv.in_order;
  done_by = λ d. ground (arith, inv.done_by d);
  fits = WaitingFits-mono r (record r { released = true }) r.waiting (λ e h. h) (λ d. d) inv.fits;
}
Step-Inv {r} (command_exits e running) inv = record {
  in_order = inv.in_order;
  done_by = inv.done_by;
  fits =
      WaitingFits-mono r (record r { exited = some e }) r.waiting
        (λ e' h. absurd (ground (arith, h, running))) (λ d. d) inv.fits;
}
Step-Inv {r} client_leaves inv = record {
  in_order = inv.in_order;
  done_by = λ d. inr refl;
  fits = WaitingFits-mono r (record r { gone = true }) r.waiting (λ e h. h) (λ d. d) inv.fits;
}
Step-Inv {r} (output_copied t rest copying h) inv = record {
  in_order = append_assoc r.sent t rest ∙ ap (λ x. r.sent ++ x) (sym h) ∙ inv.in_order;
  done_by = λ d. absurd (ground (arith, d, copying));
  fits =
      WaitingFits-mono r (record r { unread = rest; sent = r.sent ++ t }) r.waiting (λ e x. x)
        (λ d. d) inv.fits;
}
Step-Inv {r} (output_ends released empty) inv = ended-Inv r inv (inl (released, empty))
Step-Inv {r} (output_fails gone) inv = ended-Inv r inv (inr gone)
Step-Inv {r} (wait_returns e p exited) inv = record {
  in_order = inv.in_order;
  done_by = inv.done_by;
  fits = exited;
}
Step-Inv {r} (output_seen e p d) inv = record {
  in_order = inv.in_order;
  done_by = inv.done_by;
  fits = (subst (WaitingFits r) p inv.fits, d);
}

Reach-Inv_of_terminal : {r : Terminal} → Reach r → Inv r
Reach-Inv_of_terminal begin = record {
  in_order = refl;
  done_by = λ d. absurd (ground (arith, d));
  fits = tt;
}
Reach-Inv_of_terminal (after_step before s) = Step-Inv s (Reach-Inv_of_terminal before)

-- Whatever the order of the threads, of the processes and of the client: when `runCmd` returns, the
-- command has ended with the result that is returned, and the client has been sent, in order, all that
-- was written to the terminal and all that will be, unless its session is gone.
pub returned-Delivered :
    (r : Terminal) (e : Option Error)
    → Reach r
    → r.waiting ≡ returned e
    → (r.exited ≡ some e) × Delivered r
returned-Delivered r e reach h =
    let inv = Reach-Inv_of_terminal reach in
    let (exited, d) = subst (WaitingFits r) h inv.fits in
    (
      exited,
      elim (inv.done_by d) [
        | inl (released, empty) ↦ inl (released, all_sent r inv empty)
        | inr gone ↦ inr gone
      ],
    )
