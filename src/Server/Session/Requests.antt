-- ===== src/Server/Session/Requests.antt =====
-- The PTY requests that a connection holds for its sessions.
use sshmux.Base.{
  ℕ, Bool, true, false, ◌∙◌, Option, none, some, List, [], ◌∷◌, ◌==◌, nat_eq, if◌then◌else◌, ◌≡◌,
  refl, arith,
}
use sshmux.Server.Session.{
  Pty, Context, Session, roles_from_context, pty_value, set_pty_value, pty_handler, pty_release,
  session_pty,
}

-- What happens to PTY requests on a connection: one comes, or the session that had one ends.
pub data PtyEvent : Type 0 where
  requested : Session → Pty → PtyEvent
  session_ended : Session → PtyEvent

pub after_event : Context → PtyEvent → Context
after_event ctx (requested s pty) = pty_handler ctx s pty
after_event ctx (session_ended s) = pty_release ctx s

pub after_events : Context → List PtyEvent → Context
after_events ctx [] = ctx
after_events ctx (e ∷ events) = after_events (after_event ctx e) events

-- What the last event of a session leaves it; `pty` if there is none.
pub latest : ℕ → Option Pty → List PtyEvent → Option Pty
latest id pty [] = pty
latest id pty (requested s p ∷ events) =
    if id == s.id then latest id (some p) events else latest id pty events
latest id pty (session_ended s ∷ events) =
    if id == s.id then latest id none events else latest id pty events

latest_chosen :
    (b : Bool) (id : ℕ) (p q : Option Pty) (events : List PtyEvent)
    → latest id (if b then p else q) events ≡ (if b then latest id p events else latest id q events)
latest_chosen true id p q events = refl
latest_chosen false id p q events = refl

pty_value-after_events :
    (ctx : Context) (id : ℕ) (events : List PtyEvent)
    → pty_value (after_events ctx events).ptys id ≡ latest id (pty_value ctx.ptys id) events
unfolding after_events latest after_event pty_handler pty_release set_pty_value pty_value
pty_value-after_events ctx id [] = refl
pty_value-after_events ctx id (requested s p ∷ events) =
    pty_value-after_events (pty_handler ctx s p) id events
    ∙ latest_chosen (id == s.id) id (some p) _ events
pty_value-after_events ctx id (session_ended s ∷ events) =
    pty_value-after_events (pty_release ctx s) id events
    ∙ latest_chosen (id == s.id) id none _ events

after_events-roles :
    (ctx : Context) (events : List PtyEvent)
    → roles_from_context (after_events ctx events) ≡ roles_from_context ctx
unfolding after_events after_event pty_handler pty_release set_pty_value roles_from_context
after_events-roles ctx [] = refl
after_events-roles ctx (requested s p ∷ events) = after_events-roles (pty_handler ctx s p) events
after_events-roles ctx (session_ended s ∷ events) = after_events-roles (pty_release ctx s) events

-- Whatever requests other sessions of a connection make, and whenever they end, a session for which the
-- library reports no PTY finds the one that it asked for last, and none once it has ended; and its
-- roles stay as they are.
pub session_pty-after_events :
    (ctx : Context) (s : Session) (events : List PtyEvent)
    → s.pty ≡ none
    → (session_pty (after_events ctx events) s ≡ latest s.id (pty_value ctx.ptys s.id) events)
      × (roles_from_context (after_events ctx events) ≡ roles_from_context ctx)
unfolding session_pty
session_pty-after_events ctx s events h =
    (ground (arith, h, pty_value-after_events ctx s.id events), after_events-roles ctx events)
