-- ===== src/Shop/Tickets/Sweep.antt =====
-- apiV2/src/tickets/ticket-sla-sweep.service.ts: one tick of the sweep. The loop runs over the
-- tickets that were overdue at its top, and skips one that is gone by then.
use tflw_tests.Prelude.{
  ℕ, Bool, true, false, not, ◌&&◌, ◌||◌, Option, none, some, List, [], ◌∷◌, ltb, leb, if◌then◌else◌,
  take, any, filter,
}
use tflw_tests.Shop.Tables.{update}
use tflw_tests.Shop.Tickets.{
  TicketEventType, Ticket, Desk, is_open, is_in_progress, has_id, log_event,
}

abbrev pub sla_sweep_batch : ℕ
sla_sweep_batch = 500

-- `slaDeadline: LessThan(now)`, which no null passes.
abbrev pub past : ℕ → Option ℕ → Bool
past now none = false
past now (some deadline) = ltb deadline now

unfoldable pub is_overdue : ℕ → Ticket → Bool
is_overdue now t =
    (is_open t.status || is_in_progress t.status) && not t.sla_breached && past now t.sla_deadline

abbrev pub deadline_of : Option ℕ → ℕ
deadline_of none = 0
deadline_of (some deadline) = deadline

unfoldable pub place_by_deadline : Ticket → List Ticket → List Ticket
place_by_deadline t [] = t ∷ []
place_by_deadline t (u ∷ us) =
    let rest = place_by_deadline t us in
    if leb (deadline_of t.sla_deadline) (deadline_of u.sla_deadline) then t ∷ u ∷ us else u ∷ rest

unfoldable pub by_deadline : List Ticket → List Ticket
unfolding place_by_deadline
by_deadline [] = []
by_deadline (t ∷ ts) = place_by_deadline t (by_deadline ts)

unfoldable pub overdue : ℕ → List Ticket → List Ticket
unfolding by_deadline is_overdue
overdue now ts = take sla_sweep_batch (by_deadline (filter (is_overdue now) ts))

abbrev pub stamp : ℕ → Ticket → Ticket
stamp at t = record t { sla_breached = true; breached_at = some at }

-- The event of a ticket that is gone breaks the foreign key, and the ticket is skipped.
unfoldable pub breach : ℕ → ℕ → Desk → Desk
unfolding update log_event
breach at id d =
    let tickets = update (has_id id) (stamp at) d.tickets in
    if any (has_id id) tickets
    then record d {
      tickets = tickets;
      events = log_event id TicketEventType.sla_breached none d.events;
    }
    else record d { tickets = tickets }

unfoldable pub breach_each : ℕ → List Ticket → Desk → Desk
unfolding breach
breach_each at [] d = d
breach_each at (t ∷ ts) d = breach_each at ts (breach at t.id d)

unfoldable pub sweep : ℕ → ℕ → Desk → Desk
unfolding overdue breach_each
sweep now at d = breach_each at (overdue now d.tickets) d
