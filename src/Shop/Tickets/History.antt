-- ===== src/Shop/Tickets/History.antt =====
-- The help desk as a state machine: what every sequence of requests and sweeps leaves in the
-- history of a ticket.
use tflw_tests.Prelude.{
  ℕ, ◌≡◌, refl, sym, inl, inr, false, Option, none, some, List, [], ◌∷◌, ◌++◌, arith, ◌==◌,
  if◌then◌else◌, eqb→eq, eqb_refl, Bool-cases, Option-cases,
}
use tflw_tests.Shop.Tables.{find_one, find_one-holds, find_one-update}
use tflw_tests.Shop.Tickets.{
  TicketStatus, open_, in_progress, resolved, closed, cancelled, TicketEventType, created, assigned,
  claimed, started, was_resolved, was_closed, was_cancelled, sla_breached, Ticket, TicketEvent,
  Desk, has_id, log_event, save_logged,
}

-- The documented workflow: the status behind one more line of the history, where it may stand.
unfoldable pub walk : Option TicketStatus → TicketEventType → Option TicketStatus
walk none created = some open_
walk none _ = none
walk (some open_) started = some in_progress
walk (some in_progress) was_resolved = some resolved
walk (some resolved) was_closed = some closed
walk (some open_) was_cancelled = some cancelled
walk (some in_progress) was_cancelled = some cancelled
walk (some s) assigned = some s
walk (some s) claimed = some s
walk (some s) sla_breached = some s
walk (some s) _ = none

-- The status that the history of a ticket spells.
unfoldable pub replay : ℕ → Option TicketStatus → List TicketEvent → Option TicketStatus
unfolding walk
replay id s [] = s
replay id s (e ∷ es) =
    let here = replay id (walk s e.event_type) es in
    let there = replay id s es in if e.ticket_id == id then here else there

abbrev pub status_of : Option Ticket → Option TicketStatus
status_of none = none
status_of (some t) = some t.status

-- The row of every ticket has the status that its history spells.
pub record IsRecorded (d : Desk) : Type 0 where
  pub spelled : (id : ℕ) → replay id none d.events ≡ status_of (find_one (has_id id) d.tickets)

pub replay-append :
    (id : ℕ) (s : Option TicketStatus) (es : List TicketEvent) (e : TicketEvent)
    → replay id s (es ++ e ∷ [])
      ≡ (if e.ticket_id == id then walk (replay id s es) e.event_type else replay id s es)
unfolding replay
replay-append id s [] e = refl
replay-append id s (f ∷ es) e = elim (Bool-cases (f.ticket_id == id)) [
  | inl h ↦ rw h (replay-append id (walk s f.event_type) es e)
  | inr h ↦ rw h (replay-append id s es e)
]

abbrev pub log_line : ℕ → TicketEventType → Option ℕ → TicketEvent
log_line id type actor = record { ticket_id = id; event_type = type; actor_user_id = actor }

-- A saved change that the workflow allows keeps every history spelling its status.
pub save_logged-IsRecorded :
    (d : Desk) (id actor : ℕ) (type : TicketEventType) (t new : Ticket)
    → find_one (has_id id) d.tickets ≡ some t
    → new.id ≡ t.id
    → walk (some t.status) type ≡ some new.status
    → IsRecorded d
    → IsRecorded (save_logged id type actor new d).1
unfolding save_logged log_event
save_logged-IsRecorded d id actor type t new found same allowed h =
    let at_id : t.id ≡ id = eqb→eq t.id id (find_one-holds (has_id id) d.tickets t found) in
    record {
      spelled = λ j.
          let tail = replay-append j none d.events (log_line id type (some actor)) in
          let row =
            find_one-update (has_id j) (has_id id) (λ r. new) d.tickets
              λ x k. ground (arith, at_id, same, eqb→eq x.id id k) in
          let known = h.spelled j in
          elim (Bool-cases (id == j)) [
            | inl e ↦
                let ij : id ≡ j = eqb→eq id j e in
                let found_j : find_one (has_id j) d.tickets ≡ some t = rw (sym ij) found in
                rw (tail, e, row, found_j, known, found_j) (rw (at_id, eqb_refl id) allowed)
            | inr e ↦ elim (Option-cases (find_one (has_id j) d.tickets)) [
              | inl k ↦ rw (tail, e, row, known, k) refl
              | inr (x, k) ↦
                  let xj : x.id ≡ j = eqb→eq x.id j (find_one-holds (has_id j) d.tickets x k) in
                  let off : (x.id == id) ≡ false = ground (arith, xj) in
                  rw (tail, e, row, known, k) (rw off refl)
            ]
          ];
    }
