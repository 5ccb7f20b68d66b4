-- ===== src/Shop/Tickets/Walk.antt =====
-- Where the lines of a history lead from each status.
use tflw_tests.Prelude.{◌≡◌, refl, true, ◌||◌, some}
use tflw_tests.Shop.Tickets.History.{walk}
use tflw_tests.Shop.Tickets.{
  TicketStatus, open_, in_progress, resolved, closed, cancelled, TicketEventType, assigned, claimed,
  was_cancelled, is_open, is_in_progress, is_resolved,
}

pub is_open→eq : (s : TicketStatus) → is_open s ≡ true → s ≡ open_
is_open→eq open_ h = refl
is_open→eq in_progress h = cc h
is_open→eq resolved h = cc h
is_open→eq closed h = cc h
is_open→eq cancelled h = cc h

pub is_in_progress→eq : (s : TicketStatus) → is_in_progress s ≡ true → s ≡ in_progress
is_in_progress→eq open_ h = cc h
is_in_progress→eq in_progress h = refl
is_in_progress→eq resolved h = cc h
is_in_progress→eq closed h = cc h
is_in_progress→eq cancelled h = cc h

pub is_resolved→eq : (s : TicketStatus) → is_resolved s ≡ true → s ≡ resolved
is_resolved→eq open_ h = cc h
is_resolved→eq in_progress h = cc h
is_resolved→eq resolved h = refl
is_resolved→eq closed h = cc h
is_resolved→eq cancelled h = cc h

pub walk-cancelled :
    (s : TicketStatus)
    → (is_open s || is_in_progress s) ≡ true
    → walk (some s) was_cancelled ≡ some cancelled
unfolding walk
walk-cancelled open_ h = refl
walk-cancelled in_progress h = refl
walk-cancelled resolved h = cc h
walk-cancelled closed h = cc h
walk-cancelled cancelled h = cc h

pub walk-assigned : (s : TicketStatus) → walk (some s) assigned ≡ some s
unfolding walk
walk-assigned open_ = refl
walk-assigned in_progress = refl
walk-assigned resolved = refl
walk-assigned closed = refl
walk-assigned cancelled = refl

pub walk-claimed : (s : TicketStatus) → walk (some s) claimed ≡ some s
unfolding walk
walk-claimed open_ = refl
walk-claimed in_progress = refl
walk-claimed resolved = refl
walk-claimed closed = refl
walk-claimed cancelled = refl

pub walk-breached : (s : TicketStatus) → walk (some s) TicketEventType.sla_breached ≡ some s
unfolding walk
walk-breached open_ = refl
walk-breached in_progress = refl
walk-breached resolved = refl
walk-breached closed = refl
walk-breached cancelled = refl
