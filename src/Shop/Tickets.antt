-- ===== src/Shop/Tickets.antt =====
-- apiV2/src/tickets: the tickets of the help desk, their comments and history, and the sweep of the
-- overdue ones. A request is one step; the clock's reading and the identifier that the database
-- generates are arguments. Rows stand in the order of their creation.
pub mod Lists
pub mod Controller
pub mod Sweep
pub mod History
pub mod Walk
pub mod Workflow
pub mod Breaches
mod Examples
use tflw_tests.Prelude.{
  ℕ, ◌+◌, Bool, true, false, not, ◌&&◌, ◌||◌, Option, none, some, List, [], ◌∷◌, ◌++◌, ◌==◌,
  if◌then◌else◌, is_some, filter, Text,
}
use tflw_tests.Shop.Tables.{
  not_found, forbidden, conflict, unprocessable, Attempt, failed, done, and_then, unless,
  or_missing, is_id, find_one, update,
}
use tflw_tests.Shop.Orgs.{
  is_admin_role, is_agent, is_user, Account, AuthedUser, OrgMembership, get_for_user, manages_org,
  org_of,
}

pub data TicketStatus : Type 0 where
  open_ : TicketStatus
  in_progress : TicketStatus
  resolved : TicketStatus
  closed : TicketStatus
  cancelled : TicketStatus

pub data TicketEventType : Type 0 where
  created : TicketEventType
  assigned : TicketEventType
  claimed : TicketEventType
  started : TicketEventType
  was_resolved : TicketEventType
  was_closed : TicketEventType
  was_cancelled : TicketEventType
  sla_breached : TicketEventType

pub record Ticket : Type 0 where
  pub id : ℕ
  pub subject : Text
  pub description : Text
  pub status : TicketStatus
  pub submitted_by : ℕ
  pub assigned_to : Option ℕ
  pub sla_deadline : Option ℕ
  pub sla_breached : Bool
  pub breached_at : Option ℕ
  pub org_id : Option ℕ

pub record TicketEvent : Type 0 where
  pub ticket_id : ℕ
  pub event_type : TicketEventType
  pub actor_user_id : Option ℕ

pub record TicketComment : Type 0 where
  pub ticket_id : ℕ
  pub author_user_id : ℕ
  pub text : Text
  pub is_internal : Bool

pub record Desk : Type 0 where
  pub tickets : List Ticket
  pub comments : List TicketComment
  pub events : List TicketEvent
  pub users : List Account
  pub memberships : List OrgMembership

abbrev pub is_open : TicketStatus → Bool
is_open open_ = true
is_open _ = false

abbrev pub is_in_progress : TicketStatus → Bool
is_in_progress in_progress = true
is_in_progress _ = false

abbrev pub is_resolved : TicketStatus → Bool
is_resolved resolved = true
is_resolved _ = false

abbrev pub has_id : ℕ → Ticket → Bool
has_id id t = t.id == id

unfoldable pub log_event : ℕ → TicketEventType → Option ℕ → List TicketEvent → List TicketEvent
log_event id type actor events =
    events ++ record { ticket_id = id; event_type = type; actor_user_id = actor } ∷ []

unfoldable pub can_view : Desk → Ticket → AuthedUser → Bool
unfolding get_for_user manages_org is_id
can_view d t r =
    if is_admin_role r.role
    then true
    else if t.submitted_by == r.id
    then true
    else if is_agent r.role
    then not (is_some t.assigned_to) || is_id t.assigned_to r.id
    else manages_org (get_for_user r.id d.memberships) t.org_id

unfoldable pub is_assigned_actor : Ticket → AuthedUser → Bool
unfolding is_id
is_assigned_actor t r = is_admin_role r.role || is_agent r.role && is_id t.assigned_to r.id

abbrev pub sla_window_ms : ℕ
sla_window_ms = 1500

unfoldable pub create : ℕ → ℕ → Text → Text → ℕ → Desk → Ticket × Desk
unfolding get_for_user org_of log_event
create id now subject description user_id d =
    let t : Ticket = record {
      id = id;
      subject = subject;
      description = description;
      status = open_;
      submitted_by = user_id;
      assigned_to = none;
      sla_deadline = some (now + sla_window_ms);
      sla_breached = false;
      breached_at = none;
      org_id = org_of (get_for_user user_id d.memberships);
    } in
    (
      t,
      record d {
        tickets = d.tickets ++ t ∷ [];
        events = log_event id created (some user_id) d.events;
      },
    )

unfoldable pub find_one_scoped : ℕ → AuthedUser → Desk → Attempt Ticket
unfolding find_one can_view
find_one_scoped id r d = elim (find_one (has_id id) d.tickets) [
  | none ↦ failed not_found
  | some t ↦ if can_view d t r then done t else failed not_found
]

-- `save` of a ticket and its line in the history, which every change ends with.
unfoldable pub save_logged : ℕ → TicketEventType → ℕ → Ticket → Desk → Ticket × Desk
unfolding update log_event
save_logged id type actor t d = (
  t,
  record d {
    tickets = update (has_id id) (λ row. t) d.tickets;
    events = log_event id type (some actor) d.events;
  },
)

unfoldable pub assign : ℕ → ℕ → ℕ → Desk → Attempt (Ticket × Desk)
unfolding and_then or_missing unless find_one save_logged
assign id assignee_id admin_id d = and_then (or_missing (find_one (has_id id) d.tickets)) λ t.
    and_then (or_missing (find_one (λ u. u.id == assignee_id) d.users)) λ assignee.
      unless (is_agent assignee.role) unprocessable
        (done (save_logged id assigned admin_id (record t { assigned_to = some assignee_id }) d))

unfoldable pub claim : ℕ → ℕ → Desk → Attempt (Ticket × Desk)
unfolding and_then or_missing unless find_one save_logged is_some
claim id agent_id d = and_then (or_missing (find_one (has_id id) d.tickets)) λ t.
    unless (not (is_some t.assigned_to)) conflict
      (done (save_logged id claimed agent_id (record t { assigned_to = some agent_id }) d))

unfoldable pub start : ℕ → AuthedUser → Desk → Attempt (Ticket × Desk)
unfolding and_then unless find_one_scoped is_assigned_actor save_logged
start id r d = and_then (find_one_scoped id r d) λ t. unless (is_assigned_actor t r) forbidden (
    unless (is_open t.status) conflict
      (done (save_logged id started r.id (record t { status = in_progress }) d)))

unfoldable pub resolve : ℕ → AuthedUser → Desk → Attempt (Ticket × Desk)
unfolding and_then unless find_one_scoped is_assigned_actor save_logged
resolve id r d = and_then (find_one_scoped id r d) λ t. unless (is_assigned_actor t r) forbidden (
    unless (is_in_progress t.status) conflict
      (done (save_logged id was_resolved r.id (record t { status = resolved }) d)))

unfoldable pub close : ℕ → AuthedUser → Desk → Attempt (Ticket × Desk)
unfolding and_then unless find_one_scoped save_logged
close id r d = and_then (find_one_scoped id r d) λ t. unless (t.submitted_by == r.id) forbidden (
    unless (is_resolved t.status) conflict
      (done (save_logged id was_closed r.id (record t { status = closed }) d)))

unfoldable pub cancel : ℕ → AuthedUser → Desk → Attempt (Ticket × Desk)
unfolding and_then unless find_one_scoped save_logged
cancel id r d = and_then (find_one_scoped id r d) λ t. unless (t.submitted_by == r.id) forbidden (
    unless (is_open t.status || is_in_progress t.status) conflict
      (done (save_logged id was_cancelled r.id (record t { status = cancelled }) d)))

unfoldable pub add_comment : ℕ → AuthedUser → Text → Bool → Desk → Attempt (TicketComment × Desk)
unfolding and_then unless find_one_scoped
add_comment id r text is_internal d = and_then (find_one_scoped id r d) λ t.
    unless (not (is_internal && is_user r.role)) forbidden (
      let c : TicketComment = record {
        ticket_id = id;
        author_user_id = r.id;
        text = text;
        is_internal = is_internal;
      } in
      done (c, record d { comments = d.comments ++ c ∷ [] }))

unfoldable pub find_comments_scoped : ℕ → AuthedUser → Desk → Attempt (List TicketComment)
unfolding and_then find_one_scoped
find_comments_scoped id r d = and_then (find_one_scoped id r d) λ t.
    done (filter (λ c. (c.ticket_id == id) && not (is_user r.role && c.is_internal)) d.comments)

unfoldable pub find_history_scoped : ℕ → AuthedUser → Desk → Attempt (List TicketEvent)
unfolding and_then find_one_scoped
find_history_scoped id r d =
    and_then (find_one_scoped id r d) λ t. done (filter (λ e. e.ticket_id == id) d.events)
