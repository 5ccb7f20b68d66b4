-- ===== src/Shop/Tickets/Examples.antt =====
-- A help desk with an agent, an admin and two users, and the theorems at it.
use tflw_tests.Prelude.{
  ◌≡◌, refl, true, false, ◌&&◌, none, some, List, [], ◌∷◌, map, is_some, filter, codes,
}
use tflw_tests.Shop.Orgs.{user, agent, AuthedUser, owner, member, OrgMembership}
use tflw_tests.Shop.Tickets.{
  open_, in_progress, TicketEventType, created, claimed, started, Ticket, Desk, can_view,
}
use tflw_tests.Shop.Tickets.Lists.{Query, matches, find_all_scoped, lists, find_all_scoped-can_view}
use tflw_tests.Shop.Tickets.History.{IsRecorded}
use tflw_tests.Shop.Tickets.Controller.{Request, post, post_claim, post_start, handle}
use tflw_tests.Shop.Tickets.Sweep.{sweep}
use tflw_tests.Shop.Tickets.Workflow.{
  Reachable, first, then_request, then_sweep, Reachable-IsRecorded,
}

abbrev anna : AuthedUser
anna = record { id = 1; role = user }

abbrev bob : AuthedUser
bob = record { id = 2; role = agent }

abbrev olga : AuthedUser
olga = record { id = 3; role = user }

abbrev members : List OrgMembership
members =
    record { id = 70; org_id = 7; user_id = 1; org_role = member }
    ∷ record { id = 71; org_id = 7; user_id = 3; org_role = owner }
    ∷ []

abbrev empty_desk : Desk
empty_desk = record { tickets = []; comments = []; events = []; users = []; memberships = members }

abbrev opened : Request
opened = post 10 1000 (codes "late") (codes "parcel")

busy_desk : Desk
busy_desk =
    sweep 3000 3001
      (handle bob (post_start 10) (handle bob (post_claim 10) (handle anna opened empty_desk)))

busy_desk-Reachable : Reachable busy_desk
unfolding busy_desk
busy_desk-Reachable = then_sweep 3000 3001 (
    then_request bob (post_start 10)
      (then_request bob (post_claim 10) (then_request anna opened (first [] members) refl) tt) tt)

Reachable-IsRecorded_example : IsRecorded busy_desk
Reachable-IsRecorded_example = Reachable-IsRecorded busy_desk busy_desk-Reachable

-- Its ticket is in progress and breached, with a line for each step.
busy_status : map (λ t. t.status) busy_desk.tickets ≡ in_progress ∷ []
unfolding busy_desk sweep handle
busy_status = refl

busy_history :
    map (λ e. e.event_type) busy_desk.events
    ≡ created ∷ claimed ∷ started ∷ TicketEventType.sla_breached ∷ []
unfolding busy_desk sweep handle
busy_history = refl

abbrev all_tickets : Query
all_tickets = record { status = none; sla_breached = some true; assigned_to = none }

find_all_scoped-can_view_example :
    find_all_scoped olga all_tickets busy_desk
    ≡ filter
        (λ t. can_view busy_desk t olga && lists olga t && matches all_tickets t)
        busy_desk.tickets
find_all_scoped-can_view_example = find_all_scoped-can_view busy_desk olga all_tickets

-- The owner of the organization sees the ticket of a member.
olga_list : map (λ t. t.id) (find_all_scoped olga all_tickets busy_desk) ≡ 10 ∷ []
unfolding busy_desk sweep handle find_all_scoped
olga_list = refl

-- An agent may open a ticket that they have submitted and that is another agent's, and does not
-- find it in their list.
abbrev of_bob : Ticket
of_bob = record {
  id = 11;
  subject = codes "own";
  description = codes "ticket";
  status = open_;
  submitted_by = 2;
  assigned_to = some 4;
  sla_deadline = none;
  sla_breached = false;
  breached_at = none;
  org_id = none;
}

abbrev every_ticket : Query
every_ticket = record { status = none; sla_breached = none; assigned_to = none }

abbrev desk_of_bob : Desk
desk_of_bob = record empty_desk { tickets = of_bob ∷ [] }

bob_opens : can_view desk_of_bob of_bob bob ≡ true
unfolding can_view
bob_opens = refl

bob_list : find_all_scoped bob every_ticket desk_of_bob ≡ []
unfolding find_all_scoped is_some
bob_list = refl

-- One tick stamps the ticket that is past its deadline.
abbrev late_ticket : Ticket
late_ticket = record of_bob { sla_deadline = some 1500 }

abbrev late_desk : Desk
late_desk = record empty_desk { tickets = late_ticket ∷ [] }
