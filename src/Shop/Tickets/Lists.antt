-- ===== src/Shop/Tickets/Lists.antt =====
-- `findAllScoped` of apiV2/src/tickets/tickets.service.ts beside the rule of who may see a ticket.
use tflw_tests.Prelude.{
  ℕ, ◌≡◌, refl, inl, inr, Bool, true, false, not, ◌&&◌, ◌||◌, Option, none, some, List, [], ◌∷◌,
  arith, ◌==◌, if◌then◌else◌, Bool-cases, Option-cases, is_some, filter,
}
use tflw_tests.Shop.Tables.{is_id}
use tflw_tests.Shop.Orgs.{
  admin, user, agent, is_agent, UserRole-cases, AuthedUser, get_for_user, is_owner_or_admin,
  manages_org,
}
use tflw_tests.Shop.Tickets.{
  TicketStatus, open_, in_progress, resolved, closed, cancelled, Ticket, Desk, is_open,
  is_in_progress, is_resolved, can_view,
}

pub record Query : Type 0 where
  pub status : Option TicketStatus
  pub sla_breached : Option Bool
  pub assigned_to : Option ℕ

pub same_status : TicketStatus → TicketStatus → Bool
same_status open_ s = is_open s
same_status in_progress s = is_in_progress s
same_status resolved s = is_resolved s
same_status closed closed = true
same_status closed _ = false
same_status cancelled cancelled = true
same_status cancelled _ = false

abbrev pub same_bool : Bool → Bool → Bool
same_bool true b = b
same_bool false b = not b

-- A filter that the query leaves out lets every ticket pass.
abbrev pub if_given : {A : Type 0} → Option A → (A → Bool) → Bool
if_given none p = true
if_given (some x) p = p x

-- The rows that the role reads: the first of the conditions in `andWhere`.
pub in_scope : Desk → AuthedUser → Ticket → Bool
unfolding get_for_user is_owner_or_admin is_id
in_scope d r t = elim r.role [
  | admin ↦ true
  | agent ↦ is_id t.assigned_to r.id || not (is_some t.assigned_to)
  | user ↦ elim (get_for_user r.id d.memberships) [
    | none ↦ t.submitted_by == r.id
    | some m ↦
        if is_owner_or_admin (some m)
        then (t.submitted_by == r.id) || is_id t.org_id m.org_id
        else t.submitted_by == r.id
  ]
]

pub matches : Query → Ticket → Bool
unfolding same_status is_id
matches q t =
    if_given q.status (same_status t.status)
    && if_given q.sla_breached (same_bool t.sla_breached)
    && if_given q.assigned_to (is_id t.assigned_to)

unfoldable pub find_all_scoped : AuthedUser → Query → Desk → List Ticket
unfolding in_scope matches
find_all_scoped r q d = filter (λ t. in_scope d r t && matches q t) d.tickets

-- What an agent's list is limited to beyond what they may open: tickets of theirs or of nobody.
abbrev pub lists : AuthedUser → Ticket → Bool
lists r t = not (is_agent r.role) || is_id t.assigned_to r.id || not (is_some t.assigned_to)

in_scope-can_view :
    (d : Desk) (r : AuthedUser) (t : Ticket) → in_scope d r t ≡ (can_view d t r && lists r t)
unfolding in_scope can_view manages_org is_owner_or_admin
in_scope-can_view d r t = elim (UserRole-cases r.role) [
  | inl e ↦ rw e refl
  | inr (inr e) ↦ rw e (ground arith)
  | inr (inl e) ↦ rw e (elim (Option-cases (get_for_user r.id d.memberships)) [
    | inl k ↦ rw k (ground arith)
    | inr (m, k) ↦ rw k (ground arith)
  ])
]

filter-same :
    (p g l q : Ticket → Bool) (ts : List Ticket)
    → ((t : Ticket) → p t ≡ (g t && l t))
    → filter (λ t. p t && q t) ts ≡ filter (λ t. g t && l t && q t) ts
filter-same p g l q [] h = refl
filter-same p g l q (t ∷ ts) h = elim (Bool-cases (g t)) [
  | inl e ↦ rw (h t, e, filter-same p g l q ts h) refl
  | inr e ↦ rw (h t, e, filter-same p g l q ts h) refl
]

-- A list holds, in order, just the tickets that the requester may open and the filters let pass,
-- and for an agent only those of them that are assigned to them or to nobody.
pub find_all_scoped-can_view :
    (d : Desk) (r : AuthedUser) (q : Query)
    → find_all_scoped r q d ≡ filter (λ t. can_view d t r && lists r t && matches q t) d.tickets
unfolding find_all_scoped
find_all_scoped-can_view d r q =
    filter-same (in_scope d r) (λ t. can_view d t r) (lists r) (matches q) d.tickets
      (in_scope-can_view d r)
