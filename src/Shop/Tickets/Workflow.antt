-- ===== src/Shop/Tickets/Workflow.antt =====
-- Every sequence of requests and sweeps of the help desk keeps to the workflow.
use tflw_tests.Prelude.{
  ℕ, ◌≡◌, refl, sym, ap, ◌∙◌, ◌⊎◌, inl, inr, Bool, true, false, ◌||◌, Option, none, some, List, [],
  ◌∷◌, ◌++◌, ◌==◌, eqb→eq, Bool-cases, Option-cases, any, Text,
}
use tflw_tests.Shop.Tables.{
  Fault, not_found, forbidden, conflict, unprocessable, Attempt, failed, done, and_then, unless,
  or_missing, find_one, update, find_one-append, find_one-update, any-false-find_one,
  find_one-none-any,
}
use tflw_tests.Shop.Orgs.{is_admin_role, is_agent, Account, AuthedUser, OrgMembership}
use tflw_tests.Shop.Tickets.{
  in_progress, resolved, closed, cancelled, TicketEventType, created, assigned, claimed, started,
  was_resolved, was_closed, was_cancelled, Ticket, TicketComment, Desk, has_id, log_event, can_view,
  create, find_one_scoped, save_logged, assign, claim, start, resolve, close, cancel, add_comment,
}
use tflw_tests.Shop.Tickets.Controller.{
  Request, post, patch_assign, post_claim, post_start, post_resolve, post_close, post_cancel,
  post_comment, settle, handle,
}
use tflw_tests.Shop.Tickets.Sweep.{overdue, stamp, breach, breach_each, sweep}
use tflw_tests.Shop.Tickets.History.{
  walk, replay, status_of, IsRecorded, replay-append, log_line, save_logged-IsRecorded,
}
use tflw_tests.Shop.Tickets.Walk.{
  is_open→eq, is_in_progress→eq, is_resolved→eq, walk-cancelled, walk-assigned, walk-claimed,
  walk-breached,
}

-- A request that creates brings an identifier that no ticket has.
abbrev pub IsFresh : Request → Desk → Type 0
IsFresh (post id now subject description) d = any (has_id id) d.tickets ≡ false
IsFresh _ d = Unit

-- What happens to the desk: requests of any user, and ticks of the sweep between them.
pub data Reachable : Desk → Type 0 where
  first :
      (users : List Account) (memberships : List OrgMembership)
      → Reachable (record {
        tickets = [];
        comments = [];
        events = [];
        users = users;
        memberships = memberships;
      })
  then_request :
      (r : AuthedUser) (q : Request) {d : Desk}
      → Reachable d
      → IsFresh q d
      → Reachable (handle r q d)
  then_sweep : (now at : ℕ) {d : Desk} → Reachable d → Reachable (sweep now at d)

find_one_scoped-cases :
    (id : ℕ) (r : AuthedUser) (d : Desk)
    → (find_one_scoped id r d ≡ failed not_found)
      ⊎ ((t : Ticket) × (find_one (has_id id) d.tickets ≡ some t)
          × (find_one_scoped id r d ≡ done t))
unfolding find_one_scoped
find_one_scoped-cases id r d = elim (Option-cases (find_one (has_id id) d.tickets)) [
  | inl e ↦ inl (rw (e, find_one_scoped) refl)
  | inr (t, e) ↦ elim (Bool-cases (can_view d t r)) [
    | inl v ↦ inr (t, e, rw (e, find_one_scoped) (rw v refl))
    | inr v ↦ inl (rw (e, find_one_scoped) (rw v refl))
  ]
]

-- The steps of a request that may fail.
module _ {A : Type 0} (d : Desk) (known : IsRecorded d) where
  unless-IsRecorded :
      (ok : Bool) (fault : Fault) (rest : Attempt (A × Desk))
      → (ok ≡ true → IsRecorded (settle rest d))
      → IsRecorded (settle (unless ok fault rest) d)
  unfolding settle unless
  unless-IsRecorded true fault rest h = h refl
  unless-IsRecorded false fault rest h = known

  or_missing-IsRecorded :
      {B : Type 0} (row : Option B) (next : B → Attempt (A × Desk))
      → ((x : B) → row ≡ some x → IsRecorded (settle (next x) d))
      → IsRecorded (settle (and_then (or_missing row) next) d)
  unfolding settle and_then or_missing
  or_missing-IsRecorded none next h = known
  or_missing-IsRecorded (some x) next h = h x refl

  scoped-IsRecorded :
      (id : ℕ) (r : AuthedUser) (next : Ticket → Attempt (A × Desk))
      → ((t : Ticket) → find_one (has_id id) d.tickets ≡ some t → IsRecorded (settle (next t) d))
      → IsRecorded (settle (and_then (find_one_scoped id r d) next) d)
  unfolding settle and_then
  scoped-IsRecorded id r next h = elim (find_one_scoped-cases id r d) [
    | inl e ↦ rw e known
    | inr (t, e, k) ↦ rw k (h t e)
  ]

module _ (d : Desk) (known : IsRecorded d) where
  saved-IsRecorded :
      (id actor : ℕ) (type : TicketEventType) (t new : Ticket)
      → find_one (has_id id) d.tickets ≡ some t
      → new.id ≡ t.id
      → walk (some t.status) type ≡ some new.status
      → IsRecorded (settle (done (save_logged id type actor new d)) d)
  unfolding settle
  saved-IsRecorded id actor type t new found same allowed =
      save_logged-IsRecorded d id actor type t new found same allowed known

  create-IsRecorded :
      (id now : ℕ) (subject description : Text) (user_id : ℕ)
      → any (has_id id) d.tickets ≡ false
      → IsRecorded (create id now subject description user_id d).1
  unfolding create log_event
  create-IsRecorded id now subject description user_id fresh = record {
    spelled = λ j.
        let made = (create id now subject description user_id d).0 in
        let tail = replay-append j none d.events (log_line id created (some user_id)) in
        let row = find_one-append (has_id j) d.tickets (made ∷ []) in
        let old = known.spelled j in
        elim (Bool-cases (id == j)) [
          | inl e ↦
              let ij : id ≡ j = eqb→eq id j e in
              let gone : find_one (has_id j) d.tickets ≡ none =
                any-false-find_one (has_id j) d.tickets (rw (sym ij) fresh) in
              rw (tail, e, row, old, gone) (unfold find_one walk in rw e refl)
          | inr e ↦ elim (Option-cases (find_one (has_id j) d.tickets)) [
            | inl k ↦ rw (tail, e, row, old, k) (unfold find_one in rw e refl)
            | inr (x, k) ↦ rw (tail, e, row, old, k) refl
          ]
        ];
  }

  claim-IsRecorded : (id agent_id : ℕ) → IsRecorded (settle (claim id agent_id d) d)
  unfolding claim
  claim-IsRecorded id agent_id =
      or_missing-IsRecorded d known (find_one (has_id id) d.tickets) _ λ t found.
        unless-IsRecorded d known _ conflict _ λ free.
          let new : Ticket = record t { assigned_to = some agent_id } in
          saved-IsRecorded id agent_id claimed t new found refl (walk-claimed t.status)

  assign-IsRecorded :
      (id assignee admin_id : ℕ) → IsRecorded (settle (assign id assignee admin_id d) d)
  unfolding assign
  assign-IsRecorded id assignee admin_id =
      or_missing-IsRecorded d known (find_one (has_id id) d.tickets) _ λ t found.
        or_missing-IsRecorded d known (find_one (λ u. u.id == assignee) d.users) _ λ u given.
          unless-IsRecorded d known _ unprocessable _ λ ok.
            let new : Ticket = record t { assigned_to = some assignee } in
            saved-IsRecorded id admin_id assigned t new found refl (walk-assigned t.status)

  start-IsRecorded : (id : ℕ) (r : AuthedUser) → IsRecorded (settle (start id r d) d)
  unfolding start
  start-IsRecorded id r = scoped-IsRecorded d known id r _ λ t found.
      unless-IsRecorded d known _ forbidden _ λ actor. unless-IsRecorded d known _ conflict _ λ s.
        let new : Ticket = record t { status = in_progress } in
        saved-IsRecorded id r.id started t new found refl
          (rw (is_open→eq t.status s) (unfold walk in refl))

  resolve-IsRecorded : (id : ℕ) (r : AuthedUser) → IsRecorded (settle (resolve id r d) d)
  unfolding resolve
  resolve-IsRecorded id r = scoped-IsRecorded d known id r _ λ t found.
      unless-IsRecorded d known _ forbidden _ λ actor. unless-IsRecorded d known _ conflict _ λ s.
        let new : Ticket = record t { status = resolved } in
        saved-IsRecorded id r.id was_resolved t new found refl
          (rw (is_in_progress→eq t.status s) (unfold walk in refl))

  close-IsRecorded : (id : ℕ) (r : AuthedUser) → IsRecorded (settle (close id r d) d)
  unfolding close
  close-IsRecorded id r = scoped-IsRecorded d known id r _ λ t found.
      unless-IsRecorded d known _ forbidden _ λ owns. unless-IsRecorded d known _ conflict _ λ s.
        let new : Ticket = record t { status = closed } in
        saved-IsRecorded id r.id was_closed t new found refl
          (rw (is_resolved→eq t.status s) (unfold walk in refl))

  cancel-IsRecorded : (id : ℕ) (r : AuthedUser) → IsRecorded (settle (cancel id r d) d)
  unfolding cancel
  cancel-IsRecorded id r = scoped-IsRecorded d known id r _ λ t found.
      unless-IsRecorded d known _ forbidden _ λ owns. unless-IsRecorded d known _ conflict _ λ s.
        let new : Ticket = record t { status = cancelled } in
        saved-IsRecorded id r.id was_cancelled t new found refl (walk-cancelled t.status s)

  commented-IsRecorded :
      (id author : ℕ) (text : Text) (is_internal : Bool)
      → let c : TicketComment = record {
        ticket_id = id;
        author_user_id = author;
        text = text;
        is_internal = is_internal;
      } in
        IsRecorded (settle (done (c, record d { comments = d.comments ++ c ∷ [] })) d)
  unfolding settle
  commented-IsRecorded id author text is_internal = record { spelled = known.spelled }

  add_comment-IsRecorded :
      (id : ℕ) (r : AuthedUser) (text : Text) (is_internal : Bool)
      → IsRecorded (settle (add_comment id r text is_internal d) d)
  unfolding add_comment
  add_comment-IsRecorded id r text is_internal = scoped-IsRecorded d known id r _ λ t found.
      unless-IsRecorded d known _ forbidden _ λ ok. commented-IsRecorded id r.id text is_internal

  handle-IsRecorded : (r : AuthedUser) (q : Request) → IsFresh q d → IsRecorded (handle r q d)
  unfolding handle
  handle-IsRecorded r (post id now subject description) fresh =
      create-IsRecorded id now subject description r.id fresh
  handle-IsRecorded r (patch_assign id assignee) fresh =
      unless-IsRecorded d known (is_admin_role r.role) forbidden (assign id assignee r.id d)
        λ ok. assign-IsRecorded id assignee r.id
  handle-IsRecorded r (post_claim id) fresh =
      unless-IsRecorded d known (is_agent r.role) forbidden (claim id r.id d)
        λ ok. claim-IsRecorded id r.id
  handle-IsRecorded r (post_start id) fresh =
      unless-IsRecorded d known (is_admin_role r.role || is_agent r.role) forbidden (start id r d)
        λ ok. start-IsRecorded id r
  handle-IsRecorded r (post_resolve id) fresh =
      unless-IsRecorded d known (is_admin_role r.role || is_agent r.role) forbidden (resolve id r d)
        λ ok. resolve-IsRecorded id r
  handle-IsRecorded r (post_close id) fresh = close-IsRecorded id r
  handle-IsRecorded r (post_cancel id) fresh = cancel-IsRecorded id r
  handle-IsRecorded r (post_comment id text is_internal) fresh =
      add_comment-IsRecorded id r text is_internal

stamp-status_of :
    (at id j : ℕ) (ts : List Ticket)
    → status_of (find_one (has_id j) (update (has_id id) (stamp at) ts))
      ≡ status_of (find_one (has_id j) ts)
stamp-status_of at id j ts =
    let row = find_one-update (has_id j) (has_id id) (stamp at) ts λ x k. refl in
    elim (Option-cases (find_one (has_id j) ts)) [
      | inl e ↦ rw (row, e) refl
      | inr (x, e) ↦ elim (Bool-cases (has_id id x)) [
        | inl k ↦ rw (row, e) (rw k refl)
        | inr k ↦ rw (row, e) (rw k refl)
      ]
    ]

-- A stamp changes no status, and its line in the history may stand anywhere behind the first.
breach-IsRecorded : (at id : ℕ) (d : Desk) → IsRecorded d → IsRecorded (breach at id d)
unfolding breach log_event
breach-IsRecorded at id d known =
    let stamped : List Ticket = update (has_id id) (stamp at) d.tickets in
    elim (Bool-cases (any (has_id id) stamped)) [
      | inr gone ↦
          rw gone
            record { spelled = λ j. known.spelled j ∙ sym (stamp-status_of at id j d.tickets) }
      | inl there ↦ rw there record {
        spelled = λ j.
            let tail =
              replay-append j none d.events (log_line id TicketEventType.sla_breached none) in
            let status = stamp-status_of at id j d.tickets in
            let old = known.spelled j in
            elim (Bool-cases (id == j)) [
              | inr e ↦ rw (tail, e, status) old
              | inl e ↦ elim (Option-cases (find_one (has_id j) stamped)) [
                | inl k ↦
                    let ij : id ≡ j = eqb→eq id j e in
                    cc (there, find_one-none-any (has_id id) stamped (rw (sym ij) at k))
                | inr (x, k) ↦
                    let now_status : status_of (some x)
                        ≡ status_of (find_one (has_id j) d.tickets) =
                      ap status_of (sym k) ∙ status in
                    rw (tail, e, k, old, sym now_status) (walk-breached x.status)
              ]
            ];
      }
    ]

breach_each-IsRecorded :
    (at : ℕ) (ts : List Ticket) (d : Desk) → IsRecorded d → IsRecorded (breach_each at ts d)
unfolding breach_each
breach_each-IsRecorded at [] d known = known
breach_each-IsRecorded at (t ∷ ts) d known =
    breach_each-IsRecorded at ts (breach at t.id d) (breach-IsRecorded at t.id d known)

sweep-IsRecorded : (now at : ℕ) (d : Desk) → IsRecorded d → IsRecorded (sweep now at d)
unfolding sweep
sweep-IsRecorded now at d known = breach_each-IsRecorded at (overdue now d.tickets) d known

-- Whatever requests of whatever users and whatever ticks of the sweep come in what order, the lines
-- of the history of an identifier spell, along the documented workflow alone, the status of the
-- ticket that has it, and there are none where no ticket has it.
pub Reachable-IsRecorded : (d : Desk) → Reachable d → IsRecorded d
Reachable-IsRecorded _ (first users memberships) = record {
  spelled = λ id. unfold replay find_one in refl;
}
Reachable-IsRecorded _ (then_request r q {d} before fresh) =
    handle-IsRecorded d (Reachable-IsRecorded d before) r q fresh
Reachable-IsRecorded _ (then_sweep now at {d} before) =
    sweep-IsRecorded now at d (Reachable-IsRecorded d before)
