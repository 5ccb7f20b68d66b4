-- ===== src/Shop/Fulfilment/Events.antt =====
-- Each event keeps every order orderly, and so does every sequence of them.
use tflw_tests.Prelude.{
  ℕ, ◌≡◌, refl, sym, ap, ◌∙◌, inl, inr, true, false, none, some, List, [], ◌∷◌, ◌++◌, append-nil,
  ◌==◌, eqb→eq, eqb_refl, Bool-cases, Option-cases, get_elem?, any,
}
use tflw_tests.Shop.Tables.{
  and_then, unless, or_missing, find_one, find_one-append, find_one-holds, any-false-find_one,
}
use tflw_tests.Shop.Orgs.{is_admin_role, AuthedUser}
use tflw_tests.Shop.Orders.{pending, processing, Order}
use tflw_tests.Shop.Orders.Scoped.{find_one_scoped}
use tflw_tests.Shop.Fulfilment.{
  StatusNote, Stage, to_ready, to_fulfilled, to_refunded, Task, Works, is_pending, is_order,
  set_order, start_fulfillment, fulfill, reached, left_behind, follow, run_task, remove_at, elapse,
}
use tflw_tests.Shop.Fulfilment.Lifecycle.{
  Event, order_placed, fulfil_asked, delay_over, return_asked, return_decided, settle, happen,
  IsNew, Reached, opening, and_event, status_of, status_in, stages_of, answer_in, due, tell, story,
  told, IsOrderly,
}
use tflw_tests.Shop.Fulfilment.Orderly.{
  touched-IsOrderly, status_in-set, stages_of-append, story-append, stages_of-remove, is_nil-stages,
  stages_of-only, due-none, due-pending, stages_after, due-waiting, is_pending→eq,
}
use tflw_tests.Shop.Fulfilment.Decisions.{decide-IsOrderly}
use tflw_tests.Shop.Fulfilment.Submissions.{submit-IsOrderly}

stages_of-follow :
    (stage : Stage) (id : ℕ) (t : Task) (ts : List Task)
    → (t.order_id == id) ≡ true
    → stages_of id ts ≡ []
    → stages_of id (ts ++ follow stage t) ≡ stages_after stage
stages_of-follow to_ready id t ts h k =
    stages_of-append id ts (record t { stage = to_fulfilled }) ∙ rw h (rw k refl)
stages_of-follow to_fulfilled id t ts h k = rw (append-nil ts) k
stages_of-follow to_refunded id t ts h k = rw (append-nil ts) k

stages_of-others :
    (stage : Stage) (id : ℕ) (t : Task) (ts : List Task)
    → (t.order_id == id) ≡ false
    → stages_of id (ts ++ follow stage t) ≡ stages_of id ts
stages_of-others to_ready id t ts h =
    stages_of-append id ts (record t { stage = to_fulfilled }) ∙ rw h refl
stages_of-others to_fulfilled id t ts h = rw (append-nil ts) refl
stages_of-others to_refunded id t ts h = rw (append-nil ts) refl

tell-left_behind :
    (stage : Stage)
    → tell (some (left_behind stage)) (left_behind stage) (reached stage) ≡ some (reached stage)
unfolding tell
tell-left_behind to_ready = refl
tell-left_behind to_fulfilled = refl
tell-left_behind to_refunded = refl

told-reached : (stage : Stage) → told (some (reached stage)) ≡ some (reached stage)
told-reached to_ready = refl
told-reached to_fulfilled = refl
told-reached to_refunded = refl

told-left_behind : (stage : Stage) → told (some (left_behind stage)) ≡ some (left_behind stage)
told-left_behind to_ready = refl
told-left_behind to_fulfilled = refl
told-left_behind to_refunded = refl

elapse-IsOrderly : (n : ℕ) (w : Works) → IsOrderly w → IsOrderly (elapse n w)
unfolding elapse run_task
elapse-IsOrderly n w known = elim (Option-cases (get_elem? w.tasks n)) [
  | inl e ↦ rw (e, elapse) known
  | inr (t, e) ↦
      let k : ℕ = t.order_id in
      let on : (t.order_id == k) ≡ true = eqb_refl k in
      let (stage, only, status, after) =
        due-waiting (status_in k w.shop.orders) (answer_in k w.returns) (stages_of k w.tasks)
          (known.in_step k) (is_nil-stages k n w.tasks t e on) in
      let (this, gone) = stages_of-only k n w.tasks t stage e on only in
      let note : StatusNote = record {
        user_id = t.user_id;
        order_id = k;
        old_status = left_behind t.stage;
        new_status = reached t.stage;
      } in
      let v : Works = run_task t (record w { tasks = remove_at n w.tasks }) in
      let st : status_in k v.shop.orders ≡ some (reached t.stage) =
        status_in-set k k (reached t.stage) w.shop ∙ rw (on, status) refl in
      let due_now : stages_of k v.tasks ≡ stages_after t.stage =
        stages_of-follow t.stage k t (remove_at n w.tasks) on gone in
      let tale : story k (some processing) v.notes
          ≡ tell (story k (some processing) w.notes) (left_behind t.stage) (reached t.stage) =
        story-append k (some processing) w.notes note ∙ rw on refl in
      let before : story k (some processing) w.notes ≡ some (left_behind stage) =
        known.told_true k ∙ ap told status ∙ told-left_behind stage in
      rw (e, elapse)
        (touched-IsOrderly k w v known
          (λ id off. record {
            same_status = status_in-set k id (reached t.stage) w.shop ∙ rw off refl;
            same_stages =
                stages_of-others t.stage id t (remove_at n w.tasks) off
                ∙ stages_of-remove id n w.tasks t e off;
            same_answer = refl;
            same_story = story-append id (some processing) w.notes note ∙ rw off refl;
          })
          (rw (st, due_now, this) after)
          (rw (st, tale, before, this, told-reached stage) (tell-left_behind stage))
          known.return_ids known.return_orders)
]

status_in-others :
    (id : ℕ) (o : Order) (orders : List Order)
    → (o.id == id) ≡ false
    → status_in id (orders ++ o ∷ []) ≡ status_in id orders
status_in-others id o orders h =
    let row = find_one-append (is_order id) orders (o ∷ []) in
    elim (Option-cases (find_one (is_order id) orders)) [
      | inl e ↦ rw (row, e) (unfold find_one in rw h refl)
      | inr (x, e) ↦ rw (row, e) refl
    ]

place-IsOrderly :
    (o : Order) (w : Works)
    → IsOrderly w
    → is_pending o.status ≡ true
    → any (is_order o.id) w.shop.orders ≡ false
    → IsOrderly (happen (order_placed o) w)
unfolding happen
place-IsOrderly o w known new fresh =
    let k : ℕ = o.id in
    let v : Works = record w { shop = record w.shop { orders = w.shop.orders ++ o ∷ [] } } in
    let none_yet = any-false-find_one (is_order k) w.shop.orders fresh in
    let was : status_in k w.shop.orders ≡ none = ap status_of none_yet in
    let quiet =
      due-none (answer_in k w.returns) (stages_of k w.tasks)
        (sym (ap (λ x. due x (answer_in k w.returns)) was) ∙ known.in_step k) in
    let first : status_in k v.shop.orders ≡ some pending =
      ap status_of (find_one-append (is_order k) w.shop.orders (o ∷ []))
      ∙ rw (none_yet) (unfold find_one in rw (eqb_refl k) (ap some (is_pending→eq o.status new))) in
    touched-IsOrderly k w v known
      (λ id off. record {
        same_status = status_in-others id o w.shop.orders off;
        same_stages = refl;
        same_answer = refl;
        same_story = refl;
      })
      (rw (first, quiet.0, quiet.1) (unfold due in refl)) (known.told_true k ∙ rw (was, first) refl)
      known.return_ids known.return_orders

start-IsOrderly :
    (job_id : ℕ) (order : Order) (w : Works)
    → IsOrderly w
    → find_one (is_order order.id) w.shop.orders ≡ some order
    → IsOrderly (settle (start_fulfillment job_id order w) w)
unfolding start_fulfillment unless
start-IsOrderly job_id order w known found = elim (Bool-cases (is_pending order.status)) [
  | inr e ↦ rw (e, start_fulfillment) known
  | inl e ↦
      let k : ℕ = order.id in
      let task : Task = record {
        stage = to_ready;
        job_id = job_id;
        order_id = k;
        user_id = order.user_id;
      } in
      let was : status_in k w.shop.orders ≡ some pending =
        ap status_of found ∙ ap some (is_pending→eq order.status e) in
      let quiet =
        due-pending (answer_in k w.returns) (stages_of k w.tasks)
          (sym (ap (λ x. due x (answer_in k w.returns)) was) ∙ known.in_step k) in
      let now_at : status_in k (set_order k processing w.shop).orders ≡ some processing =
        status_in-set k k processing w.shop ∙ rw (eqb_refl k, was) refl in
      let waits : stages_of k (w.tasks ++ task ∷ []) ≡ to_ready ∷ [] =
        stages_of-append k w.tasks task ∙ rw (eqb_refl k, quiet.1) refl in
      rw (e, start_fulfillment)
        (touched-IsOrderly k w _ known
          (λ id off. record {
            same_status = status_in-set k id processing w.shop ∙ rw off refl;
            same_stages = stages_of-append id w.tasks task ∙ rw off refl;
            same_answer = refl;
            same_story = refl;
          })
          (rw (now_at, quiet.0, waits) (unfold due in refl))
          (known.told_true k ∙ rw (was, now_at) refl) known.return_ids known.return_orders)
]

fulfill-IsOrderly :
    (job_id id : ℕ) (r : AuthedUser) (w : Works)
    → IsOrderly w
    → IsOrderly (settle (fulfill job_id id r w) w)
unfolding fulfill unless and_then find_one_scoped or_missing
fulfill-IsOrderly job_id id r w known = elim (Bool-cases (is_admin_role r.role)) [
  | inr e ↦ rw (e, fulfill) known
  | inl e ↦ elim (Option-cases (find_one (is_order id) w.shop.orders)) [
    | inl f ↦ rw (e, f, fulfill, find_one_scoped) known
    | inr (order, f) ↦
        let at_id : order.id ≡ id =
          eqb→eq order.id id (find_one-holds (is_order id) w.shop.orders order f) in
        let found : find_one (is_order order.id) w.shop.orders ≡ some order =
          ap (λ x. find_one (is_order x) w.shop.orders) at_id ∙ f in
        rw (e, f, fulfill, find_one_scoped) (start-IsOrderly job_id order w known found)
  ]
]

happen-IsOrderly : (e : Event) (w : Works) → IsOrderly w → IsNew e w → IsOrderly (happen e w)
unfolding happen
happen-IsOrderly (order_placed o) w known new = place-IsOrderly o w known new.0 new.1
happen-IsOrderly (fulfil_asked job_id id r) w known new = fulfill-IsOrderly job_id id r w known
happen-IsOrderly (delay_over n) w known new = elapse-IsOrderly n w known
happen-IsOrderly (return_asked id order_id user_id reason) w known new =
    submit-IsOrderly id order_id user_id reason w known new
happen-IsOrderly (return_decided now job_id id approve reason admin_id) w known new =
    decide-IsOrderly now job_id id approve reason admin_id w known

-- Whatever is ordered, asked for, returned and decided, and whichever waiting delay ends when, every
-- order is in step: just the one stage that its status calls for waits for it, a refund only behind
-- an approved return of a fulfilled order, and the notifications about it tell the chain from
-- processing through ready and fulfilled to refunded, each from the status that the order had.
pub Reached-IsOrderly : (w : Works) → Reached w → IsOrderly w
Reached-IsOrderly _ (opening w no_orders no_returns no_tasks no_notes) = record {
  in_step = λ id. rw (no_orders, no_returns, no_tasks) (unfold due in unfold find_one in refl);
  told_true = λ id. rw (no_orders, no_notes) (unfold story in unfold find_one in refl);
  return_ids = rw no_returns refl;
  return_orders = rw no_returns refl;
}
Reached-IsOrderly _ (and_event e {w} before new) =
    happen-IsOrderly e w (Reached-IsOrderly w before) new
