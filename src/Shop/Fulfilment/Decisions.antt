-- ===== src/Shop/Fulfilment/Decisions.antt =====
-- A decision on a return keeps every order in step.
use tflw_tests.Prelude.{
  ℕ, ◌≡◌, refl, sym, ap, ◌∙◌, subst, inl, inr, Bool, true, false, Option, none, some, List, [], ◌∷◌,
  ◌==◌, if◌then◌else◌, eqb→eq, eqb_refl, Bool-cases, Option-cases, some_inj, Text,
}
use tflw_tests.Shop.Tables.{find_one, update, find_one-holds, find_one-update}
use tflw_tests.Shop.Keys.{keyed, distinct, distinct-update, update-one, find_one-key}
use tflw_tests.Shop.Orders.{order_fulfilled}
use tflw_tests.Shop.Fulfilment.{
  requested, ReturnRequest, to_refunded, Task, Works, is_requested, is_order, start_refund, verdict,
  is_return, refund_order, decide,
}
use tflw_tests.Shop.Fulfilment.Lifecycle.{
  status_of, status_in, stages_of, return_of, answer_of, answer_in, due, IsOrderly,
}
use tflw_tests.Shop.Fulfilment.Orderly.{
  touched-IsOrderly, stages_of-append, due-requested, is_requested→eq,
}

-- A decision changes the row of its request alone.
module _ (id : ℕ) (f : ReturnRequest → ReturnRequest)
    (keeps_id : (x : ReturnRequest) → (f x).id ≡ x.id)
    (keeps_order : (x : ReturnRequest) → (f x).order_id ≡ x.order_id) (q : ReturnRequest)
    (returns : List ReturnRequest) (found : find_one (is_return id) returns ≡ some q)
    (ids : distinct (λ x. x.id) returns ≡ true) (orders : distinct return_of returns ≡ true) where
  decided_row :
      (j : ℕ)
      → find_one (keyed return_of j) (update (is_return id) f returns)
        ≡ elim (find_one (keyed return_of j) returns) [
          | none ↦ none
          | some x ↦ some (if is_return id x then f x else x)
        ]
  decided_row j =
      find_one-update (keyed return_of j) (is_return id) f returns λ x h. rw (keeps_order x) refl

  decided_here : answer_in q.order_id (update (is_return id) f returns) ≡ some (f q).status
  decided_here =
      let here = find_one-key return_of (is_return id) q returns orders found in
      let mine = find_one-holds (is_return id) returns q found in
      ap answer_of (decided_row q.order_id) ∙ rw here (rw mine refl)

  decided_elsewhere :
      (j : ℕ)
      → (q.order_id == j) ≡ false
      → answer_in j (update (is_return id) f returns) ≡ answer_in j returns
  decided_elsewhere j off = elim (Option-cases (find_one (keyed return_of j) returns)) [
    | inl e ↦ ap answer_of (decided_row j) ∙ rw e refl
    | inr (x, e) ↦ elim (Bool-cases (is_return id x)) [
      | inr m ↦ ap answer_of (decided_row j) ∙ rw e (rw m refl)
      | inl m ↦
          let own = find_one-key (λ y. y.id) (keyed return_of j) x returns ids e in
          let at_id : x.id ≡ id = eqb→eq x.id id m in
          let same : x ≡ q =
            some_inj (sym own ∙ ap (λ y. find_one (is_return y) returns) at_id ∙ found) in
          let at_j : x.order_id ≡ j =
            eqb→eq x.order_id j (find_one-holds (keyed return_of j) returns x e) in
          let other : (x.order_id == j) ≡ false = ap (λ y. y.order_id == j) same ∙ off in
          cc (other, ap (λ y. y == j) at_j, eqb_refl j)
    ]
  ]

-- A request that is still open: its order is fulfilled and nothing waits for it.
open-request :
    (w : Works) (id : ℕ) (q : ReturnRequest)
    → IsOrderly w
    → find_one (is_return id) w.returns ≡ some q
    → is_requested q.status ≡ true
    → (status_in q.order_id w.shop.orders ≡ some order_fulfilled)
      × (stages_of q.order_id w.tasks ≡ [])
open-request w id q known found open_ =
    let k : ℕ = q.order_id in
    let here = find_one-key return_of (is_return id) q w.returns known.return_orders found in
    let answer : answer_in k w.returns ≡ some requested =
      ap answer_of here ∙ ap some (is_requested→eq q.status open_) in
    due-requested (status_in k w.shop.orders) (stages_of k w.tasks)
      (sym (ap (due (status_in k w.shop.orders)) answer) ∙ known.in_step k)

reject-IsOrderly :
    (now id : ℕ) (reason : Option Text) (admin_id : ℕ) (q : ReturnRequest) (w : Works)
    → IsOrderly w
    → find_one (is_return id) w.returns ≡ some q
    → is_requested q.status ≡ true
    → IsOrderly (record w {
      returns = update (is_return id) (λ row. verdict now false reason admin_id q) w.returns;
    })
reject-IsOrderly now id reason admin_id q w known found open_ =
    let f : ReturnRequest → ReturnRequest = verdict now false reason admin_id in
    let (status, quiet) = open-request w id q known found open_ in
    let at =
      decided_here id f (λ x. refl) (λ x. refl) q w.returns found known.return_ids
        known.return_orders in
    let off =
      decided_elsewhere id f (λ x. refl) (λ x. refl) q w.returns found known.return_ids
        known.return_orders in
    subst (λ rows. IsOrderly (record w { returns = rows }))
      (sym (update-one (λ x. x.id) id f q w.returns known.return_ids found))
      (touched-IsOrderly q.order_id w (record w { returns = update (is_return id) f w.returns })
        known
        (λ j other. record {
          same_status = refl;
          same_stages = refl;
          same_answer = off j other;
          same_story = refl;
        })
        (rw (status, quiet, at) (unfold due in refl)) (known.told_true q.order_id)
        (distinct-update (λ x. x.id) (is_return id) f w.returns (λ x. refl) ∙ known.return_ids)
        (distinct-update return_of (is_return id) f w.returns (λ x. refl) ∙ known.return_orders))

approve-IsOrderly :
    (now job_id id : ℕ) (reason : Option Text) (admin_id : ℕ) (q : ReturnRequest) (w : Works)
    → IsOrderly w
    → find_one (is_return id) w.returns ≡ some q
    → is_requested q.status ≡ true
    → IsOrderly (
        refund_order job_id q.order_id (record w {
          returns = update (is_return id) (λ row. verdict now true reason admin_id q) w.returns;
        }))
unfolding refund_order start_refund
approve-IsOrderly now job_id id reason admin_id q w known found open_ =
    let f : ReturnRequest → ReturnRequest = verdict now true reason admin_id in
    let (status, quiet) = open-request w id q known found open_ in
    let at =
      decided_here id f (λ x. refl) (λ x. refl) q w.returns found known.return_ids
        known.return_orders in
    let off =
      decided_elsewhere id f (λ x. refl) (λ x. refl) q w.returns found known.return_ids
        known.return_orders in
    let rows : List ReturnRequest = update (is_return id) f w.returns in
    elim (Option-cases (find_one (is_order q.order_id) w.shop.orders)) [
      | inl e ↦ cc (status, ap status_of e)
      | inr (order, e) ↦
          let k : ℕ = order.id in
          let at_k : k ≡ q.order_id =
            eqb→eq k q.order_id (find_one-holds (is_order q.order_id) w.shop.orders order e) in
          let task : Task = record {
            stage = to_refunded;
            job_id = job_id;
            order_id = k;
            user_id = order.user_id;
          } in
          let on : (k == q.order_id) ≡ true =
            ap (λ x. x == q.order_id) at_k ∙ eqb_refl q.order_id in
          let v : Works = start_refund job_id order (record w { returns = rows }) in
          let waits : stages_of q.order_id v.tasks ≡ to_refunded ∷ [] =
            stages_of-append q.order_id w.tasks task ∙ rw (on, quiet) refl in
          rw (e, refund_order)
            (subst (λ rs. IsOrderly (start_refund job_id order (record w { returns = rs })))
              (sym (update-one (λ x. x.id) id f q w.returns known.return_ids found))
              (touched-IsOrderly q.order_id w v known
                (λ j other. record {
                  same_status = refl;
                  same_stages =
                      stages_of-append j w.tasks task ∙ rw (ap (λ x. x == j) at_k ∙ other) refl;
                  same_answer = off j other;
                  same_story = refl;
                })
                (rw (status, waits, at) (unfold due in refl)) (known.told_true q.order_id)
                (distinct-update (λ x. x.id) (is_return id) f w.returns (λ x. refl)
                  ∙ known.return_ids)
                (distinct-update return_of (is_return id) f w.returns (λ x. refl)
                  ∙ known.return_orders)))
    ]

pub decide-IsOrderly :
    (now job_id id : ℕ) (approve : Bool) (reason : Option Text) (admin_id : ℕ) (w : Works)
    → IsOrderly w
    → IsOrderly (decide now job_id id approve reason admin_id w)
unfolding decide
decide-IsOrderly now job_id id approve reason admin_id w known =
    elim (Option-cases (find_one (is_return id) w.returns)) [
      | inl e ↦ rw (e, decide) known
      | inr (q, e) ↦ elim (Bool-cases (is_requested q.status)) [
        | inr a ↦ rw (e, a, decide) known
        | inl a ↦ elim (Bool-cases approve) [
          | inl b ↦
              rw (e, a, b, decide) (approve-IsOrderly now job_id id reason admin_id q w known e a)
          | inr b ↦ rw (e, a, b, decide) (reject-IsOrderly now id reason admin_id q w known e a)
        ]
      ]
    ]
