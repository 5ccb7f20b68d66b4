-- ===== src/Shop/Fulfilment/Submissions.antt =====
-- A request for a return keeps every order in step.
use tflw_tests.Prelude.{
  ℕ, ◌≡◌, refl, sym, ap, ap₂, ◌∙◌, inl, inr, false, none, some, List, [], ◌∷◌, ◌++◌, ◌==◌,
  if◌then◌else◌, eqb→eq, eqb_refl, Bool-cases, Option-cases, any, Text,
}
use tflw_tests.Shop.Fulfilment.Lifecycle.{
  settle, status_of, status_in, stages_of, return_of, answer_of, answer_in, due, IsOrderly,
}
use tflw_tests.Shop.Fulfilment.Orderly.{touched-IsOrderly, is_fulfilled→eq}
use tflw_tests.Shop.Fulfilment.{requested, ReturnRequest, Works, is_fulfilled, is_order, submit}
use tflw_tests.Shop.Keys.{keyed, distinct-append}
use tflw_tests.Shop.Orders.{order_fulfilled}
use tflw_tests.Shop.Tables.{
  and_then, unless, or_missing, find_one, find_one-append, any-false-find_one,
}

-- A row that comes last is found where no other was.
pub answer_in-append :
    (id : ℕ) (q : ReturnRequest) (returns : List ReturnRequest)
    → find_one (keyed return_of q.order_id) returns ≡ none
    → answer_in id (returns ++ q ∷ [])
      ≡ (if q.order_id == id then some q.status else answer_in id returns)
answer_in-append id q returns free =
    let row = find_one-append (keyed return_of id) returns (q ∷ []) in
    elim (Bool-cases (q.order_id == id)) [
      | inl e ↦
          let here : find_one (keyed return_of id) returns ≡ none =
            ap (λ x. find_one (keyed return_of x) returns) (sym (eqb→eq q.order_id id e)) ∙ free in
          ap answer_of row ∙ rw (here, e) (unfold find_one in rw e refl)
      | inr e ↦ elim (Option-cases (find_one (keyed return_of id) returns)) [
        | inl f ↦ ap answer_of row ∙ rw (e, f) (unfold find_one in rw e refl)
        | inr (x, f) ↦ ap answer_of row ∙ rw (e, f) refl
      ]
    ]

pub submit-IsOrderly :
    (id order_id user_id : ℕ) (reason : Text) (w : Works)
    → IsOrderly w
    → any (λ q. q.id == id) w.returns ≡ false
    → IsOrderly (settle (submit id order_id user_id reason w) w)
unfolding submit unless and_then or_missing
submit-IsOrderly id order_id user_id reason w known fresh =
    elim (Option-cases (find_one (is_order order_id) w.shop.orders)) [
      | inl e ↦ rw (e, submit) known
      | inr (order, e) ↦ elim (Bool-cases (order.user_id == user_id)) [
        | inr a ↦ rw (e, a, submit) known
        | inl a ↦ elim (Bool-cases (is_fulfilled order.status)) [
          | inr b ↦ rw (e, a, b, submit) known
          | inl b ↦ elim (Bool-cases (any (keyed return_of order_id) w.returns)) [
            | inl c ↦ rw (e, a, b, c, submit) known
            | inr c ↦
                let q : ReturnRequest = record {
                  id = id;
                  order_id = order_id;
                  user_id = user_id;
                  reason = reason;
                  status = requested;
                  decided_by = none;
                  decision_reason = none;
                  decided_at = none;
                } in
                let free = any-false-find_one (keyed return_of order_id) w.returns c in
                let was : status_in order_id w.shop.orders ≡ some order_fulfilled =
                  ap status_of e ∙ ap some (is_fulfilled→eq order.status b) in
                let before : due (some order_fulfilled) none ≡ some (stages_of order_id w.tasks) =
                  sym (ap₂ due was (ap answer_of free)) ∙ known.in_step order_id in
                let now_at : answer_in order_id (w.returns ++ q ∷ []) ≡ some requested =
                  answer_in-append order_id q w.returns free ∙ rw (eqb_refl order_id) refl in
                rw (e, a, b, c, submit)
                  (touched-IsOrderly order_id w (record w { returns = w.returns ++ q ∷ [] }) known
                    (λ j off. record {
                      same_status = refl;
                      same_stages = refl;
                      same_answer = answer_in-append j q w.returns free ∙ rw off refl;
                      same_story = refl;
                    })
                    (rw (was, now_at) (unfold due in unfold due in before))
                    (known.told_true order_id)
                    (distinct-append (λ x. x.id) q w.returns fresh known.return_ids)
                    (distinct-append return_of q w.returns c known.return_orders))
          ]
        ]
      ]
    ]
