-- ===== src/Shop/Fulfilment/Orderly.antt =====
-- The stages of an order stay in step with its status, whatever happens when.
use tflw_tests.Prelude.{
  ℕ, zero, suc, ◌≡◌, refl, sym, ap, ◌∙◌, inl, inr, true, false, Option, none, some, List, [], ◌∷◌,
  ◌++◌, arith, ◌==◌, if◌then◌else◌, eqb→eq, Bool-cases, Option-cases, some_inj, get_elem?, is_nil,
}
use tflw_tests.Shop.Tables.{find_one, update, find_one-holds, find_one-update}
use tflw_tests.Shop.Keys.{distinct}
use tflw_tests.Shop.Orders.{
  OrderStatus, pending, processing, ready, order_fulfilled, order_cancelled, refunded, Order, Shop,
}
use tflw_tests.Shop.Fulfilment.{
  ReturnRequestStatus, requested, approved, rejected, StatusNote, Stage, to_ready, to_fulfilled,
  to_refunded, Task, Works, is_pending, is_fulfilled, is_requested, is_order, set_order, reached,
  left_behind, remove_at,
}
use tflw_tests.Shop.Fulfilment.Lifecycle.{
  status_in, stages_of, return_of, answer_in, due, tell, story, told, IsOrderly,
}

-- What an event leaves as it was for an order.
pub record IsUntouched (id : ℕ) (w v : Works) : Type 0 where
  pub same_status : status_in id v.shop.orders ≡ status_in id w.shop.orders
  pub same_stages : stages_of id v.tasks ≡ stages_of id w.tasks
  pub same_answer : answer_in id v.returns ≡ answer_in id w.returns
  pub same_story : story id (some processing) v.notes ≡ story id (some processing) w.notes

-- An event that touches one order keeps the others in step.
pub touched-IsOrderly :
    (k : ℕ) (w v : Works)
    → IsOrderly w
    → ((id : ℕ) → (k == id) ≡ false → IsUntouched id w v)
    → due (status_in k v.shop.orders) (answer_in k v.returns) ≡ some (stages_of k v.tasks)
    → story k (some processing) v.notes ≡ told (status_in k v.shop.orders)
    → distinct (λ q. q.id) v.returns ≡ true
    → distinct return_of v.returns ≡ true
    → IsOrderly v
touched-IsOrderly k w v known others step tale ids orders = record {
  in_step = λ id. elim (Bool-cases (k == id)) [
    | inl e ↦ rw (sym (eqb→eq k id e)) step
    | inr e ↦
        let u = others id e in rw (u.same_status, u.same_stages, u.same_answer) (known.in_step id)
  ];
  told_true = λ id. elim (Bool-cases (k == id)) [
    | inl e ↦ rw (sym (eqb→eq k id e)) tale
    | inr e ↦ let u = others id e in rw (u.same_status, u.same_story) (known.told_true id)
  ];
  return_ids = ids;
  return_orders = orders;
}

-- The parts of a step.
-- The status that is given to an order that is there.
abbrev pub given : Option OrderStatus → OrderStatus → Option OrderStatus
given none status = none
given (some old) status = some status

pub status_in-update :
    (k id : ℕ) (status : OrderStatus) (orders : List Order)
    → status_in id (update (is_order k) (λ o. record o { status = status }) orders)
      ≡ (if k == id then given (status_in id orders) status else status_in id orders)
status_in-update k id status orders =
    let row =
      find_one-update (is_order id) (is_order k) (λ o. record o { status = status }) orders
        λ x h. refl in
    elim (Option-cases (find_one (is_order id) orders)) [
      | inl e ↦ elim (Bool-cases (k == id)) [
        | inl f ↦ rw (row, e, f) refl
        | inr f ↦ rw (row, e, f) refl
      ]
      | inr (o, e) ↦
          let at_id : o.id ≡ id = eqb→eq o.id id (find_one-holds (is_order id) orders o e) in
          let flip : (o.id == k) ≡ (k == id) = ground (arith, at_id) in
          elim (Bool-cases (k == id)) [
            | inl f ↦ rw (row, e) (rw (flip, f) refl)
            | inr f ↦ rw (row, e) (rw (flip, f) refl)
          ]
    ]

pub status_in-set :
    (k id : ℕ) (status : OrderStatus) (s : Shop)
    → status_in id (set_order k status s).orders
      ≡ (if k == id then given (status_in id s.orders) status else status_in id s.orders)
unfolding set_order
status_in-set k id status s = status_in-update k id status s.orders

pub stages_of-append :
    (id : ℕ) (ts : List Task) (t : Task)
    → stages_of id (ts ++ t ∷ [])
      ≡ (if t.order_id == id then stages_of id ts ++ t.stage ∷ [] else stages_of id ts)
stages_of-append id [] t = elim (Bool-cases (t.order_id == id)) [
  | inl e ↦ rw e refl
  | inr e ↦ rw e refl
]
stages_of-append id (u ∷ us) t = elim (Bool-cases (u.order_id == id)) [
  | inr e ↦ rw e (stages_of-append id us t)
  | inl e ↦
      let rest = stages_of-append id us t in
      elim (Bool-cases (t.order_id == id)) [
        | inl f ↦ rw (e, f) (ap (u.stage ∷◌) (rest ∙ rw f refl))
        | inr f ↦ rw (e, f) (ap (u.stage ∷◌) (rest ∙ rw f refl))
      ]
]

pub story-append :
    (id : ℕ) (s : Option OrderStatus) (ns : List StatusNote) (n : StatusNote)
    → story id s (ns ++ n ∷ [])
      ≡ (if n.order_id == id then tell (story id s ns) n.old_status n.new_status else story id s ns)
unfolding story
story-append id s [] n = refl
story-append id s (m ∷ ms) n = elim (Bool-cases (m.order_id == id)) [
  | inl e ↦ rw e (story-append id (tell s m.old_status m.new_status) ms n)
  | inr e ↦ rw e (story-append id s ms n)
]

-- A task that waits is one of its order's, and goes from them alone.
pub stages_of-remove :
    (id n : ℕ) (ts : List Task) (t : Task)
    → get_elem? ts n ≡ some t
    → (t.order_id == id) ≡ false
    → stages_of id (remove_at n ts) ≡ stages_of id ts
unfolding remove_at
stages_of-remove id n [] t h k = refl
stages_of-remove id zero (u ∷ us) t h k =
    let same : u ≡ t = some_inj h in
    let off : (u.order_id == id) ≡ false = ap (λ x. x.order_id == id) same ∙ k in rw off refl
stages_of-remove id (suc n) (u ∷ us) t h k = elim (Bool-cases (u.order_id == id)) [
  | inl e ↦ rw e (ap (u.stage ∷◌) (stages_of-remove id n us t h k))
  | inr e ↦ rw e (stages_of-remove id n us t h k)
]

pub is_nil-stages :
    (id n : ℕ) (ts : List Task) (t : Task)
    → get_elem? ts n ≡ some t
    → (t.order_id == id) ≡ true
    → is_nil (stages_of id ts) ≡ false
is_nil-stages id n [] t h k = cc h
is_nil-stages id zero (u ∷ us) t h k =
    let same : u ≡ t = some_inj h in
    let on : (u.order_id == id) ≡ true = ap (λ x. x.order_id == id) same ∙ k in rw on refl
is_nil-stages id (suc n) (u ∷ us) t h k = elim (Bool-cases (u.order_id == id)) [
  | inl e ↦ rw e refl
  | inr e ↦ rw e (is_nil-stages id n us t h k)
]

-- An only task of its order is the one that goes.
pub stages_of-only :
    (id n : ℕ) (ts : List Task) (t : Task) (stage : Stage)
    → get_elem? ts n ≡ some t
    → (t.order_id == id) ≡ true
    → stages_of id ts ≡ stage ∷ []
    → (t.stage ≡ stage) × (stages_of id (remove_at n ts) ≡ [])
unfolding remove_at
stages_of-only id n [] t stage h k only = cc h
stages_of-only id zero (u ∷ us) t stage h k only =
    let same : u ≡ t = some_inj h in
    let on : (u.order_id == id) ≡ true = ap (λ x. x.order_id == id) same ∙ k in
    let one : u.stage ∷ stages_of id us ≡ stage ∷ [] = rw on at only in
    (sym (ap (λ x. x.stage) same) ∙ cc one, cc one)
stages_of-only id (suc n) (u ∷ us) t stage h k only = elim (Bool-cases (u.order_id == id)) [
  | inl e ↦
      let one : u.stage ∷ stages_of id us ≡ stage ∷ [] = rw e at only in
      let gone : stages_of id us ≡ [] = cc one in cc (is_nil-stages id n us t h k, ap is_nil gone)
  | inr e ↦
      let (this, rest) = stages_of-only id n us t stage h k (rw e at only) in (this, rw e rest)
]

-- What is due.
pub due-none :
    (a : Option ReturnRequestStatus) (ts : List Stage)
    → due none a ≡ some ts
    → (a ≡ none) × (ts ≡ [])
unfolding due
due-none none ts h = (refl, cc h)
due-none (some a) ts h = cc h

pub due-pending :
    (a : Option ReturnRequestStatus) (ts : List Stage)
    → due (some pending) a ≡ some ts
    → (a ≡ none) × (ts ≡ [])
unfolding due
due-pending none ts h = (refl, cc h)
due-pending (some a) ts h = cc h

pub due-requested :
    (s : Option OrderStatus) (ts : List Stage)
    → due s (some requested) ≡ some ts
    → (s ≡ some order_fulfilled) × (ts ≡ [])
unfolding due
due-requested none ts h = cc h
due-requested (some pending) ts h = cc h
due-requested (some processing) ts h = cc h
due-requested (some ready) ts h = cc h
due-requested (some order_fulfilled) ts h = (refl, cc h)
due-requested (some order_cancelled) ts h = cc h
due-requested (some refunded) ts h = cc h

abbrev pub stages_after : Stage → List Stage
stages_after to_ready = to_fulfilled ∷ []
stages_after to_fulfilled = []
stages_after to_refunded = []

-- A stage that waits is the only one, and the order has the status that it leaves behind.
pub due-waiting :
    (s : Option OrderStatus) (a : Option ReturnRequestStatus) (ts : List Stage)
    → due s a ≡ some ts
    → is_nil ts ≡ false
    → (stage : Stage) × (ts ≡ stage ∷ [])
      × (s ≡ some (left_behind stage))
      × (due (some (reached stage)) a ≡ some (stages_after stage))
unfolding due
due-waiting none none ts h k = cc (h, k)
due-waiting none (some a) ts h k = cc h
due-waiting (some pending) none ts h k = cc (h, k)
due-waiting (some pending) (some a) ts h k = cc h
due-waiting (some processing) none ts h k = (to_ready, cc h, refl, refl)
due-waiting (some processing) (some a) ts h k = cc h
due-waiting (some ready) none ts h k = (to_fulfilled, cc h, refl, refl)
due-waiting (some ready) (some a) ts h k = cc h
due-waiting (some order_fulfilled) none ts h k = cc (h, k)
due-waiting (some order_fulfilled) (some requested) ts h k = cc (h, k)
due-waiting (some order_fulfilled) (some rejected) ts h k = cc (h, k)
due-waiting (some order_fulfilled) (some approved) ts h k = (to_refunded, cc h, refl, refl)
due-waiting (some order_cancelled) a ts h k = cc h
due-waiting (some refunded) none ts h k = cc h
due-waiting (some refunded) (some requested) ts h k = cc h
due-waiting (some refunded) (some rejected) ts h k = cc h
due-waiting (some refunded) (some approved) ts h k = cc (h, k)

pub is_pending→eq : (s : OrderStatus) → is_pending s ≡ true → s ≡ pending
is_pending→eq pending h = refl
is_pending→eq processing h = cc h
is_pending→eq ready h = cc h
is_pending→eq order_fulfilled h = cc h
is_pending→eq order_cancelled h = cc h
is_pending→eq refunded h = cc h

pub is_fulfilled→eq : (s : OrderStatus) → is_fulfilled s ≡ true → s ≡ order_fulfilled
is_fulfilled→eq pending h = cc h
is_fulfilled→eq processing h = cc h
is_fulfilled→eq ready h = cc h
is_fulfilled→eq order_fulfilled h = refl
is_fulfilled→eq order_cancelled h = cc h
is_fulfilled→eq refunded h = cc h

pub is_requested→eq : (s : ReturnRequestStatus) → is_requested s ≡ true → s ≡ requested
is_requested→eq requested h = refl
is_requested→eq approved h = cc h
is_requested→eq rejected h = cc h
