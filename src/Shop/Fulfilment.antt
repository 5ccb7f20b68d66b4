-- ===== src/Shop/Fulfilment.antt =====
-- apiV2/src/jobs/jobs.service.ts and apiV2/src/return-requests/return-requests.service.ts: the stages
-- of an order behind its creation. What a job does after a delay is a task that waits; any waiting
-- task may run next, between any two requests.
pub mod Lifecycle
pub mod Orderly
pub mod Decisions
pub mod Submissions
pub mod Events
mod Examples
use tflw_tests.Prelude.{
  ℕ, zero, suc, Bool, true, false, not, Option, none, some, List, [], ◌∷◌, ◌++◌, ◌==◌,
  if◌then◌else◌, get_elem?, any, Text,
}
use tflw_tests.Shop.Tables.{
  not_found, forbidden, conflict, Attempt, done, and_then, unless, or_missing, find_one, update,
}
use tflw_tests.Shop.Orgs.{is_admin_role, AuthedUser}
use tflw_tests.Shop.Orders.{
  OrderStatus, pending, processing, ready, order_fulfilled, refunded, Order, Shop,
}
use tflw_tests.Shop.Orders.Scoped.{find_one_scoped}

pub data JobType : Type 0 where
  order_fulfillment : JobType
  account_deletion : JobType
  refund : JobType

pub data JobStatus : Type 0 where
  waiting : JobStatus
  running : JobStatus
  completed : JobStatus
  broken : JobStatus

pub record Job : Type 0 where
  pub id : ℕ
  pub type : JobType
  pub status : JobStatus
  pub order_id : Option ℕ
  pub user_id : Option ℕ

pub data ReturnRequestStatus : Type 0 where
  requested : ReturnRequestStatus
  approved : ReturnRequestStatus
  rejected : ReturnRequestStatus

pub record ReturnRequest : Type 0 where
  pub id : ℕ
  pub order_id : ℕ
  pub user_id : ℕ
  pub reason : Text
  pub status : ReturnRequestStatus
  pub decided_by : Option ℕ
  pub decision_reason : Option Text
  pub decided_at : Option ℕ

-- ORDER_STATUS_CHANGED
pub record StatusNote : Type 0 where
  pub user_id : ℕ
  pub order_id : ℕ
  pub old_status : OrderStatus
  pub new_status : OrderStatus

-- The rest of a continuation behind one of its delays.
pub data Stage : Type 0 where
  to_ready : Stage
  to_fulfilled : Stage
  to_refunded : Stage

pub record Task : Type 0 where
  pub stage : Stage
  pub job_id : ℕ
  pub order_id : ℕ
  pub user_id : ℕ

pub record Works : Type 0 where
  pub shop : Shop
  pub jobs : List Job
  pub returns : List ReturnRequest
  pub tasks : List Task
  pub notes : List StatusNote

abbrev pub is_pending : OrderStatus → Bool
is_pending pending = true
is_pending _ = false

abbrev pub is_fulfilled : OrderStatus → Bool
is_fulfilled order_fulfilled = true
is_fulfilled _ = false

abbrev pub is_requested : ReturnRequestStatus → Bool
is_requested requested = true
is_requested _ = false

abbrev pub is_order : ℕ → Order → Bool
is_order id o = o.id == id

abbrev pub is_job : ℕ → Job → Bool
is_job id j = j.id == id

-- `orders.update(id, { status })`
unfoldable pub set_order : ℕ → OrderStatus → Shop → Shop
unfolding update
set_order id status s = record s {
  orders = update (is_order id) (λ o. record o { status = status }) s.orders;
}

abbrev pub complete : ℕ → List Job → List Job
complete id jobs = update (is_job id) (λ j. record j { status = completed }) jobs

-- The job is saved, its order is processing, and the first stage waits.
unfoldable pub start_fulfillment : ℕ → Order → Works → Attempt (Job × Works)
unfolding unless set_order
start_fulfillment job_id order w =
    let job : Job = record {
      id = job_id;
      type = order_fulfillment;
      status = running;
      order_id = some order.id;
      user_id = none;
    } in
    unless (is_pending order.status) conflict (
      done (
        job,
        record w {
          jobs = w.jobs ++ job ∷ [];
          shop = set_order order.id processing w.shop;
          tasks =
              w.tasks
              ++ record {
                stage = to_ready;
                job_id = job_id;
                order_id = order.id;
                user_id = order.user_id;
              }
                ∷ [];
        },
      ))

-- `fulfill` of the orders, for an admin.
unfoldable pub fulfill : ℕ → ℕ → AuthedUser → Works → Attempt (Job × Works)
unfolding and_then unless find_one_scoped start_fulfillment
fulfill job_id id r w =
    unless (is_admin_role r.role) forbidden
      (and_then (find_one_scoped id r w.shop) λ order. start_fulfillment job_id order w)

-- The status that a stage gives, and the one that its notification names as the old one.
abbrev pub reached : Stage → OrderStatus
reached to_ready = ready
reached to_fulfilled = order_fulfilled
reached to_refunded = refunded

abbrev pub left_behind : Stage → OrderStatus
left_behind to_ready = processing
left_behind to_fulfilled = ready
left_behind to_refunded = order_fulfilled

-- The task that waits next.
abbrev pub follow : Stage → Task → List Task
follow to_ready t = record t { stage = to_fulfilled } ∷ []
follow to_fulfilled t = []
follow to_refunded t = []

abbrev pub job_behind : Stage → ℕ → List Job → List Job
job_behind to_ready id jobs = jobs
job_behind to_fulfilled id jobs = complete id jobs
job_behind to_refunded id jobs = complete id jobs

-- One stage of `continueFulfillment`, or `continueRefund`, from its update on.
unfoldable pub run_task : Task → Works → Works
unfolding set_order update
run_task t w = record w {
  shop = set_order t.order_id (reached t.stage) w.shop;
  notes =
      w.notes
      ++ record {
        user_id = t.user_id;
        order_id = t.order_id;
        old_status = left_behind t.stage;
        new_status = reached t.stage;
      }
        ∷ [];
  jobs = job_behind t.stage t.job_id w.jobs;
  tasks = w.tasks ++ follow t.stage t;
}

unfoldable pub remove_at {ℓ} : {A : Type ℓ} → ℕ → List A → List A
remove_at n [] = []
remove_at zero (x ∷ xs) = xs
remove_at (suc n) (x ∷ xs) = x ∷ remove_at n xs

-- The delay of the waiting task at a place is over.
unfoldable pub elapse : ℕ → Works → Works
unfolding run_task remove_at
elapse n w = elim (get_elem? w.tasks n) [
  | none ↦ w
  | some t ↦ run_task t (record w { tasks = remove_at n w.tasks })
]

unfoldable pub submit : ℕ → ℕ → ℕ → Text → Works → Attempt (ReturnRequest × Works)
unfolding and_then or_missing unless find_one
submit id order_id user_id reason w =
    and_then (or_missing (find_one (is_order order_id) w.shop.orders)) λ order.
      unless (order.user_id == user_id) not_found (
        unless (is_fulfilled order.status) conflict (
          unless (not (any (λ q. q.order_id == order_id) w.returns)) conflict (
            let q : ReturnRequest = record {
              id = id;
              order_id = order_id;
              user_id = user_id;
              reason = reason;
              status = requested;
              decided_by = none;
              decision_reason = none;
              decided_at = none;
            } in
            done (q, record w { returns = w.returns ++ q ∷ [] }))))

unfoldable pub start_refund : ℕ → Order → Works → Works
start_refund job_id order w = record w {
  jobs =
      w.jobs
      ++ record {
        id = job_id;
        type = refund;
        status = running;
        order_id = some order.id;
        user_id = none;
      }
        ∷ [];
  tasks =
      w.tasks
      ++ record {
        stage = to_refunded;
        job_id = job_id;
        order_id = order.id;
        user_id = order.user_id;
      }
        ∷ [];
}

-- The state behind a decision. It is saved before the order is looked up, and stays if that is not there.
abbrev pub verdict : ℕ → Bool → Option Text → ℕ → ReturnRequest → ReturnRequest
verdict now approve reason admin_id q = record q {
  status = if approve then approved else rejected;
  decided_by = some admin_id;
  decision_reason = reason;
  decided_at = some now;
}

abbrev pub is_return : ℕ → ReturnRequest → Bool
is_return id q = q.id == id

-- The refund of an approved request, where its order is there.
unfoldable pub refund_order : ℕ → ℕ → Works → Works
unfolding find_one start_refund
refund_order job_id order_id w = elim (find_one (is_order order_id) w.shop.orders) [
  | none ↦ w
  | some order ↦ start_refund job_id order w
]

unfoldable pub decide : ℕ → ℕ → ℕ → Bool → Option Text → ℕ → Works → Works
unfolding find_one update refund_order
decide now job_id id approve reason admin_id w = elim (find_one (is_return id) w.returns) [
  | none ↦ w
  | some q ↦
      let saved_work : Works = record w {
        returns = update (is_return id) (λ row. verdict now approve reason admin_id q) w.returns;
      } in
      if not (is_requested q.status)
      then w
      else if approve
      then refund_order job_id q.order_id saved_work
      else saved_work
]
