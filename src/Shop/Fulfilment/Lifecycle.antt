-- ===== src/Shop/Fulfilment/Lifecycle.antt =====
-- Everything that may happen to orders behind their creation, in any order.
use tflw_tests.Prelude.{
  ℕ, ◌≡◌, Bool, true, false, Option, none, some, List, [], ◌∷◌, ◌++◌, map, ◌==◌, if◌then◌else◌, any,
  filter, Text,
}
use tflw_tests.Shop.Tables.{Attempt, failed, done, find_one}
use tflw_tests.Shop.Keys.{keyed, distinct}
use tflw_tests.Shop.Orgs.{AuthedUser}
use tflw_tests.Shop.Orders.{
  OrderStatus, pending, processing, ready, order_fulfilled, refunded, Order,
}
use tflw_tests.Shop.Fulfilment.{
  ReturnRequestStatus, requested, approved, rejected, ReturnRequest, StatusNote, Stage, to_ready,
  to_fulfilled, to_refunded, Task, Works, is_pending, is_order, fulfill, elapse, submit, decide,
}

-- The identifiers that the database generates, and the clock, stand in the event.
pub data Event : Type 0 where
  order_placed : Order → Event
  fulfil_asked : ℕ → ℕ → AuthedUser → Event
  delay_over : ℕ → Event
  return_asked : ℕ → ℕ → ℕ → Text → Event
  return_decided : ℕ → ℕ → ℕ → Bool → Option Text → ℕ → Event

abbrev pub settle : {A : Type 0} → Attempt (A × Works) → Works → Works
settle (failed fault) w = w
settle (done (row, v)) w = v

unfoldable pub happen : Event → Works → Works
unfolding fulfill elapse submit decide
happen (order_placed o) w = record w { shop = record w.shop { orders = w.shop.orders ++ o ∷ [] } }
happen (fulfil_asked job_id id r) w = settle (fulfill job_id id r w) w
happen (delay_over n) w = elapse n w
happen (return_asked id order_id user_id reason) w = settle (submit id order_id user_id reason w) w
happen (return_decided now job_id id approve reason admin_id) w =
    decide now job_id id approve reason admin_id w

-- A new order is pending, and a new row has an identifier that no row has.
abbrev pub IsNew : Event → Works → Type 0
IsNew (order_placed o) w =
    (is_pending o.status ≡ true) × (any (is_order o.id) w.shop.orders ≡ false)
IsNew (return_asked id order_id user_id reason) w = any (λ q. q.id == id) w.returns ≡ false
IsNew _ w = Unit

-- The states that the events lead to.
pub data Reached : Works → Type 0 where
  opening :
      (w : Works) → w.shop.orders ≡ [] → w.returns ≡ [] → w.tasks ≡ [] → w.notes ≡ [] → Reached w
  and_event : (e : Event) {w : Works} → Reached w → IsNew e w → Reached (happen e w)

abbrev pub status_of : Option Order → Option OrderStatus
status_of none = none
status_of (some o) = some o.status

abbrev pub status_in : ℕ → List Order → Option OrderStatus
status_in id orders = status_of (find_one (is_order id) orders)

abbrev pub stages_of : ℕ → List Task → List Stage
stages_of id tasks = map (λ t. t.stage) (filter (λ t. t.order_id == id) tasks)

abbrev pub return_of : ReturnRequest → ℕ
return_of q = q.order_id

abbrev pub answer_of : Option ReturnRequest → Option ReturnRequestStatus
answer_of none = none
answer_of (some q) = some q.status

abbrev pub answer_in : ℕ → List ReturnRequest → Option ReturnRequestStatus
answer_in id returns = answer_of (find_one (keyed return_of id) returns)

-- What waits for an order, by its status and by what has become of its return; nothing where the
-- two cannot go together.
unfoldable pub due : Option OrderStatus → Option ReturnRequestStatus → Option (List Stage)
due none none = some []
due (some pending) none = some []
due (some processing) none = some (to_ready ∷ [])
due (some ready) none = some (to_fulfilled ∷ [])
due (some order_fulfilled) none = some []
due (some order_fulfilled) (some requested) = some []
due (some order_fulfilled) (some rejected) = some []
due (some order_fulfilled) (some approved) = some (to_refunded ∷ [])
due (some refunded) (some approved) = some []
due _ _ = none

-- The chain of statuses that the notifications of an order may tell.
unfoldable pub tell : Option OrderStatus → OrderStatus → OrderStatus → Option OrderStatus
tell (some processing) processing ready = some ready
tell (some ready) ready order_fulfilled = some order_fulfilled
tell (some order_fulfilled) order_fulfilled refunded = some refunded
tell _ _ _ = none

unfoldable pub story : ℕ → Option OrderStatus → List StatusNote → Option OrderStatus
unfolding tell
story id s [] = s
story id s (n ∷ ns) =
    let here = story id (tell s n.old_status n.new_status) ns in
    let there = story id s ns in if n.order_id == id then here else there

-- An order that is not processing yet has no notification.
abbrev pub told : Option OrderStatus → Option OrderStatus
told none = some processing
told (some pending) = some processing
told (some s) = some s

pub record IsOrderly (w : Works) : Type 0 where
  pub in_step :
      (id : ℕ)
      → due (status_in id w.shop.orders) (answer_in id w.returns) ≡ some (stages_of id w.tasks)
  pub told_true : (id : ℕ) → story id (some processing) w.notes ≡ told (status_in id w.shop.orders)
  pub return_ids : distinct (λ q. q.id) w.returns ≡ true
  pub return_orders : distinct return_of w.returns ≡ true
