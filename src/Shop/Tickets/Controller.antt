-- ===== src/Shop/Tickets/Controller.antt =====
-- apiV2/src/tickets/tickets.controller.ts: the requests that change a ticket, with the roles that
-- the routes ask for.
use tflw_tests.Prelude.{ℕ, Bool, ◌||◌, Text}
use tflw_tests.Shop.Tables.{forbidden, Attempt, failed, done, unless}
use tflw_tests.Shop.Orgs.{is_admin_role, is_agent, AuthedUser}
use tflw_tests.Shop.Tickets.{
  Desk, create, assign, claim, start, resolve, close, cancel, add_comment,
}

-- The identifier that the database generates and the clock stand in the request that creates.
pub data Request : Type 0 where
  post : ℕ → ℕ → Text → Text → Request
  patch_assign : ℕ → ℕ → Request
  post_claim : ℕ → Request
  post_start : ℕ → Request
  post_resolve : ℕ → Request
  post_close : ℕ → Request
  post_cancel : ℕ → Request
  post_comment : ℕ → Text → Bool → Request

-- A request that succeeds leaves its desk, one that fails leaves everything as it was.
unfoldable pub settle : {A : Type 0} → Attempt (A × Desk) → Desk → Desk
settle (failed fault) d = d
settle (done (row, e)) d = e

unfoldable pub handle : AuthedUser → Request → Desk → Desk
unfolding settle unless create assign claim start resolve close cancel add_comment
handle r (post id now subject description) d = (create id now subject description r.id d).1
handle r (patch_assign id assignee) d =
    settle (unless (is_admin_role r.role) forbidden (assign id assignee r.id d)) d
handle r (post_claim id) d = settle (unless (is_agent r.role) forbidden (claim id r.id d)) d
handle r (post_start id) d =
    settle (unless (is_admin_role r.role || is_agent r.role) forbidden (start id r d)) d
handle r (post_resolve id) d =
    settle (unless (is_admin_role r.role || is_agent r.role) forbidden (resolve id r d)) d
handle r (post_close id) d = settle (close id r d) d
handle r (post_cancel id) d = settle (cancel id r d) d
handle r (post_comment id text is_internal) d = settle (add_comment id r text is_internal d) d
