-- ===== src/Admin/Server/Errors.antt =====
-- The error page: its status, whatever status the API answered with.
use tflw_tests.Prelude.{ℕ, ◌≤◌, ◌<◌, refl, ◌≢◌, arith}
use tflw_tests.Admin.Client.{Result, returned, refused, crashed}
use tflw_tests.Admin.Routes.{Response, export, not_found, page, redirect}
use tflw_tests.Admin.Server.{handle_error}

abbrev pub status_of : Response → ℕ
status_of (page status name error) = status
status_of (redirect path) = 302
status_of export = 200
status_of not_found = 404

-- An error of a route, of the API or of the console, is answered with a status from 400 to 599.
pub handle_error-bounds :
    (o : Result Response)
    → ((r : Response) → o ≢ returned r)
    → (400 ≤ status_of (handle_error o)) × (status_of (handle_error o) < 600)
unfolding handle_error
handle_error-bounds (returned r) h = absurd (h r refl)
handle_error-bounds (refused status problem) h = (ground arith, ground arith)
handle_error-bounds crashed h = (omega arith, omega arith)
