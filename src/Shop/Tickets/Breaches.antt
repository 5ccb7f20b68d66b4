-- ===== src/Shop/Tickets/Breaches.antt =====
-- Which tickets a tick of the sweep stamps.
use tflw_tests.Prelude.{ℕ}
use tflw_tests.Shop.Tickets.{Ticket}

abbrev pub ticket_key : Ticket → ℕ
ticket_key t = t.id
