-- ===== src/Shop/Orders/Replay.antt =====
-- A request that is sent again under its idempotency key.
use tflw_tests.Shop.Orders.{Shop}
