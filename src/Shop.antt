-- ===== src/Shop.antt =====
-- The services of the shop: apiV2/src and inventory-service/src.
pub mod Tables
pub mod Orgs
pub mod Keys
pub mod Tickets
pub mod Inventory
pub mod Orders
pub mod Cart
pub mod Fulfilment
pub mod Oauth
