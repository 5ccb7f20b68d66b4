-- ===== src/Admin.antt =====
-- webV2/admin/src: the console of the administrators, which serves pages to a browser and calls the
-- API in its name.
pub mod Client
pub mod Routes
pub mod Handlers
pub mod Server
