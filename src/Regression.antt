-- ===== src/Regression.antt =====
-- scripts/regression.mjs and scripts/lib/archive-check.mjs: the phases of a sweep, the check of what
-- they archived, and the exit status.
pub mod Archive
pub mod Phases
mod Examples
