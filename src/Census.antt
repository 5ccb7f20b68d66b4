-- ===== src/Census.antt =====
-- scripts/discover-mutation-kills.mjs and the parts it sweeps with: which plants a mutation of the
-- checkout beside it turns red.
pub mod Patch
pub mod Detail
pub mod Matrix
pub mod Sweep
