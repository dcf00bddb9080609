-- ===== src/Permissions.antt =====
-- The parts of src/permissions.ts.
pub mod Host
pub mod Host6
pub mod Endpoint
pub mod Classify
pub mod Filter
pub mod Routes
pub mod Extract
pub mod Sessions
pub mod Folders
pub mod Sandbox
