-- ===== src/Tests.antt =====
-- The properties applied at concrete inputs.
mod Copies
mod Demo
mod Controllers
mod Handlers
mod Services
mod Sets
mod Queries
mod Flow
mod Startup
mod Operator
mod Placement
mod Ready
mod Repeats
mod System
mod Snapshots
