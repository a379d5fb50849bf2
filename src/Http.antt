-- ===== src/Http.antt =====
-- internal/http: the queries behind the handlers, the node sets, and the handlers.
pub mod Query
pub mod Latest
pub mod Nodes
pub mod Requests
pub mod Handlers
pub mod Engine
