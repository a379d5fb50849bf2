-- ===== src/Flow.antt =====
-- How the parts work together. A node: a new task is followed by a request for a node, and such requests
-- may be repeated. An entry: `Reconcile` sends it, and a worker reports its end. An index: the cron job writes its row, and the query of the HTTP server finds it. A snapshot: the same, for a row
-- that was written too early.
pub mod Repeated
pub mod Ended
pub mod Listed
pub mod Stale
pub mod Started
