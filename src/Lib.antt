-- ===== src/Lib.antt =====
-- es-snapshot-restore restores Elasticsearch indices from snapshots. A cron job copies the lists of
-- indices and snapshots into a database; an HTTP server finds the indices of a span of time and
-- their newest snapshots, adds and removes the Elasticsearch nodes that a restore runs on, and
-- creates one RestoreTask resource for each index; a Kubernetes reconciler makes sure that the nodes
-- of a task exist, puts an entry into a queue, and a pool of workers restores the entries and
-- reports their ends.
--
-- Which file models what:
--   * Base: Go's errors and results, its `int`, lists and tests on numbers, for all the others.
--   * Utils, Utils/Size, Utils/Random: internal/utils/types.go, and `ToGB` and `RandomString` of
--     internal/utils/utils.go. Size/Grammar and Size/Layout state which texts `ToGB` reads.
--   * Config: `LoadConfig` of cmd/root.go, with Config/Flags for the flags of cmd/root.go and
--     cmd/server.go and Config/Flags/Fields for the fields of config/config.go.
--   * Db, Db/Time, Db/Sizes, Db/Open: internal/db/db.go (rows, `QueryAll`, the conflict clauses; in
--     Open `NewDB` and `DeleteRecord`), string_time.go and utils.go.
--   * Api: the objects of the Kubernetes API, internal/controller/api/v1/restoretask_types.go among
--     them; Api/Memory has its types as they lie in memory, Api/DeepCopy the copies that
--     zz_generated.deepcopy.go beside it makes there, and Api/Scheme the constants and what is
--     registered. internal/controller/api/api/v1 and controller/api/v1 hold the same files.
--   * K8s: `NewESNodeSet` of internal/k8s/client.go and the settings of config/config.go, with
--     `NewClient` in K8s/Client.
--   * Elastic, Elastic/Client: internal/elastic/es.go, the latter for the options of the client;
--     Elastic/Request is about the body of the request to restore.
--   * Cron, Cron/Logger, Cron/Scheduler: internal/cron/job.go, logger.go and cron.go.
--   * Cache: internal/cache/cache.go. Lifecycle: the hooks that Db/Open, Cron/Scheduler,
--     Http/Engine and Controller/Hooks yield, and what controller-runtime's builder is given.
--   * Controller: internal/controller/controller/restoretask_controller.go. Reconcile has one
--     function for each stretch of `Reconcile` (`fetch_task`, `mark_started`, `fetch_es`,
--     `ensure_node`, `fetch_sts`, `check_sts`, `enqueue`); Restore has `restoreIndices`, Status
--     `updateTaskStatus`, Restore/Worker the goroutine that calls both, Pool the interleavings of
--     `StartWorker`, and Filters, Hooks and Wiring what is given to controller-runtime and to fx.
--     System puts these together: the calls of `Reconcile`, the workers, the rounds of the restores and
--     what others do to the world, as one step relation; System/Begin splits `restoreIndices` for it where it first
--     waits, System/Pooled takes its runs to runs of the pool. Clock has the durations of the ticker and
--     the timer.
--     Restore/Renamed and Restore/Placement are about the index that a restore makes: its name, and
--     the nodes that it may be on.
--   * Annotated: internal/controller/controller.go, an earlier controller that keeps the state of a
--     restore in the annotations of a stateful set; the server does not start it. Annotated/Workers
--     has the interleavings of its goroutines, Annotated/Events its filter and its hooks.
--   * Http: internal/http. Query and Latest have the two queries of utils.go, Nodes its node sets,
--     Handlers the handlers of handler.go, Requests what they read, Handlers/Restore the handler
--     `RestoreViaCR`, and Handlers/Routes `RegisterHandler`. Engine has `NewGinEngine` of server.go.
--   * Server: the parts that cmd/server.go puts together, what the two commands run, and `Execute` of
--     cmd/root.go.
--   * Flow: how the parts work together: in Ended the entry that `Reconcile` sends and the worker,
--     in Listed and Stale the cron jobs and the queries of the HTTP server, in Started a new task and the
--     node for it, in Repeated two nodes of one name and their removal.
--   * Scaffold: controller/cmd/main.go and controller/internal/controller/restoretask_controller.go, the
--     program of a second, generated project.
--   * Tests: a small cluster, database and search engine on which the results are applied.
--
-- State and outside code. The cluster, the database and Elasticsearch are records of operations
-- (`Cluster`, `Database`, `Search`) on one type `W` of worlds; a write returns the new world. The map
-- `config.GlobalConfig.ES.Labels`, which `NewESNodeSet` writes in place, is a field of the state
-- next to the world (`State`, `Server`). `float64`, `resource.Quantity`, the parser of times, the
-- random numbers and the clock are parameters too; so are koanf, gorm's set-up and the manager of
-- controller-runtime (`Koanf`, `Gorm`, `Runtime`). Where a result needs more of them, it says so as a
-- hypothesis (`UpdateKeepsSpec`, `RejectsPercent`, `NoEmptyName`, `Reads`, `Selects`,
-- `PatchStores`, `Layered`, `SameBut`, `IsOwned`, `Upserts`,
-- `SnapshotTable`, `MergePatch`, `TaskTable`, `IsFaithful`,
-- `PatchStoresEs`, `UpdateKeepsEs`).
-- In Api/DeepCopy the state is a memory of addresses and cells, so that two pointers may share a slice.
--
-- Errors are values of `Error`, by the call that makes them; log lines are left out. A panic is an
-- outcome of its own (`panicked`, `crashed`).
--
-- Loops. Most are structural recursions over what the code ranges over. The loop of
-- `restoreIndices` recurses over the wakings of its `select`, each a tick or the time-out, with what
-- others did to the world until then; a schedule in which the timer fires is enough for it to
-- return. It is modelled for an interval that `time.NewTicker` accepts; System has a restore go on to
-- its loop only then, as the program ends otherwise. The loops of the workers are step relations, with a step for each channel operation. In System
-- a call of `Reconcile`, the start of a restore and each of its rounds are one step each.
--
-- Not modelled: what cobra, fx, koanf and controller-runtime do with what they are given, the order
-- in which fx builds the parts and runs their hooks among it; the second and third copy of the
-- RestoreTask types and of their generated code, which are equal to the first; the tests of the scaffold.
pub mod Base
pub mod Utils
pub mod Db
pub mod Api
pub mod K8s
pub mod Elastic
pub mod Cron
pub mod Controller
pub mod Annotated
pub mod Http
pub mod Flow
pub mod Config
pub mod Lifecycle
pub mod Cache
pub mod Server
pub mod Scaffold
mod Tests
