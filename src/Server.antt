-- ===== src/Server.antt =====
-- cmd/server.go: the constructors that the server command gives to fx, and the functions that fx is
-- to call, with the parts that each takes and yields. How fx builds them is its own matter. Also the two
-- commands, and `Execute` of cmd/root.go.
use es_snapshot_restore.Base.{
  String, Option, none, some, Error, ℕ, ◌≡◌, refl, Bool, true, ◌&&◌, ◌||◌, List, [], ◌∷◌, any, all,
  eqb, ltb,
}

-- What is passed between them. `lifecycle` is fx's own.
pub data Part : Type 0 where
  lifecycle cache gin_engine db es_config es cron k8s_client manager reconciler : Part

pub data Constructor : Type 0 where
  new_cache new_gin_engine new_db new_default_es_config new_es new_cron new_client new_manager
        new_restore_reconciler_ctrl :
      Constructor

pub data Invoked : Type 0 where
  register_handler register_jobs run_manager : Invoked

-- `fx.Provide` and `fx.Invoke`, in order.
unfoldable pub provided : List Constructor
provided =
    new_cache ∷ new_gin_engine ∷ new_db ∷ new_default_es_config ∷ new_es ∷ new_cron ∷ new_client
    ∷ new_manager ∷ new_restore_reconciler_ctrl ∷ []

unfoldable pub invoked : List Invoked
invoked = register_handler ∷ register_jobs ∷ run_manager ∷ []

-- By the types of their results and parameters.
abbrev pub yields : Constructor → Part
yields new_cache = cache
yields new_gin_engine = gin_engine
yields new_db = db
yields new_default_es_config = es_config
yields new_es = es
yields new_cron = cron
yields new_client = k8s_client
yields new_manager = manager
yields new_restore_reconciler_ctrl = reconciler

abbrev pub takes : Constructor → List Part
takes new_cache = []
takes new_gin_engine = lifecycle ∷ []
takes new_db = lifecycle ∷ []
takes new_default_es_config = []
takes new_es = es_config ∷ []
takes new_cron = lifecycle ∷ []
takes new_client = []
takes new_manager = []
takes new_restore_reconciler_ctrl = lifecycle ∷ manager ∷ es ∷ db ∷ []

abbrev pub uses : Invoked → List Part
uses register_handler = gin_engine ∷ es ∷ db ∷ k8s_client ∷ []
uses register_jobs = lifecycle ∷ cron ∷ es ∷ db ∷ []
uses run_manager = lifecycle ∷ manager ∷ reconciler ∷ []

-- An order in which the parts can be built.
abbrev pub rank : Part → ℕ
rank lifecycle = 0
rank cache = 1
rank gin_engine = 2
rank db = 3
rank es_config = 4
rank es = 5
rank cron = 6
rank k8s_client = 7
rank manager = 8
rank reconciler = 9

-- The part is fx's own, or some constructor yields it.
abbrev pub is_given : Part → Bool
is_given p = eqb (rank p) 0 || any (λ c. eqb (rank (yields c)) (rank p)) provided

takes-given :
    (c : Constructor) → all (λ p. is_given p && ltb (rank p) (rank (yields c))) (takes c) ≡ true
unfolding provided
takes-given new_cache = refl
takes-given new_gin_engine = refl
takes-given new_db = refl
takes-given new_default_es_config = refl
takes-given new_es = refl
takes-given new_cron = refl
takes-given new_client = refl
takes-given new_manager = refl
takes-given new_restore_reconciler_ctrl = refl

uses-given : (i : Invoked) → all is_given (uses i) ≡ true
unfolding provided
uses-given register_handler = refl
uses-given register_jobs = refl
uses-given run_manager = refl

-- All that is taken is given, and the constructors do not wait for each other in a circle.
pub server_closed :
    ((c : Constructor) → all (λ p. is_given p && ltb (rank p) (rank (yields c))) (takes c) ≡ true)
    × ((i : Invoked) → all is_given (uses i) ≡ true)
server_closed = (takes-given, uses-given)

-- cmd/root.go, `Execute`: the exit code of the program, by how the command ends, or none if it
-- returns from `main`.
unfoldable pub execute : Option Error → Option ℕ
execute none = none
execute (some e) = some 1

-- The root command, and the one that is added to it.
pub data Command : Type 0 where
  root server : Command

unfoldable pub use_text : Command → String
use_text root = "es-snapshot-restore"
use_text server = "server"

-- What cobra runs for a command: `PersistentPreRun`, which both have from the root and which sets the
-- configuration `c`, then `Run`. `load` is `LoadConfig`, and `serve` stands for fx's app, with the parts
-- above, on that configuration.
unfoldable pub run_command : {C W : Type 0} → (C → C) → (C → W → W) → Command → C → W → C × W
run_command load serve root c w = (load c, w)
run_command load serve server c w = (load c, serve (load c) w)
