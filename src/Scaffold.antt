-- ===== src/Scaffold.antt =====
-- controller/cmd/main.go: the program of the kubebuilder project, which starts a manager with the
-- reconciler of controller/internal/controller/restoretask_controller.go, from its flags to its exit
-- code. controller-runtime is a record of operations.
use es_snapshot_restore.Base.{
  ℕ, String, Bool, true, false, not, Option, none, some, List, [], ◌∷◌, ◌==◌, if◌then◌else◌, Result,
  ok, err, Error,
}
use es_snapshot_restore.Lifecycle.{Registration}

-- The flags, with the defaults below. Those that `zap.Options` binds only set up the log.
pub record MainFlags : Type 0 where
  pub metrics_addr : String
  pub probe_addr : String
  pub enable_leader_election : Bool
  pub secure_metrics : Bool
  pub webhook_cert_path : String
  pub webhook_cert_name : String
  pub webhook_cert_key : String
  pub metrics_cert_path : String
  pub metrics_cert_name : String
  pub metrics_cert_key : String
  pub enable_http2 : Bool

unfoldable pub default_flags : MainFlags
default_flags = record {
  metrics_addr = "0";
  probe_addr = ":8081";
  enable_leader_election = false;
  secure_metrics = true;
  webhook_cert_path = "";
  webhook_cert_name = "tls.crt";
  webhook_cert_key = "tls.key";
  metrics_cert_path = "";
  metrics_cert_name = "tls.crt";
  metrics_cert_key = "tls.key";
  enable_http2 = false;
}

-- What is changed of `tls.Config`.
pub record TlsConfig : Type 0 where
  pub next_protos : List String

unfoldable pub disable_http2 : TlsConfig → TlsConfig
disable_http2 c = record c { next_protos = "http/1.1" ∷ [] }

unfoldable pub tls_opts : MainFlags → List (TlsConfig → TlsConfig)
unfolding disable_http2
tls_opts f = if not f.enable_http2 then disable_http2 ∷ [] else []

-- Where a server finds its certificate; empty texts leave that to the library.
pub record Certificate : Type 0 where
  pub dir : String
  pub name : String
  pub key : String

unfoldable pub certificate : String → String → String → Certificate
certificate path name key =
    if path == ""
    then record { dir = ""; name = ""; key = "" }
    else record { dir = path; name = name; key = key }

pub record WebhookOptions : Type 0 where
  pub tls_opts : List (TlsConfig → TlsConfig)
  pub certificate : Certificate

-- `filtered`: the filter provider is `WithAuthenticationAndAuthorization`, else there is none.
pub record MetricsOptions : Type 0 where
  pub bind_address : String
  pub secure_serving : Bool
  pub tls_opts : List (TlsConfig → TlsConfig)
  pub filtered : Bool
  pub certificate : Certificate

pub record ManagerOptions : Type 0 where
  pub metrics : MetricsOptions
  pub webhook : WebhookOptions
  pub health_probe_bind_address : String
  pub leader_election : Bool
  pub leader_election_id : String

unfoldable pub webhook_options : MainFlags → WebhookOptions
unfolding tls_opts certificate
webhook_options f = record {
  tls_opts = tls_opts f;
  certificate = certificate f.webhook_cert_path f.webhook_cert_name f.webhook_cert_key;
}

unfoldable pub metrics_options : MainFlags → MetricsOptions
unfolding tls_opts certificate
metrics_options f = record {
  bind_address = f.metrics_addr;
  secure_serving = f.secure_metrics;
  tls_opts = tls_opts f;
  filtered = f.secure_metrics;
  certificate = certificate f.metrics_cert_path f.metrics_cert_name f.metrics_cert_key;
}

unfoldable pub manager_options : MainFlags → ManagerOptions
unfolding webhook_options metrics_options
manager_options f = record {
  metrics = metrics_options f;
  webhook = webhook_options f;
  health_probe_bind_address = f.probe_addr;
  leader_election = f.enable_leader_election;
  leader_election_id = "5d373dc7.restore.elastic.co";
}

-- `ctrl.Request`: the name of an object.
pub record Request : Type 0 where
  pub namespace : String
  pub name : String

-- `ctrl.Result`
pub record Outcome : Type 0 where
  pub requeue : Bool
  pub requeue_after : ℕ

-- `Reconcile` of the reconciler: it does nothing yet.
unfoldable pub reconcile : {W : Type 0} → Request → W → W × Outcome × Option Error
reconcile req w = (w, record { requeue = false; requeue_after = 0 }, none)

-- No predicates are given to its builder.
unfoldable pub registration : Registration ⊥
registration = record { for_kind = "RestoreTask"; event_filters = []; named = some "restoretask" }

-- `ctrl.NewManager`, and what is called on the manager `M`; `complete` is `Complete` of the builder.
pub record Runtime (M W : Type 0) : Type 0 where
  pub new_manager : ManagerOptions → W → W × Result M
  pub complete :
      M → Registration ⊥ → (Request → W → W × Outcome × Option Error) → W → W × Option Error
  pub add_healthz_check : M → String → W → W × Option Error
  pub add_readyz_check : M → String → W → W × Option Error
  pub start : M → W → W × Option Error

-- What follows a step of `main`: an error ends the program with the exit code 1.
abbrev pub or_exit : {W : Type 0} → W × Option Error → (W → W × ℕ) → W × ℕ
or_exit (w, some e) rest = (w, 1)
or_exit (w, none) rest = rest w

module _ {M W : Type 0} (r : Runtime M W) where
  open r use {new_manager, complete, add_healthz_check, add_readyz_check, start}

  unfoldable pub setup_with_manager : M → W → W × Option Error
  unfolding registration reconcile
  setup_with_manager m w = complete m registration reconcile w

  -- The steps of `main` on the manager. At the end `main` returns, with the exit code 0.
  unfoldable pub run_manager : M → W → W × ℕ
  unfolding setup_with_manager
  run_manager m w = or_exit (setup_with_manager m w) λ w₁.
      or_exit (add_healthz_check m "healthz" w₁)
        λ w₂. or_exit (add_readyz_check m "readyz" w₂) λ w₃. or_exit (start m w₃) λ w₄. (w₄, 0)

  unfoldable pub managed : W × Result M → W × ℕ
  unfolding run_manager
  managed (w, err e) = (w, 1)
  managed (w, ok m) = run_manager m w

  unfoldable pub main : MainFlags → W → W × ℕ
  unfolding managed manager_options
  main f w = managed (new_manager (manager_options f) w)
