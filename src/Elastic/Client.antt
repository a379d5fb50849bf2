-- ===== src/Elastic/Client.antt =====
-- internal/elastic/es.go, the configuration of the client: options that each change it, and `NewES`.
use es_snapshot_restore.Base.{
  ℕ, String, ◌<>◌, Bool, true, Option, none, some, List, [], ◌∷◌, Result, ok, err,
}

-- What is set of `elasticsearch.Config`. The transport is set with `InsecureSkipVerify`.
pub record ClientConfig : Type 0 where
  pub addresses : List String
  pub username : String
  pub password : String
  pub insecure_skip_verify : Option Bool

abbrev pub ConfigOption : Type 0
ConfigOption = ClientConfig → ClientConfig

unfoldable pub with_addr : List String → ConfigOption
with_addr addr c = record c { addresses = addr }

unfoldable pub with_username : String → ConfigOption
with_username name c = record c { username = name }

unfoldable pub with_password : String → ConfigOption
with_password password c = record c { password = password }

unfoldable pub with_skip_tls_verify : Bool → ConfigOption
with_skip_tls_verify skip c = record c { insecure_skip_verify = some skip }

-- The loop over the options, from the empty configuration.
unfoldable pub apply_options : List ConfigOption → ClientConfig → ClientConfig
apply_options [] c = c
apply_options (o ∷ os) c = apply_options os (o c)

unfoldable pub new_es_config : List ConfigOption → ClientConfig
unfolding apply_options
new_es_config opts =
    apply_options opts
      (record { addresses = []; username = ""; password = ""; insecure_skip_verify = none })

-- `NewDefaultESConfig`, from the settings of `config.ES`. `show` prints a number (`%d`).
unfoldable pub new_default_es_config :
    (ℕ → String) → String → String → ℕ → String → String → ClientConfig
unfolding new_es_config with_addr with_username with_password with_skip_tls_verify
new_default_es_config show protocol host port username password = new_es_config (
    with_addr ((protocol <> ("://" <> (host <> (":" <> show port)))) ∷ [])
    ∷ with_username username
    ∷ with_password password
    ∷ with_skip_tls_verify true
    ∷ [])

-- `NewES`. `new_client` stands for `elasticsearch.NewClient`.
unfoldable pub new_es : {C : Type 0} → (ClientConfig → Result C) → ClientConfig → Result C
new_es new_client c = elim (new_client c) [ ok client ↦ ok client | err e ↦ err e ]
