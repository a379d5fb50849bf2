-- ===== src/Tests/Startup.antt =====
-- The properties of the configuration, of the random texts and of the pool at its start,
-- at concrete inputs.
use es_snapshot_restore.Base.{
  Bool-cases, inl, inr, ◌≡◌, refl, true, false, List, [], ◌∷◌, ◌++◌, if◌then◌else◌, ok, err,
  not_found,
}
use es_snapshot_restore.Utils.Size.{codes, same}
use es_snapshot_restore.Config.{
  Text, Setting, one, OwnFlags, Koanf, env_key, flag_key, transform, config_file, env_prefix,
  loaded, with_env, load_config,
}
use es_snapshot_restore.Config.Keys.{env_name, flag_name, env_key-env_name}
use es_snapshot_restore.Config.Layers.{find, or_else, from, Layered, load_config_lem}

env_key-env_name_example :
    (env_key (codes "APP_") (env_name (codes "APP_") (codes "es.name")) ≡ codes "es.name")
    × (flag_key (flag_name (codes "es.name")) ≡ codes "es.name")
env_key-env_name_example = env_key-env_name (codes "APP_") (codes "es.name") refl

-- A file with a port, a variable for the port, and a flag for the name.
abbrev koanf : Koanf (List (Text × Setting))
koanf = record {
  empty = [];
  load_file = λ path.
      if same path (codes "config.yaml")
      then ok ((codes "es.port", one (codes "9200")) ∷ [])
      else err not_found;
  environ = λ prefix f. (f (prefix ++ codes "ES_PORT") (codes "9300")) ∷ [];
  flags = λ k key. ok ((key (codes "es-name"), one (codes "es")) ∷ []);
  merge = λ m k. m ++ k;
  text = λ p k. [];
  all = λ k. k;
}

find-append :
    (p : Text) (m k : List (Text × Setting)) → find p (m ++ k) ≡ or_else (find p m) (find p k)
find-append p [] k = refl
find-append p ((q, v) ∷ m) k = elim (Bool-cases (same q p)) [
  | inl same ↦ rw same refl
  | inr later ↦ rw later (find-append p m k)
]

abbrev layered : Layered koanf (codes "es.port")
layered = record {
  get = find (codes "es.port");
  at_first = refl;
  get-merge = find-append (codes "es.port");
  find-all = λ k. refl;
}

abbrev own : OwnFlags
own = record {
  config_file = codes "config.yaml";
  config_file_changed = true;
  env_prefix = codes "APP_";
  env_prefix_changed = false;
}

load_config_example :
    let file = koanf.load_file (config_file own []) in
    let k = loaded koanf file koanf.empty in
    let prefix = env_prefix koanf own k in
    layered.get (load_config koanf own [])
    ≡ or_else (from (codes "es.port") (koanf.flags (with_env koanf own k) flag_key)) (
        or_else
          (find (codes "es.port") (koanf.environ prefix (transform prefix)))
          (from (codes "es.port") file))
load_config_example = load_config_lem koanf (codes "es.port") layered own []
