-- ===== src/Config.antt =====
-- cmd/root.go, `LoadConfig`: the configuration from a file, the environment and the flags, later ones
-- first. Texts are lists of code points here. koanf and its providers are a record of operations.
pub mod Keys
pub mod Layers
pub mod Flags
use es_snapshot_restore.Base.{
  ℕ, ◌+◌, Bool, true, false, ◌&&◌, Option, none, some, List, [], ◌∷◌, map, any, eqb, leb, is_nil,
  if◌then◌else◌, Error, Result, ok, err,
}
use es_snapshot_restore.Utils.Size.{codes, same}

abbrev pub Text : Type 0
Text = List ℕ

-- `strings.ToLower` and `strings.ReplaceAll` by a single character, on ASCII, of which the names of
-- variables and flags are made.
unfoldable pub to_lower : ℕ → ℕ
to_lower c = if leb b'A' c && leb c b'Z' then c + 32 else c

unfoldable pub replace_char : ℕ → ℕ → ℕ → ℕ
replace_char old new c = if eqb c old then new else c

-- `strings.TrimPrefix`: the whole text, if it does not begin so.
abbrev begins : Text → Text → Bool
begins [] s = true
begins (a ∷ p) [] = false
begins (a ∷ p) (b ∷ s) = eqb a b && begins p s

abbrev drop_as : Text → Text → Text
drop_as [] s = s
drop_as (a ∷ p) [] = []
drop_as (a ∷ p) (b ∷ s) = drop_as p s

unfoldable pub trim_prefix : Text → Text → Text
trim_prefix p s = if begins p s then drop_as p s else s

-- `strings.Split(v, " ")`.
abbrev into_first : ℕ → List Text → List Text
into_first c [] = (c ∷ []) ∷ []
into_first c (w ∷ ws) = (c ∷ w) ∷ ws

unfoldable pub split_blank : Text → List Text
split_blank [] = [] ∷ []
split_blank (c ∷ s) = if eqb c b' ' then [] ∷ split_blank s else into_first c (split_blank s)

pub data Setting : Type 0 where
  one : Text → Setting
  many : List Text → Setting

-- The key that the `TransformFunc` of the environment makes of a variable's name.
unfoldable pub env_key : Text → Text → Text
unfolding trim_prefix
env_key prefix name = map (replace_char b'_' b'.') (map to_lower (trim_prefix prefix name))

-- `TransformFunc`.
unfoldable pub transform : Text → Text → Text → Text × Setting
unfolding env_key
transform prefix name v =
    if any (eqb b' ') v
    then (env_key prefix name, many (split_blank v))
    else (env_key prefix name, one v)

-- The key that the callback of the flags makes of a flag's name.
unfoldable pub flag_key : Text → Text
flag_key name = map (replace_char b'-' b'.') (map to_lower name)

-- The two flags that `LoadConfig` reads itself, and whether they were given.
pub record OwnFlags : Type 0 where
  pub config_file : Text
  pub config_file_changed : Bool
  pub env_prefix : Text
  pub env_prefix_changed : Bool

-- What is used of koanf. `load_file` reads and parses a file, `environ` the variables with a prefix
-- through a transformation, `flags` the set of flags, given the values so far and the keys' callback.
-- `merge` is `Load` of a map, `text` is `String`.
pub record Koanf (K : Type 0) : Type 0 where
  pub empty : K
  pub load_file : Text → Result (List (Text × Setting))
  pub environ : Text → (Text → Text → Text × Setting) → List (Text × Setting)
  pub flags : K → (Text → Text) → Result (List (Text × Setting))
  pub merge : List (Text × Setting) → K → K
  pub text : Text → K → Text
  pub all : K → List (Text × Setting)

-- The file: the flag if it was given, else the variable `CONFIG_FILE`, else the flag's default.
unfoldable pub config_file : OwnFlags → Text → Text
config_file f variable =
    if f.config_file_changed
    then f.config_file
    else if is_nil variable
    then f.config_file
    else variable

module _ {K : Type 0} (ko : Koanf K) where
  open ko use {empty, load_file, environ, flags, merge, text, all}

  -- The prefix: the flag if it was given, else `env.prefix` of the file, else the flag's default.
  unfoldable pub env_prefix : OwnFlags → K → Text
  env_prefix f k =
      if f.env_prefix_changed
      then f.env_prefix
      else if is_nil (text (codes "env.prefix") k)
      then f.env_prefix
      else text (codes "env.prefix") k

  -- A load that fails is only logged.
  abbrev pub loaded : Result (List (Text × Setting)) → K → K
  loaded (ok m) k = merge m k
  loaded (err e) k = k

  unfoldable pub with_env : OwnFlags → K → K
  unfolding env_prefix
  with_env f k = merge (environ (env_prefix f k) (transform (env_prefix f k))) k

  unfoldable pub with_flags : K → K
  with_flags k = loaded (flags k flag_key) k

  -- The values that `LoadConfig` gathers.
  unfoldable pub load_config : OwnFlags → Text → K
  unfolding with_env with_flags config_file
  load_config f variable =
      let k = with_flags (with_env f (loaded (load_file (config_file f variable)) empty)) in
      merge (all k) k

  -- `LoadConfig`: what `config.GlobalConfig` becomes. `unmarshal` is `UnmarshalWithConf`, which also
  -- leaves something there if it fails; its error is only logged.
  unfoldable pub global_config : {C : Type 0} → (K → C → C × Option Error) → OwnFlags → Text → C → C
  unfolding load_config
  global_config unmarshal f variable c = (unmarshal (load_config f variable) c).0
