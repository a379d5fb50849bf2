-- ===== src/Config/Flags/Fields.antt =====
-- config/config.go: the fields of the configuration by their `koanf` tags, and that each flag fills
-- in one of them.
use mathlib.Core.List.{Mem, not-mem-nil, mem-cons}
use mathlib.Core.Logic.Or
use es_snapshot_restore.Base.{
  any, ◌||◌, String, ◌<>◌, ◌≡◌, refl, Bool, true, false, ◌&&◌, List, [], ◌∷◌, ◌++◌, map, all, arith,
}
use es_snapshot_restore.Utils.Size.{codes, same}
use es_snapshot_restore.Config.{to_lower, flag_key, replace_char}
use es_snapshot_restore.Config.Flags.{FieldType, Flag, type_of, root_flags, server_flags}

pub conf_fields : List (String × FieldType)
conf_fields = ("file", FieldType.string) ∷ []

pub env_fields : List (String × FieldType)
env_fields = ("prefix", FieldType.string) ∷ []

pub http_fields : List (String × FieldType)
http_fields =
    ("host", FieldType.string) ∷ ("port", FieldType.int) ∷ ("releaseMode", FieldType.bool) ∷ []

pub es_fields : List (String × FieldType)
es_fields =
    ("host", FieldType.string)
    ∷ ("port", FieldType.int)
    ∷ ("protocol", FieldType.string)
    ∷ ("username", FieldType.string)
    ∷ ("password", FieldType.string)
    ∷ ("restorekey", FieldType.string)
    ∷ ("restorecount", FieldType.int32)
    ∷ ("name", FieldType.string)
    ∷ ("namespace", FieldType.string)
    ∷ ("serviceaccount", FieldType.string)
    ∷ ("plugins", FieldType.string_slice)
    ∷ ("limitcpu", FieldType.string)
    ∷ ("limitmem", FieldType.string)
    ∷ ("requestcpu", FieldType.string)
    ∷ ("requestmem", FieldType.string)
    ∷ ("storageclass", FieldType.string)
    ∷ ("labels", FieldType.string_to_string)
    ∷ ("annotations", FieldType.string_to_string)
    ∷ ("nodeaffinity", FieldType.node_affinity)
    ∷ ("tolerations", FieldType.string_to_string)
    ∷ ("containername", FieldType.string)
    ∷ ("topologykey", FieldType.string)
    ∷ ("diskminsize", FieldType.float64)
    ∷ ("randomlen", FieldType.int)
    ∷ ("concurrency", FieldType.int)
    ∷ ("maxtasks", FieldType.int)
    ∷ ("timeout", FieldType.int)
    ∷ ("interval", FieldType.int)
    ∷ []

pub kibana_fields : List (String × FieldType)
kibana_fields = ("host", FieldType.string) ∷ ("port", FieldType.int) ∷ []

pub db_fields : List (String × FieldType)
db_fields =
    ("host", FieldType.string)
    ∷ ("port", FieldType.int)
    ∷ ("username", FieldType.string)
    ∷ ("password", FieldType.string)
    ∷ ("name", FieldType.string)
    ∷ []

pub redis_fields : List (String × FieldType)
redis_fields =
    ("host", FieldType.string)
    ∷ ("port", FieldType.int)
    ∷ ("password", FieldType.string)
    ∷ ("db", FieldType.int)
    ∷ []

pub cron_fields : List (String × FieldType)
cron_fields = ("schedule", FieldType.string) ∷ []

pub kube_fields : List (String × FieldType)
kube_fields = ("config", FieldType.string) ∷ []

-- The fields of a nested struct, by their paths.
abbrev under : String → List (String × FieldType) → List (String × FieldType)
under tag = map (λ (name, t). (tag <> ("." <> name), t))

-- The paths of `Config`.
pub config_fields : List (String × FieldType)
unfolding conf_fields env_fields http_fields es_fields kibana_fields db_fields redis_fields
    cron_fields kube_fields
config_fields =
    under "config" conf_fields
    ++ under "env" env_fields
    ++ under "http" http_fields
    ++ under "es" es_fields
    ++ under "kibana" kibana_fields
    ++ under "db" db_fields
    ++ under "redis" redis_fields
    ++ under "cron" cron_fields
    ++ under "kube" kube_fields

abbrev same_type : FieldType → FieldType → Bool
same_type FieldType.string FieldType.string = true
same_type FieldType.int FieldType.int = true
same_type FieldType.int32 FieldType.int32 = true
same_type FieldType.bool FieldType.bool = true
same_type FieldType.float64 FieldType.float64 = true
same_type FieldType.string_slice FieldType.string_slice = true
same_type FieldType.string_to_string FieldType.string_to_string = true
same_type _ _ = false

-- The flag's key is the field's path, up to the case of its tag, and both have one type.
unfoldable pub fills : Flag → String × FieldType → Bool
unfolding flag_key to_lower type_of
fills f (path, t) =
    same (flag_key (codes f.name)) (map to_lower (codes path)) && same_type (type_of f.default) t

all-mem {ℓ} :
    {A : Type ℓ} (p : A → Bool) (x : A) (xs : List A) → all p xs ≡ true → Mem x xs → p x ≡ true
all-mem p x [] h m = absurd (not-mem-nil m)
all-mem p x (y ∷ ys) h m =
    Or.elim (hlevel) (mem-cons.0 m) (λ e. rw e (ground arith)) (all-mem p x ys (ground arith))

abbrev pub all_flags : List Flag
all_flags = root_flags ++ server_flags

abbrev is_set_by_no_flag : FieldType → Bool
is_set_by_no_flag FieldType.node_affinity = true
is_set_by_no_flag _ = false

all_flags_fill : all (λ f. any (fills f) config_fields) all_flags ≡ true
unfolding fills config_fields root_flags server_flags replace_char
all_flags_fill = refl

all_fields_filled :
    all (λ f. is_set_by_no_flag f.1 || any (λ g. fills g f) all_flags) config_fields ≡ true
unfolding fills config_fields root_flags server_flags replace_char
all_fields_filled = refl

-- Every flag of the two commands fills in a field of the configuration of the flag's own type.
pub flag_fills : (f : Flag) → Mem f all_flags → any (fills f) config_fields ≡ true
flag_fills f m = all-mem (λ g. any (fills g) config_fields) f all_flags all_flags_fill m

-- Every field but the node affinity is filled in by a flag.
field_filled :
    (f : String × FieldType)
    → Mem f config_fields
    → is_set_by_no_flag f.1 || any (λ g. fills g f) all_flags ≡ true
field_filled f m =
    all-mem (λ g. is_set_by_no_flag g.1 || any (λ h. fills h g) all_flags) f config_fields
      all_fields_filled m
