-- ===== src/Config/Keys.antt =====
-- The names of variables and flags that stand for a path of the configuration.
use es_snapshot_restore.Base.{
  ℕ, ◌-◌, ◌≡◌, refl, ap, ◌∙◌, Bool, true, ◌&&◌, ◌||◌, [], ◌∷◌, ◌++◌, map, all, eqb, leb, eqb_iff,
  if◌then◌else◌, arith,
}
use es_snapshot_restore.Config.{
  Text, to_lower, replace_char, begins, drop_as, trim_prefix, env_key, flag_key,
}

-- A small letter, a digit or a dot.
abbrev pub is_plain : ℕ → Bool
is_plain c = (leb b'a' c && leb c b'z') || ((leb b'0' c && leb c b'9') || eqb c b'.')

-- The variable for a path: the prefix, and the path in capitals with underscores.
unfoldable pub capital : ℕ → ℕ
capital c = if leb b'a' c && leb c b'z' then c - 32 else if eqb c b'.' then b'_' else c

abbrev pub env_name : Text → Text → Text
env_name prefix path = prefix ++ map capital path

-- The flag for a path: the path with dashes.
abbrev pub flag_name : Text → Text
flag_name path = map (replace_char b'.' b'-') path

begins-append : (p s : Text) → begins p (p ++ s) ≡ true
begins-append [] s = refl
begins-append (a ∷ p) s = rw ((eqb_iff a a).1 refl) (begins-append p s)

drop_as-append : (p s : Text) → drop_as p (p ++ s) ≡ s
drop_as-append [] s = refl
drop_as-append (a ∷ p) s = drop_as-append p s

trim_prefix-append : (p s : Text) → trim_prefix p (p ++ s) ≡ s
unfolding trim_prefix
trim_prefix-append p s = rw (begins-append p s) (drop_as-append p s)

capital-back : (c : ℕ) → is_plain c ≡ true → replace_char b'_' b'.' (to_lower (capital c)) ≡ c
unfolding capital to_lower replace_char
capital-back c h = ground arith

dash-back :
    (c : ℕ) → is_plain c ≡ true → replace_char b'-' b'.' (to_lower (replace_char b'.' b'-' c)) ≡ c
unfolding to_lower replace_char
dash-back c h = ground arith

capitals-back :
    (path : Text)
    → all is_plain path ≡ true
    → map (replace_char b'_' b'.') (map to_lower (map capital path)) ≡ path
capitals-back [] h = refl
capitals-back (c ∷ path) h = ground (arith, capital-back c, capitals-back path)

dashes-back : (path : Text) → all is_plain path ≡ true → flag_key (flag_name path) ≡ path
unfolding flag_key
dashes-back [] h = refl
dashes-back (c ∷ path) h = ground (arith, dash-back c, dashes-back path)

-- A path of small letters, digits and dots can be set by a variable, its capitals with underscores
-- for the dots behind any prefix, and by a flag, the path with dashes: both names are read back as
-- the path.
pub env_key-env_name :
    (prefix path : Text)
    → all is_plain path ≡ true
    → (env_key prefix (env_name prefix path) ≡ path) × (flag_key (flag_name path) ≡ path)
unfolding env_key
env_key-env_name prefix path h = (
  ap (λ s. map (replace_char b'_' b'.') (map to_lower s))
        (trim_prefix-append prefix (map capital path))
      ∙ capitals-back path h,
  dashes-back path h,
)
