-- ===== src/Config/Layers.antt =====
-- Which of the file, the environment and the flags decides the value at a path.
use es_snapshot_restore.Base.{
  ◌≡◌, refl, ap, ◌∙◌, Option, none, some, List, [], ◌∷◌, if◌then◌else◌, Result, ok, err,
}
use es_snapshot_restore.Utils.Size.{same}
use es_snapshot_restore.Config.{
  Text, Setting, OwnFlags, Koanf, transform, flag_key, config_file, env_prefix, loaded, with_env,
  with_flags, load_config,
}

abbrev pub find : Text → List (Text × Setting) → Option Setting
find p [] = none
find p ((q, v) ∷ m) = if same q p then some v else find p m

abbrev pub or_else : Option Setting → Option Setting → Option Setting
or_else none b = b
or_else (some a) b = some a

abbrev pub from : Text → Result (List (Text × Setting)) → Option Setting
from p (ok m) = find p m
from p (err e) = none

module _ {K : Type 0} (ko : Koanf K) (p : Text) where
  -- How koanf behaves at the path `p`: nothing is set at first, a map that is loaded wins over what
  -- was there, and `All` gives the value back.
  pub record Layered : Type 0 where
    pub get : K → Option Setting
    pub at_first : get ko.empty ≡ none
    pub get-merge :
        (m : List (Text × Setting)) (k : K) → get (ko.merge m k) ≡ or_else (find p m) (get k)
    pub find-all : (k : K) → find p (ko.all k) ≡ get k

  get-loaded :
      (l : Layered) (r : Result (List (Text × Setting))) (k : K)
      → l.get (loaded ko r k) ≡ or_else (from p r) (l.get k)
  get-loaded l (ok m) k = l.get-merge m k
  get-loaded l (err e) k = refl

  or_else-none : (a : Option Setting) → or_else a none ≡ a
  or_else-none none = refl
  or_else-none (some a) = refl

  or_else_idem : (a : Option Setting) → or_else a a ≡ a
  or_else_idem none = refl
  or_else_idem (some a) = refl

  -- If koanf sets nothing at first, lets later maps win and lists what it holds, then the value at a
  -- path is that of the flags; if they give none, that of the variables with the prefix in force,
  -- which is read off after the file is loaded; and if these give none, that of the file.
  pub load_config_lem :
      (l : Layered) (f : OwnFlags) (variable : Text)
      → let file = ko.load_file (config_file f variable) in
        let k = loaded ko file ko.empty in
        let prefix = env_prefix ko f k in
        l.get (load_config ko f variable)
        ≡ or_else
            (from p (ko.flags (with_env ko f k) flag_key))
            (or_else (find p (ko.environ prefix (transform prefix))) (from p file))
  unfolding load_config with_env with_flags
  load_config_lem l f variable =
      let k₁ = loaded ko (ko.load_file (config_file f variable)) ko.empty in
      let k₂ = with_env ko f k₁ in
      let k₃ = with_flags ko k₂ in
      let prefix = env_prefix ko f k₁ in
      let in_file =
        get-loaded l (ko.load_file (config_file f variable)) ko.empty
        ∙ ap (or_else (from p (ko.load_file (config_file f variable)))) l.at_first
        ∙ or_else-none (from p (ko.load_file (config_file f variable))) in
      let in_env = l.get-merge (ko.environ prefix (transform prefix)) k₁ in
      let in_flags = get-loaded l (ko.flags k₂ flag_key) k₂ in
      l.get-merge (ko.all k₃) k₃
      ∙ ap (λ o. or_else o (l.get k₃)) (l.find-all k₃)
      ∙ or_else_idem (l.get k₃)
      ∙ in_flags
      ∙ ap (or_else (from p (ko.flags k₂ flag_key)))
          (in_env ∙ ap (or_else (find p (ko.environ prefix (transform prefix)))) in_file)
