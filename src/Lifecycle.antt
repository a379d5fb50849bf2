-- ===== src/Lifecycle.antt =====
-- The hooks that the constructors append to fx's lifecycle: `fx.Hook`. When fx runs them is its own
-- matter; here they are values that a constructor yields. Also what controller-runtime is given.
use es_snapshot_restore.Base.{String, Option, List, Error}

pub record Hook (W : Type 0) : Type 0 where
  pub on_start : W → W × Option Error
  pub on_stop : W → W × Option Error

-- What is given to the builder of controller-runtime before `Complete`: the type of object to watch, the
-- predicates on its events, and the name, if one is given.
pub record Registration (P : Type 0) : Type 0 where
  pub for_kind : String
  pub event_filters : List P
  pub named : Option String
