-- ===== src/Http/Engine.antt =====
-- internal/http/server.go, `NewGinEngine`.
use es_snapshot_restore.Base.{
  ℕ, String, ◌<>◌, Bool, true, false, Option, none, List, [], ◌∷◌, Error,
}
use es_snapshot_restore.Lifecycle.{Hook}

-- `config.Http`
pub record HttpConfig : Type 0 where
  pub host : String
  pub port : ℕ
  pub release_mode : Bool

-- How `ListenAndServe` ends.
pub data ListenEnd : Type 0 where
  no_error : ListenEnd
  server_closed : ListenEnd
  failed : Error → ListenEnd

-- The middleware, in order.
pub data Middleware : Type 0 where
  set_logger recovery : Middleware

pub record Engine : Type 0 where
  pub middleware : List Middleware
  pub addr : String
  pub sets_release_mode : Bool

-- Of `net/http`: starting the goroutine that listens, and `Shutdown`.
pub record HttpServer (W : Type 0) : Type 0 where
  pub listen : String → W → W
  pub shutdown : String → W → W × Option Error

-- Whether the goroutine of the start hook panics, by how listening ends.
unfoldable pub listen_panics : ListenEnd → Bool
listen_panics no_error = false
listen_panics server_closed = false
listen_panics (failed e) = true

-- The engine. `show` prints a number (`%d`).
unfoldable pub new_engine : (ℕ → String) → HttpConfig → Engine
new_engine show c = record {
  middleware = set_logger ∷ recovery ∷ [];
  addr = c.host <> (":" <> show c.port);
  sets_release_mode = c.release_mode;
}

-- The hook: it starts to listen and reports no error, whatever becomes of that.
unfoldable pub engine_hook : {W : Type 0} → HttpServer W → Engine → Hook W
engine_hook srv e = record {
  on_start = λ w. (srv.listen e.addr w, none);
  on_stop = λ w. srv.shutdown e.addr w;
}

unfoldable pub new_gin_engine :
    {W : Type 0} → (ℕ → String) → HttpServer W → HttpConfig → Engine × Hook W
unfolding new_engine engine_hook
new_gin_engine show srv c = (new_engine show c, engine_hook srv (new_engine show c))
