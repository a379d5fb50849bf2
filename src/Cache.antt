-- ===== src/Cache.antt =====
-- internal/cache/cache.go, `NewCache`: which store stands behind the cache.
use es_snapshot_restore.Base.{ℕ, String, ◌<>◌, ◌==◌, if◌then◌else◌, Result, ok, err}

-- `config.Redis`
pub record RedisConfig : Type 0 where
  pub host : String
  pub port : ℕ
  pub password : String
  pub db : ℕ

-- The options that the two stores are opened with.
pub data Store : Type 0 where
  redis : String → String → ℕ → Store
  ristretto : ℕ → ℕ → ℕ → Store

-- `show` prints a number (`%d`).
unfoldable pub store_of : (ℕ → String) → RedisConfig → Store
store_of show c =
    if c.host == ""
    then ristretto 1000 100 64
    else redis (c.host <> (":" <> show c.port)) c.password c.db

-- `open_store` stands for the two libraries' `NewClient` and `NewCache`.
unfoldable pub new_cache : {C : Type 0} → (ℕ → String) → (Store → Result C) → RedisConfig → Result C
unfolding store_of
new_cache show open_store c = elim (open_store (store_of show c)) [ err e ↦ err e | ok s ↦ ok s ]
