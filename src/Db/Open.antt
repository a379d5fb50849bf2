-- ===== src/Db/Open.antt =====
-- internal/db/db.go, `NewDB` and `DeleteRecord`. gorm is a record of operations on a world `W`, with
-- `H` for `*gorm.DB`.
use es_snapshot_restore.Base.{
  ℕ, String, ◌<>◌, Option, none, some, List, [], ◌∷◌, ◌==◌, if◌then◌else◌, Result, ok, err, Error,
}
use es_snapshot_restore.Lifecycle.{Hook}

-- `config.DB`
pub record DbConfig : Type 0 where
  pub host : String
  pub port : ℕ
  pub username : String
  pub password : String
  pub name : String

-- What is opened: MySQL under a data source name, or the file of SQLite.
pub data Dialect : Type 0 where
  mysql : String → Dialect
  sqlite : String → Dialect

pub data Model : Type 0 where
  es_index es_snapshot task : Model

pub record Gorm (H W : Type 0) : Type 0 where
  pub open_db : Dialect → W → W × Result H
  pub auto_migrate : H → List Model → W → W × Option Error
  -- `db.DB()`, then `Close()` on what it yields.
  pub sql_db : H → W → Result (W → W × Option Error)
  -- `tx.Where(text, args...)`, if there are conditions, and `tx.Delete(record)`.
  pub delete : H → Option (String × List String) → W → W × Option Error

-- The data source name. `show` prints a number (`%d`).
unfoldable pub dsn : (ℕ → String) → DbConfig → String
dsn show c =
    c.username
    <> (":"
        <> (c.password
            <> ("@tcp("
                <> (c.host
                    <> (":"
                        <> (show c.port
                            <> (")/"
                                <> (c.name <> "?charset=utf8mb4&parseTime=True&loc=Local"))))))))

unfoldable pub dialect : (ℕ → String) → DbConfig → Dialect
unfolding dsn
dialect show c = if c.host == "" then sqlite (c.name <> ".db") else mysql (dsn show c)

module _ {H W : Type 0} (g : Gorm H W) where
  open g use {open_db, auto_migrate, sql_db, delete}

  unfoldable pub close_db : H → W → W × Option Error
  close_db h w = elim (sql_db h w) [ err e ↦ (w, some e) | ok close ↦ close w ]

  -- The hook of `NewDB`: the tables are made when the program starts, not before.
  unfoldable pub db_hook : H → Hook W
  unfolding close_db
  db_hook h = record {
    on_start = λ w. auto_migrate h (es_index ∷ es_snapshot ∷ task ∷ []) w;
    on_stop = λ w. close_db h w;
  }

  unfoldable pub opened : W × Result H → W × Result (H × Hook W)
  unfolding db_hook
  opened (w, err e) = (w, err e)
  opened (w, ok h) = (w, ok (h, db_hook h))

  unfoldable pub new_db : (ℕ → String) → DbConfig → W → W × Result (H × Hook W)
  unfolding dialect opened
  new_db show c w = opened (open_db (dialect show c) w)

  unfoldable pub delete_record : H → List String → W → W × Option Error
  delete_record h conds w = delete h (elim conds [ [] ↦ none | text ∷ args ↦ some (text, args) ]) w
