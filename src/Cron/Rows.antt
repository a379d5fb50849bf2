-- ===== src/Cron/Rows.antt =====
-- The rows that the jobs write.
use es_snapshot_restore.Base.{◌≡◌, sym, ap, ◌∙◌, List, [], ◌∷◌, ◌++◌, map}
use mathlib.Core.List.{append_assoc, append-nil}
use es_snapshot_restore.Db.{EsIndex, Database, create_index_clause}
use es_snapshot_restore.Db.Time.{TimeLib, new_time_string}
use es_snapshot_restore.Elastic.{Index, Search, get_all_index}
use es_snapshot_restore.Cron.{listed, time_or_zero, index_rows, run_all_index}

module _ {T : Type 0} (lib : TimeLib T) where
  -- The row of one index: a creation time that cannot be read is stored as the zero time.
  abbrev pub row_of : Index → EsIndex T
  row_of i = record {
    name = i.name;
    index_create_at = time_or_zero lib (new_time_string lib i.create_at);
    store_size = i.store_size;
  }

  index_rows-append :
      (all : List (EsIndex T)) (is : List Index) → index_rows lib all is ≡ all ++ map row_of is
  unfolding index_rows
  index_rows-append all [] = sym (append-nil all)
  index_rows-append all (i ∷ is) =
      index_rows-append (all ++ (row_of i ∷ [])) is
      ∙ append_assoc all (row_of i ∷ []) (map row_of is)

  -- One batch holds a row for every index that Elasticsearch lists, in order, whether or not its
  -- creation time can be read; if the listing fails, the batch is empty.
  pub run_all_index_lem :
      {W : Type 0} (es : Search W) (db : Database T W) (w : W)
      → run_all_index lib es db w
        ≡ (db.create_indices create_index_clause (map row_of (listed (get_all_index es w))) w).0
  unfolding run_all_index
  run_all_index_lem es db w =
      ap (λ rows. (db.create_indices create_index_clause rows w).0)
        (index_rows-append [] (listed (get_all_index es w)))
