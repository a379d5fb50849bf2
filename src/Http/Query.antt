-- ===== src/Http/Query.antt =====
-- internal/http/utils.go, `QueryIndexResultViaTime`: the indices of some names in a span of time.
pub mod Sql
pub mod Spans
use es_snapshot_restore.Base.{
  ◌<>◌, String, Bool, true, false, not, ◌&&◌, List, [], ◌∷◌, ◌++◌, map, ◌==◌, if◌then◌else◌, Result,
  ok, err, ◌>>=◌,
}
use es_snapshot_restore.Db.{EsIndex, Statement, query_all, Database}
use es_snapshot_restore.K8s.{join}

-- The arguments of the conditions on the name, and their text.
abbrev pub pattern : String → String
pattern n = "%" <> (n <> "%")

unfoldable pub name_query : List String → String
name_query names = join " OR " (map (λ _. "name LIKE ?") names)

abbrev pub newest_first : String
newest_first = "index_create_at DESC"

-- The newest index up to `start`.
unfoldable pub before_start_first : List String → String → Statement
before_start_first names start =
    query_all newest_first 1
      ((name_query names <> " AND index_create_at <= ?") ∷ (map pattern names ++ (start ∷ [])))

unfoldable pub after_start : List String → String → Statement
after_start names start =
    query_all newest_first 0
      ((name_query names <> " AND index_create_at >= ?") ∷ (map pattern names ++ (start ∷ [])))

unfoldable pub after_start_before_end : List String → String → String → Statement
after_start_before_end names start end = query_all newest_first 0 (
    (name_query names <> " AND index_create_at >= ? AND index_create_at <= ?")
    ∷ (map pattern names ++ (start ∷ end ∷ [])))

unfoldable pub before_end : List String → String → Statement
before_end names end =
    query_all newest_first 0
      ((name_query names <> " AND index_create_at <= ?") ∷ (map pattern names ++ (end ∷ [])))

unfoldable pub at_any_time : List String → Statement
at_any_time names = query_all newest_first 0 (name_query names ∷ map pattern names)

module _ {T W : Type 0} (db : Database T W) where
  open db use {find_indices}

  -- Two queries, the results one after the other.
  unfoldable pub both : Statement → Statement → W → Result (List (EsIndex T))
  both first second w = do xs ← find_indices first w; ys ← find_indices second w; ok (xs ++ ys)

  unfoldable pub query_index_result_via_time :
      List String → String → String → W → Result (List (EsIndex T))
  query_index_result_via_time names start end w =
      if not (start == "") && end == ""
      then both (before_start_first names start) (after_start names start) w
      else if not (start == "") && not (end == "")
      then both (before_start_first names start) (after_start_before_end names start end) w
      else if start == "" && not (end == "")
      then find_indices (before_end names end) w
      else find_indices (at_any_time names) w
