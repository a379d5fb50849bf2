-- ===== src/Tests/Placement.antt =====
-- What a restore asks for and what it waits for, at concrete inputs.
use es_snapshot_restore.Base.{
  pos, ℕ, String, ◌<>◌, ◌≡◌, ◌≢◌, ◌↔◌, ◌==◌, refl, arith, eq_iff, none, some, List, [], ◌∷◌, ok,
  if◌then◌else◌, Bool, false,
}
use es_snapshot_restore.Api.{NodeSet, Setting}
use es_snapshot_restore.K8s.{lookup, new_es_node_set, node_set}
use es_snapshot_restore.Elastic.{
  Search, CatRecoveryRequest, restore_snapshot_request, restore_answer,
}
use es_snapshot_restore.Elastic.Request.{Contains, replacement, requirement, pattern_text}
use es_snapshot_restore.Controller.{Queued}
use es_snapshot_restore.Controller.Restore.{
  finished, Wake, tick, time_out, poll, mark_failed, run_restore, restore_indices,
}
use es_snapshot_restore.Controller.Restore.Renamed.{
  renaming, after_request, request, restored_name, SameBut, restore_indices-original,
}
use es_snapshot_restore.Controller.Restore.Placement.{run_restore-attribute}
use es_snapshot_restore.Tests.Demo.{
  World, demo_quantities, demo_database, demo_search, demo_config, demo_row, demo_world,
}

abbrev entry : Queued
entry = record { namespace = ""; name = ""; task_id = "t-1"; index = "logs" ∷ [] }

abbrev asks_for : String → List String → Bool
asks_for name (i ∷ []) = i == name
asks_for name _ = false

-- An engine in which the restored index never has a shard.
abbrev never : Search World
never = record demo_search {
  cat_recovery = λ r w.
      if asks_for "restore_s3_logs" r.index then ok (ok []) else demo_search.cat_recovery r w;
}

recovers :
    (r : CatRecoveryRequest) (w : World) (index : String)
    → r.index ≡ index ∷ []
    → index ≢ "restore_s3_logs"
    → demo_search.cat_recovery r w ≡ never.cat_recovery r w
recovers r w index asked other = ground (arith, eq_iff index "restore_s3_logs", other, asked)

alike : SameBut (restored_name "restore" "s3" "logs") demo_search never
alike = record { restores = λ r w. refl; recovers = recovers }

abbrev wakes : List (Wake World)
wakes = tick (λ w. w) ∷ tick (λ w. record w { clock = 9 }) ∷ time_out (λ w. w) ∷ []

restore_indices-original_example :
    (restore_indices demo_database demo_search "restore" (pos 60) entry wakes demo_world
      ≡ after_request demo_database demo_search never "restore" (pos 60) demo_row wakes (
          demo_search.snapshot_restore
            (request demo_database demo_search never "restore" (pos 60) demo_row)
            demo_world))
    × Contains pattern_text
        (restore_snapshot_request "s3" "snap" "restore" "restore" "s3" ("logs" ∷ [])).body
    × Contains
        (renaming "restore_s3_$1")
        (restore_snapshot_request "s3" "snap" "restore" "restore" "s3" ("logs" ∷ [])).body
    × ("logs" ≢ restored_name "restore" "s3" "logs")
    × (restore_indices demo_database demo_search "restore" (pos 60) entry wakes demo_world
        ≡ restore_indices demo_database never "restore" (pos 60) entry wakes demo_world)
restore_indices-original_example =
    restore_indices-original demo_database demo_search never "restore" (pos 60) demo_row alike entry
      "logs" [] wakes demo_world refl refl

abbrev node_name : String
node_name = "restore-n"

abbrev node : NodeSet ℕ (Unit {0})
node =
    node_set demo_quantities demo_config "restore-n"
      (("app.kubernetes.io/instance", "restore-n") ∷ []) 2147483648 4294967296 1073741824 2147483648
      5368709120

makes :
    new_es_node_set demo_quantities demo_config "restore-n" "5gb" (some [])
    ≡ (some (("app.kubernetes.io/instance", "restore-n") ∷ []), some node)
unfolding new_es_node_set
makes = refl

run_restore-attribute_example :
    let r = restore_snapshot_request "s3" "snap" "restore" "restore" "s3" ("logs" ∷ []) in
    (run_restore demo_database demo_search "restore"
        (pos 60)
        (demo_row ∷ [])
        demo_row
        wakes
        demo_world
      ≡ (let (w', answer) = demo_search.snapshot_restore r demo_world in
          elim (restore_answer ("logs" ∷ []) "snap" answer) [
            | none ↦
                poll demo_database demo_search "restore" (pos 60) (demo_row ∷ []) demo_row wakes w'
            | some x ↦ (
              (mark_failed demo_database demo_search "restore"
                  (pos 60)
                  (demo_row ∷ [])
                  demo_row
                  w').0,
              finished (some x),
            )
          ]))
    × Contains (replacement "restore" "s3") r.body
    × Contains (requirement "restore" "s3") r.body
    × ((lookup ("node.attr." <> "restore") node.config ≡ some (Setting.text "s3"))
        ↔ (node_name ≡ "s3"))
run_restore-attribute_example =
    run_restore-attribute demo_quantities demo_config demo_database demo_search demo_row
      (demo_row ∷ []) wakes demo_world "restore-n" "5gb" (some []) makes
