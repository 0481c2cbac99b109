-- ===== src/Examples/Harvest.antt =====
-- The harvest of one finished attempt, against a Central that takes everything and one that is down.
use bangkusekolah_exam_node.Base.{
  ◌+◌, ◌≤◌, ◌≡◌, refl, true, false, some, [], ◌∷◌, find?, select, sort_by, update_where,
  count_where, trim_space, put, keys, at_key,
}
use bangkusekolah_exam_node.Entity.{Attempt, AttemptStatus, push_failed}
use bangkusekolah_exam_node.Exec.{ok, err, query, change, time_now, try, pure, ◌>>=◌}
use bangkusekolah_exam_node.Exec.Hoare.{Outcome}
use bangkusekolah_exam_node.Repository.{find_exam_by_id, list_answers_by_attempt}
use bangkusekolah_exam_node.Repository.Harvest.{
  harvested, list_unpushed_attempts, list_integrity_events_by_attempt,
  mark_attempts_harvested_for_generation,
}
use bangkusekolah_exam_node.Harvest.{
  HarvestPusher, max_batch_attempts, payload_ids, settle_ids, generations_of, drain_deployment,
}
use bangkusekolah_exam_node.Harvest.Drain.{drain_group, nothing_drained, drain_locked}
use bangkusekolah_exam_node.Harvest.Batch.{
  batch_noted, drain_deployment-bounded, drain_group-one_batch,
}
use bangkusekolah_exam_node.Harvest.Marks.{Harvested}
use bangkusekolah_exam_node.Harvest.Whole.{drain_locked-marks_acknowledged}
use bangkusekolah_exam_node.Harvest.Counts.{waiting, drain_deployment-counts}
use bangkusekolah_exam_node.Examples.{first, over, world_of}

abbrev takes_all : HarvestPusher
takes_all deployment_id batch w =
    ok (some (record { accepted_attempt_ids = payload_ids batch.attempts; failures = [] }))

abbrev is_down : HarvestPusher
is_down deployment_id batch w = err (push_failed "connection refused")

abbrev finished : Attempt
finished = record first { status = AttemptStatus.submitted }

-- A drain that Central takes marks the attempt.
drain_test :
    let r = drain_locked takes_all false (world_of over) in
    (r.0 ≡ ok (record { accepted = 1; issues = [] }))
    × (r.1.db.attempts ≡ harvested 200 finished ∷ [])
unfolding drain_locked drain_deployment find_exam_by_id list_answers_by_attempt
    list_unpushed_attempts list_integrity_events_by_attempt query change time_now find? select
    update_where count_where trim_space put keys at_key mark_attempts_harvested_for_generation
    drain_group generations_of settle_ids sort_by
drain_test = (refl, refl)

drain_locked-marks_acknowledged_example :
    Harvested takes_all over (drain_locked takes_all false (world_of over)).1.db
drain_locked-marks_acknowledged_example =
    drain_locked-marks_acknowledged takes_all false (world_of over)

drain_deployment-counts_example :
    Outcome
      (λ n d. n + waiting d ≡ waiting over)
      (λ _. Unit)
      (drain_deployment takes_all "dep" (finished ∷ []) true (world_of over))
drain_deployment-counts_example =
    drain_deployment-counts takes_all "dep" (finished ∷ []) true (world_of over)

drain_deployment-bounded_example :
    Outcome
      (λ n _. (n ≤ 1) × (n ≤ max_batch_attempts))
      (λ _. Unit)
      (drain_deployment takes_all "dep" (finished ∷ []) true (world_of over))
drain_deployment-bounded_example =
    drain_deployment-bounded takes_all "dep" (finished ∷ []) true (world_of over)

drain_group-one_batch_example :
    drain_group is_down "dep" true 1 (finished ∷ []) nothing_drained (world_of over)
    ≡ (try (drain_deployment is_down "dep" (finished ∷ []) true) >>= λ r.
          pure (batch_noted nothing_drained "dep" r))
        (world_of over)
drain_group-one_batch_example =
    drain_group-one_batch is_down "dep" true 0 finished [] nothing_drained (world_of over)
