-- ===== src/Repository/Resets.antt =====
-- The repository's methods for resets (app/adapter/persistence/repository/node_repository.go).
use bangkusekolah_exam_node.Base.{
  ℕ, Bool, true, false, ◌&&◌, String, ◌==◌, Option, none, some, eqb, find?, update_where,
  insert_row,
}
use bangkusekolah_exam_node.Entity.{
  Attempt, AttemptStatus, GradingStatus, AttemptResetOperation, in_progress, submitted,
  auto_submitted, graded, attempt_reset_operation_not_found, attempt_reset_conflict, duplicate_key,
}
use bangkusekolah_exam_node.Store.{Store}
use bangkusekolah_exam_node.Exec.{M, Result, ok, err, or_err, query, change}

abbrev pub same_status : AttemptStatus → AttemptStatus → Bool
same_status in_progress in_progress = true
same_status submitted submitted = true
same_status auto_submitted auto_submitted = true
same_status graded graded = true
same_status _ _ = false

abbrev pub is_status : AttemptStatus → Option AttemptStatus → Bool
is_status s none = false
is_status s (some t) = same_status s t

-- FindAttemptResetOperationForUpdate
unfoldable pub find_attempt_reset_operation : String → M AttemptResetOperation
find_attempt_reset_operation request_id = query (λ d.
    or_err (find? (λ o. o.request_id == request_id) d.reset_operations)
      attempt_reset_operation_not_found)

abbrev pub operation_inserted : AttemptResetOperation → Store → Result (Unit {0} × Store)
operation_inserted o d = elim (find? (λ r. r.request_id == o.request_id) d.reset_operations) [
  | some _ ↦ err duplicate_key
  | none ↦
      ok (tt, record d { reset_operations = insert_row (λ r. r.request_id) o d.reset_operations })
]

-- CreateAttemptResetOperation
unfoldable pub create_attempt_reset_operation : AttemptResetOperation → M (Unit {0})
create_attempt_reset_operation o = change (operation_inserted o)

abbrev pub operation_written : AttemptResetOperation → AttemptResetOperation → AttemptResetOperation
operation_written o r = record r {
  status = o.status;
  code = o.code;
  message = o.message;
  attempt_id = o.attempt_id;
  target_generation = o.target_generation;
  attempt_no = o.attempt_no;
  attempt_status = o.attempt_status;
  started_at = o.started_at;
  due_at = o.due_at;
  submitted_at = o.submitted_at;
  auto_submitted_at = o.auto_submitted_at;
  updated_at = o.updated_at;
}

abbrev pub operation_updated : AttemptResetOperation → Store → Result (Unit {0} × Store)
operation_updated o d = elim (find? (λ r. r.request_id == o.request_id) d.reset_operations) [
  | none ↦ err attempt_reset_operation_not_found
  | some _ ↦ ok (
    tt,
    record d {
      reset_operations =
          update_where (λ r. r.request_id == o.request_id) (operation_written o) d.reset_operations;
    },
  )
]

-- UpdateAttemptResetOperation. Its callers take the status away from pending, so the row changes.
unfoldable pub update_attempt_reset_operation : AttemptResetOperation → M (Unit {0})
update_attempt_reset_operation o = change (operation_updated o)

abbrev pub is_resettable_row : Attempt → Option AttemptStatus → ℕ → Attempt → Bool
is_resettable_row a expected_status expected_generation r =
    r.id == a.id && is_status r.status expected_status && eqb r.reset_generation expected_generation

abbrev pub attempt_reopened : Attempt → Attempt → Attempt
attempt_reopened a r = record r {
  status = AttemptStatus.in_progress;
  submitted_at = none;
  auto_submitted_at = none;
  score = none;
  grading_status = GradingStatus.pending;
  reset_generation = a.reset_generation;
  harvested_at = none;
}

abbrev pub attempt_reset : Attempt → Option AttemptStatus → ℕ → Store → Result (Unit {0} × Store)
attempt_reset a status generation d =
    elim (find? (is_resettable_row a status generation) d.attempts) [
      | none ↦ err attempt_reset_conflict
      | some _ ↦ ok (
        tt,
        record d {
          attempts =
              update_where (is_resettable_row a status generation) (attempt_reopened a) d.attempts;
        },
      )
    ]

-- ResetAttempt. The generation that its caller writes is a new one, so the row changes.
unfoldable pub reset_attempt : Attempt → Option AttemptStatus → ℕ → M (Unit {0})
reset_attempt a status generation = change (attempt_reset a status generation)
