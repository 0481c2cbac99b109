-- ===== src/Reset/Preview.antt =====
-- PreviewReset (app/service/attempt_reset_service.go).
use bangkusekolah_exam_node.Base.{Bool, true, false, not, String, ◌==◌, some, if◌then◌else◌, ltb}
use bangkusekolah_exam_node.Entity.{
  Time, Exam, Participant, Attempt, AttemptResetOperation, AttemptResetOperationStatus, Err,
  attempt_not_found, result_not_available, attempt_reset_conflict, attempt_reset_expired,
  attempt_reset_fenced,
}
use bangkusekolah_exam_node.Exec.{
  M, Result, ok, err, pure, raise, ◌>>=◌, ◌>>◌, try, atomic, time_now,
}
use bangkusekolah_exam_node.Repository.{
  find_exam_by_id, find_participant_by_id, find_latest_attempt_by_participant_and_exam,
}
use bangkusekolah_exam_node.Repository.Resets.{
  find_attempt_reset_operation, update_attempt_reset_operation,
}
use bangkusekolah_exam_node.Reset.{
  AttemptResetCommand, AttemptResetOutcome, validate_attempt_reset_preview_command,
}
use bangkusekolah_exam_node.Reset.Operation.{
  attempt_reset_operation_outcome, finish_rejected_reset, Begun, answered, pending_for,
  begin_operation,
}
use bangkusekolah_exam_node.Reset.Apply.{
  is_exam_not_loaded, is_participant_not_found, is_latest_id, is_other_participant, is_fenced,
}

abbrev pub is_no_latest : Err → Bool
is_no_latest attempt_not_found = true
is_no_latest result_not_available = true
is_no_latest _ = false

-- The operation with what it saw of the attempt.
abbrev pub previewed : AttemptResetOperation → Attempt → Time → AttemptResetOperation
previewed o a now = record o {
  attempt_id = a.id;
  attempt_no = a.attempt_no;
  attempt_status = some a.status;
  target_generation = a.reset_generation;
  started_at = a.started_at;
  due_at = a.due_at;
  submitted_at = a.submitted_at;
  auto_submitted_at = a.auto_submitted_at;
  status = AttemptResetOperationStatus.applied;
  code = "preview_ready";
  message = "attempt metadata preview is ready";
  updated_at = now;
}

module _ (c : AttemptResetCommand) where
  abbrev turned_down : AttemptResetOperation → String → Err → M AttemptResetOutcome
  turned_down o code e = finish_rejected_reset o AttemptResetOperationStatus.rejected code e

  unfoldable pub preview_attempt :
      AttemptResetOperation → Time → Participant → Result Attempt → M AttemptResetOutcome
  unfolding finish_rejected_reset attempt_reset_operation_outcome
  preview_attempt o now p (err e) =
      if is_no_latest e then turned_down o "attempt_not_found" attempt_not_found else raise e
  preview_attempt o now p (ok a) =
      if not (is_latest_id p.latest_attempt_id a.id)
      then turned_down o "target_conflict" attempt_reset_conflict
      else (do
        update_attempt_reset_operation (previewed o a now)
        pure (attempt_reset_operation_outcome (previewed o a now)))

  unfoldable pub preview_participant :
      AttemptResetOperation → Time → Result Participant → M AttemptResetOutcome
  unfolding preview_attempt finish_rejected_reset
  preview_participant o now (err e) =
      if is_participant_not_found e
      then turned_down o "participant_not_found" attempt_reset_conflict
      else raise e
  preview_participant o now (ok p) =
      if is_other_participant c p
      then turned_down o "target_conflict" attempt_reset_conflict
      else (do
        found ← try (find_latest_attempt_by_participant_and_exam p.id c.exam_id)
        preview_attempt o now p found)

  unfoldable pub preview_exam : AttemptResetOperation → Time → Result Exam → M AttemptResetOutcome
  unfolding preview_participant finish_rejected_reset
  preview_exam o now (err e) =
      if is_exam_not_loaded e
      then turned_down o "exam_not_loaded" attempt_reset_conflict
      else raise e
  preview_exam o now (ok exam) =
      if not (exam.deployment_id == c.deployment_id)
      then turned_down o "deployment_mismatch" attempt_reset_conflict
      else (if is_fenced exam.fenced_at
          then turned_down o "deployment_fenced" attempt_reset_fenced
          else (do
            found ← try (find_participant_by_id c.participant_id)
            preview_participant o now found))

  unfoldable pub preview_begun : Begun → M AttemptResetOutcome
  unfolding preview_exam finish_rejected_reset
  preview_begun (answered outcome) = pure outcome
  preview_begun (pending_for o) = do
    now ← time_now
    if not (ltb now c.deadline)
        then finish_rejected_reset o AttemptResetOperationStatus.expired "preview_deadline_expired"
            attempt_reset_expired
        else (do found ← try (find_exam_by_id c.exam_id); preview_exam o now found)

  unfoldable pub preview_locked : String → M AttemptResetOutcome
  unfolding preview_begun begin_operation
  preview_locked command_hash = do
    found ← try (find_attempt_reset_operation c.request_id)
    begun ← begin_operation c command_hash found
    preview_begun begun

  abbrev pub preview_valid : Result (Unit {0}) → Result String → M AttemptResetOutcome
  preview_valid (err e) command_hash = raise e
  preview_valid (ok valid) (err e) = raise e
  preview_valid (ok valid) (ok command_hash) = atomic (preview_locked command_hash)

unfoldable pub preview_reset :
    (AttemptResetCommand → Result String) → AttemptResetCommand → M AttemptResetOutcome
unfolding preview_locked validate_attempt_reset_preview_command
preview_reset attempt_reset_command_hash c =
    preview_valid c (validate_attempt_reset_preview_command c) (attempt_reset_command_hash c)
