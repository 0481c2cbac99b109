-- ===== src/Reset/Apply.antt =====
-- ApplyReset (app/service/attempt_reset_service.go), a step of its transaction after the other.
use bangkusekolah_exam_node.Base.{
  ℕ, ◌+◌, Bool, true, false, ◌&&◌, ◌||◌, not, String, ◌==◌, Option, none, some, if◌then◌else◌, ltb,
  eqb,
}
use bangkusekolah_exam_node.Entity.{
  Time, Exam, Participant, Attempt, AttemptStatus, GradingStatus, AttemptResetOperation,
  AttemptResetOperationStatus, is_in_progress, in_progress, submitted, auto_submitted, Err,
  exam_not_loaded, participant_not_found, attempt_not_found, attempt_reset_conflict,
  attempt_reset_not_allowed, attempt_reset_expired, attempt_reset_fenced,
}
use bangkusekolah_exam_node.Exec.{
  M, Result, ok, err, pure, raise, ◌>>=◌, ◌>>◌, try, atomic, time_now,
}
use bangkusekolah_exam_node.Repository.{find_exam_by_id, find_participant_by_id, find_attempt_by_id}
use bangkusekolah_exam_node.Repository.Resets.{
  same_status, is_status, find_attempt_reset_operation, update_attempt_reset_operation,
  reset_attempt,
}
use bangkusekolah_exam_node.Attempt.{is_attempt_not_found}
use bangkusekolah_exam_node.Reset.{
  AttemptResetCommand, AttemptResetOutcome, validate_attempt_reset_command,
}
use bangkusekolah_exam_node.Reset.Operation.{
  same_time_pointer, attempt_reset_operation_outcome, finish_rejected_reset, Begun, answered,
  pending_for, begin_operation,
}

abbrev pub is_exam_not_loaded : Err → Bool
is_exam_not_loaded exam_not_loaded = true
is_exam_not_loaded _ = false

abbrev pub is_participant_not_found : Err → Bool
is_participant_not_found participant_not_found = true
is_participant_not_found _ = false

abbrev pub is_reset_conflict : Err → Bool
is_reset_conflict attempt_reset_conflict = true
is_reset_conflict _ = false

abbrev pub is_latest_id : Option String → String → Bool
is_latest_id none id = false
is_latest_id (some latest) id = latest == id

abbrev pub is_applied : AttemptResetOperationStatus → Bool
is_applied AttemptResetOperationStatus.applied = true
is_applied _ = false

abbrev pub is_fenced : Option Time → Bool
is_fenced none = false
is_fenced (some at) = true

-- finishOutcome
unfoldable pub finish_outcome :
    AttemptResetOperation
    → Attempt
    → AttemptResetOperationStatus
    → String
    → String
    → M AttemptResetOutcome
unfolding attempt_reset_operation_outcome
finish_outcome o a status code message = do
  now ← time_now
  let done = record o {
    status = status;
    code = code;
    message = message;
    attempt_id = a.id;
    attempt_no = a.attempt_no;
    attempt_status = some a.status;
    target_generation = if is_applied status then a.reset_generation else o.target_generation;
    started_at = a.started_at;
    due_at = a.due_at;
    submitted_at = a.submitted_at;
    auto_submitted_at = a.auto_submitted_at;
    updated_at = now;
  }
  update_attempt_reset_operation done
  pure (attempt_reset_operation_outcome done)

-- The attempt as it is reopened.
abbrev pub reopened : Attempt → ℕ → Attempt
reopened a generation = record a {
  status = AttemptStatus.in_progress;
  submitted_at = none;
  auto_submitted_at = none;
  score = none;
  grading_status = GradingStatus.pending;
  reset_generation = generation;
}

module _ (c : AttemptResetCommand) where
  abbrev rejected : AttemptResetOperation → String → Err → M AttemptResetOutcome
  rejected o code e = finish_rejected_reset o AttemptResetOperationStatus.rejected code e

  abbrev expired : AttemptResetOperation → String → M AttemptResetOutcome
  expired o code =
      finish_rejected_reset o AttemptResetOperationStatus.expired code attempt_reset_expired

  unfoldable pub settle_write :
      AttemptResetOperation → Attempt → Result (Unit {0}) → M AttemptResetOutcome
  unfolding finish_rejected_reset finish_outcome
  settle_write o a (ok done) =
      finish_outcome o a AttemptResetOperationStatus.applied "reset_applied" "attempt reset applied"
  settle_write o a (err e) =
      if is_reset_conflict e then rejected o "reset_conflict" attempt_reset_conflict else raise e

  -- From the second reading of the clock on.
  unfoldable pub write_reset : AttemptResetOperation → Exam → Attempt → M AttemptResetOutcome
  unfolding settle_write finish_rejected_reset
  write_reset o exam a = do
    write_now ← time_now
    if not (ltb write_now c.deadline)
        then expired o "reset_deadline_expired"
        else (if not (ltb write_now a.due_at)
            then expired o "attempt_deadline_expired"
            else (if not (ltb write_now exam.ends_at) then expired o "exam_window_closed" else (do
              let target = reopened a c.target_generation
              done ← try (reset_attempt target c.expected_status c.expected_generation)
              settle_write o target done)))

  unfoldable pub compare_finished :
      AttemptResetOperation → Time → Exam → Attempt → M AttemptResetOutcome
  unfolding write_reset finish_rejected_reset
  compare_finished o now exam a =
      if not (is_status a.status c.expected_status)
      then rejected o "target_changed" attempt_reset_conflict
      else (if not (ltb now a.due_at)
          then expired o "attempt_deadline_expired"
          else (if not (same_status a.status submitted) && not (same_status a.status auto_submitted)
              then rejected o "status_not_resettable" attempt_reset_not_allowed
              else (if not (eqb c.target_generation (c.expected_generation + 1))
                  then rejected o "generation_invalid" attempt_reset_conflict
                  else write_reset o exam a)))

  abbrev pub is_changed : Attempt → Bool
  is_changed a =
      not (eqb a.reset_generation c.expected_generation)
      || not (eqb a.due_at c.expected_due_at)
      || not (same_time_pointer a.submitted_at c.expected_submitted_at)
      || not (same_time_pointer a.auto_submitted_at c.expected_auto_submitted_at)

  unfoldable pub compare_attempt :
      AttemptResetOperation → Time → Exam → Attempt → M AttemptResetOutcome
  unfolding compare_finished finish_rejected_reset finish_outcome
  compare_attempt o now exam a =
      if is_changed a
      then rejected o "target_changed" attempt_reset_conflict
      else (if is_in_progress a.status
          then (if not (is_status in_progress c.expected_status)
              then rejected o "target_changed" attempt_reset_conflict
              else finish_outcome o a AttemptResetOperationStatus.already_in_progress
                  "already_in_progress" "attempt is already in progress")
          else compare_finished o now exam a)

  abbrev pub is_other_participant : Participant → Bool
  is_other_participant p =
      not (p.exam_id == c.exam_id)
      || not (p.deployment_id == c.deployment_id)
      || not (p.student_id == c.student_id)

  abbrev pub is_other_target : Participant → Attempt → Bool
  is_other_target p a =
      is_other_participant p
      || not (a.participant_id == p.id)
      || not (a.exam_id == c.exam_id)
      || not (a.student_id == c.student_id)
      || not (is_latest_id p.latest_attempt_id a.id)

  unfoldable pub check_attempt :
      AttemptResetOperation → Time → Exam → Participant → Result Attempt → M AttemptResetOutcome
  unfolding compare_attempt finish_rejected_reset
  check_attempt o now exam p (err e) =
      if is_attempt_not_found e then rejected o "attempt_not_found" attempt_not_found else raise e
  check_attempt o now exam p (ok a) =
      if is_other_target p a
      then rejected o "target_conflict" attempt_reset_conflict
      else compare_attempt o now exam a

  unfoldable pub check_participant :
      AttemptResetOperation → Time → Exam → Result Participant → M AttemptResetOutcome
  unfolding check_attempt finish_rejected_reset
  check_participant o now exam (err e) =
      if is_participant_not_found e
      then rejected o "participant_not_found" attempt_reset_conflict
      else raise e
  check_participant o now exam (ok p) = do
    found ← try (find_attempt_by_id c.attempt_id)
    check_attempt o now exam p found

  unfoldable pub check_exam : AttemptResetOperation → Time → Result Exam → M AttemptResetOutcome
  unfolding check_participant finish_rejected_reset
  check_exam o now (err e) =
      if is_exam_not_loaded e then rejected o "exam_not_loaded" attempt_reset_conflict else raise e
  check_exam o now (ok exam) =
      if not (exam.deployment_id == c.deployment_id)
      then rejected o "deployment_mismatch" attempt_reset_conflict
      else (if is_fenced exam.fenced_at
          then rejected o "deployment_fenced" attempt_reset_fenced
          else (if not (ltb now exam.ends_at) then expired o "exam_window_closed" else (do
            found ← try (find_participant_by_id c.participant_id)
            check_participant o now exam found)))

  unfoldable pub apply_begun : Begun → M AttemptResetOutcome
  unfolding check_exam finish_rejected_reset
  apply_begun (answered outcome) = pure outcome
  apply_begun (pending_for o) = do
    now ← time_now
    if not (ltb now c.deadline)
        then expired o "reset_deadline_expired"
        else (do found ← try (find_exam_by_id c.exam_id); check_exam o now found)

  -- The body of the transaction.
  unfoldable pub apply_locked : String → M AttemptResetOutcome
  unfolding apply_begun begin_operation
  apply_locked command_hash = do
    found ← try (find_attempt_reset_operation c.request_id)
    begun ← begin_operation c command_hash found
    apply_begun begun

  abbrev pub apply_valid : Result (Unit {0}) → Result String → M AttemptResetOutcome
  apply_valid (err e) command_hash = raise e
  apply_valid (ok valid) (err e) = raise e
  apply_valid (ok valid) (ok command_hash) = atomic (apply_locked command_hash)

-- The hash of the encoded command is a package function, and may fail.
unfoldable pub apply_reset :
    (AttemptResetCommand → Result String) → AttemptResetCommand → M AttemptResetOutcome
unfolding apply_locked validate_attempt_reset_command
apply_reset attempt_reset_command_hash c =
    apply_valid c (validate_attempt_reset_command c) (attempt_reset_command_hash c)
