-- ===== src/Reset/Operation.antt =====
-- The stored operation of a command to reset, which makes it safe to send the command again
-- (app/service/attempt_reset_service.go).
use bangkusekolah_exam_node.Base.{
  Bool, true, false, ◌&&◌, ◌||◌, not, String, ◌==◌, Option, none, some, if◌then◌else◌, eqb,
}
use bangkusekolah_exam_node.Entity.{
  Time, AttemptStatus, AttemptResetOperation, AttemptResetOperationStatus, Err,
  attempt_reset_conflict, attempt_reset_not_allowed, attempt_reset_expired, attempt_reset_fenced,
  attempt_not_found, attempt_reset_operation_not_found,
}
use bangkusekolah_exam_node.Exec.{M, Result, ok, err, pure, raise, ◌>>=◌, ◌>>◌, time_now}
use bangkusekolah_exam_node.Repository.Resets.{
  same_status, create_attempt_reset_operation, update_attempt_reset_operation,
}
use bangkusekolah_exam_node.Reset.{AttemptResetCommand, AttemptResetOutcome}

abbrev pub new_attempt_reset_operation : AttemptResetCommand → String → Time → AttemptResetOperation
new_attempt_reset_operation c command_hash now = record {
  request_id = c.request_id;
  operation = c.operation;
  command_hash = command_hash;
  status = AttemptResetOperationStatus.pending;
  code = "";
  message = "";
  node_id = c.node_id;
  deployment_id = c.deployment_id;
  exam_id = c.exam_id;
  student_id = c.student_id;
  participant_id = c.participant_id;
  attempt_id = c.attempt_id;
  expected_generation = c.expected_generation;
  target_generation = c.target_generation;
  expected_status = c.expected_status;
  expected_due_at = c.expected_due_at;
  expected_submitted_at = c.expected_submitted_at;
  expected_auto_submitted_at = c.expected_auto_submitted_at;
  deadline = c.deadline;
  attempt_no = 0;
  attempt_status = none;
  started_at = 0;
  due_at = 0;
  submitted_at = none;
  auto_submitted_at = none;
  created_at = now;
  updated_at = now;
}

abbrev pub same_time_pointer : Option Time → Option Time → Bool
same_time_pointer none none = true
same_time_pointer (some s) (some t) = eqb s t
same_time_pointer _ _ = false

abbrev pub same_expected : Option AttemptStatus → Option AttemptStatus → Bool
same_expected none none = true
same_expected (some s) (some t) = same_status s t
same_expected _ _ = false

unfoldable pub same_reset_command : AttemptResetOperation → AttemptResetCommand → Bool
same_reset_command o c =
    (o.request_id == c.request_id
      && o.operation == c.operation
      && o.node_id == c.node_id
      && o.deployment_id == c.deployment_id
      && o.exam_id == c.exam_id
      && o.student_id == c.student_id
      && o.participant_id == c.participant_id
      && eqb o.expected_generation c.expected_generation
      && same_expected o.expected_status c.expected_status
      && eqb o.expected_due_at c.expected_due_at
      && same_time_pointer o.expected_submitted_at c.expected_submitted_at
      && same_time_pointer o.expected_auto_submitted_at c.expected_auto_submitted_at
      && eqb o.deadline c.deadline)
    && (if o.operation == "preview"
        then c.attempt_id == ""
        else (o.attempt_id == c.attempt_id && eqb o.target_generation c.target_generation))

abbrev pub is_pending : AttemptResetOperationStatus → Bool
is_pending AttemptResetOperationStatus.pending = true
is_pending _ = false

abbrev pub is_already_in_progress : AttemptResetOperationStatus → Bool
is_already_in_progress AttemptResetOperationStatus.already_in_progress = true
is_already_in_progress _ = false

unfoldable pub attempt_reset_operation_outcome : AttemptResetOperation → AttemptResetOutcome
attempt_reset_operation_outcome o = record {
  request_id = o.request_id;
  operation = o.operation;
  status = o.status;
  code = o.code;
  message = o.message;
  node_id = o.node_id;
  deployment_id = o.deployment_id;
  exam_id = o.exam_id;
  student_id = o.student_id;
  participant_id = o.participant_id;
  attempt_id = o.attempt_id;
  attempt_no = o.attempt_no;
  reset_generation =
      if is_already_in_progress o.status then o.expected_generation else o.target_generation;
  attempt_status = o.attempt_status;
  started_at = o.started_at;
  due_at = o.due_at;
  submitted_at = o.submitted_at;
  auto_submitted_at = o.auto_submitted_at;
}

-- Error() of the errors that a rejection carries.
abbrev pub error_text : Err → String
error_text attempt_reset_expired = "exam attempt reset command has expired"
error_text attempt_reset_conflict = "exam attempt reset command conflicts with current state"
error_text attempt_reset_fenced = "exam deployment is fenced"
error_text attempt_not_found = "exam attempt not found"
error_text attempt_reset_not_allowed = "exam attempt cannot be reset"
error_text _ = ""

-- finishRejectedReset
unfoldable pub finish_rejected_reset :
    AttemptResetOperation → AttemptResetOperationStatus → String → Err → M AttemptResetOutcome
unfolding attempt_reset_operation_outcome
finish_rejected_reset o status code e = do
  now ← time_now
  let rejected = record o { status = status; code = code; message = error_text e; updated_at = now }
  update_attempt_reset_operation rejected
  pure (attempt_reset_operation_outcome rejected)

abbrev pub is_operation_not_found : Err → Bool
is_operation_not_found attempt_reset_operation_not_found = true
is_operation_not_found _ = false

-- A request that was handled before is answered from its operation; else the operation is pending.
pub data Begun : Type 0 where
  answered : AttemptResetOutcome → Begun
  pending_for : AttemptResetOperation → Begun

unfoldable pub begin_operation :
    AttemptResetCommand → String → Result AttemptResetOperation → M Begun
unfolding same_reset_command attempt_reset_operation_outcome
begin_operation c command_hash (err e) =
    if is_operation_not_found e
    then (do
      now ← time_now
      let o = new_attempt_reset_operation c command_hash now
      create_attempt_reset_operation o
      pure (pending_for o))
    else raise e
begin_operation c command_hash (ok o) =
    if not (o.command_hash == command_hash) || not (same_reset_command o c)
    then raise attempt_reset_conflict
    else pure (
        if is_pending o.status then pending_for o else answered (attempt_reset_operation_outcome o))
