-- ===== src/Examples/Resets.antt =====
-- A command of Central that would reopen the submitted attempt.
use bangkusekolah_exam_node.Base.{◌≡◌, String, none, some}
use bangkusekolah_exam_node.Entity.{
  AttemptStatus, AttemptResetOperation, AttemptResetOperationStatus,
}
use bangkusekolah_exam_node.Exec.{Result, ok}
use bangkusekolah_exam_node.Reset.{AttemptResetCommand}
use bangkusekolah_exam_node.Reset.Operation.{new_attempt_reset_operation}
use bangkusekolah_exam_node.Reset.Apply.{apply_reset}
use bangkusekolah_exam_node.Reset.Never.{apply_reset-changes_no_attempt}
use bangkusekolah_exam_node.Examples.{over, world_of}

abbrev reopen : AttemptResetCommand
reopen = record {
  request_id = "r1";
  operation = "reset";
  node_id = "n";
  deployment_id = "dep";
  exam_id = "math";
  student_id = "s1";
  participant_id = "ani";
  attempt_id = "first";
  expected_generation = 0;
  expected_status = some AttemptStatus.submitted;
  expected_due_at = 900;
  expected_submitted_at = none;
  expected_auto_submitted_at = none;
  target_generation = 1;
  deadline = 800;
}

abbrev by_request : AttemptResetCommand → Result String
by_request c = ok c.request_id

apply_reset-changes_no_attempt_example :
    (apply_reset by_request reopen (world_of over)).1.db.attempts ≡ over.attempts
apply_reset-changes_no_attempt_example =
    apply_reset-changes_no_attempt by_request reopen (world_of over)

-- What the command is answered with, as it is stored.
abbrev handled : AttemptResetOperation
handled = record (new_attempt_reset_operation reopen "r1" 200) {
  status = AttemptResetOperationStatus.rejected;
  code = "target_conflict";
  message = "exam attempt reset command conflicts with current state";
}
