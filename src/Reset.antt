-- ===== src/Reset.antt =====
-- Resetting an attempt on Central's command (app/service/attempt_reset_service.go, and the types of
-- app/port/inbound/attempt_reset_usecase.go). An empty status text is `none`.
pub mod Operation
pub mod Apply
pub mod Preview
pub mod Never
pub mod Handled
pub mod Replay
use bangkusekolah_exam_node.Base.{
  ℕ, ◌+◌, Bool, true, false, ◌&&◌, ◌||◌, not, String, ◌==◌, Option, none, some, List, [], ◌∷◌,
  if◌then◌else◌, eqb, trim_space,
}
use bangkusekolah_exam_node.Entity.{
  Time, Attempt, AttemptStatus, AttemptResetOperation, AttemptResetOperationStatus, in_progress,
  submitted, auto_submitted, Err, attempt_reset_conflict, attempt_reset_not_allowed,
  attempt_reset_expired, attempt_reset_fenced, attempt_not_found, attempt_reset_operation_not_found,
  field_required,
}
use bangkusekolah_exam_node.Exec.{M, Result, ok, err, pure, raise, ◌>>=◌, ◌>>◌, time_now}
use bangkusekolah_exam_node.Repository.Resets.{
  same_status, is_status, create_attempt_reset_operation, update_attempt_reset_operation,
}

pub record AttemptResetCommand : Type 0 where
  pub request_id : String
  pub operation : String
  pub node_id : String
  pub deployment_id : String
  pub exam_id : String
  pub student_id : String
  pub participant_id : String
  pub attempt_id : String
  pub expected_generation : ℕ
  pub expected_status : Option AttemptStatus
  pub expected_due_at : Time
  pub expected_submitted_at : Option Time
  pub expected_auto_submitted_at : Option Time
  pub target_generation : ℕ
  pub deadline : Time

pub record AttemptResetOutcome : Type 0 where
  pub request_id : String
  pub operation : String
  pub status : AttemptResetOperationStatus
  pub code : String
  pub message : String
  pub node_id : String
  pub deployment_id : String
  pub exam_id : String
  pub student_id : String
  pub participant_id : String
  pub attempt_id : String
  pub attempt_no : ℕ
  pub reset_generation : ℕ
  pub attempt_status : Option AttemptStatus
  pub started_at : Time
  pub due_at : Time
  pub submitted_at : Option Time
  pub auto_submitted_at : Option Time

-- The fields that may not be blank. The source looks at them in the order of a Go map, which is
-- any order, so which of several blank fields the error names is not said.
unfoldable pub first_blank : List (String × String) → Option String
first_blank [] = none
first_blank ((field, value) ∷ rest) =
    let later = first_blank rest in if trim_space value == "" then some field else later

abbrev pub preview_fields : AttemptResetCommand → List (String × String)
preview_fields c =
    ("request_id", c.request_id)
    ∷ ("node_id", c.node_id)
    ∷ ("deployment_id", c.deployment_id)
    ∷ ("exam_id", c.exam_id)
    ∷ ("student_id", c.student_id)
    ∷ ("participant_id", c.participant_id)
    ∷ []

abbrev pub reset_fields : AttemptResetCommand → List (String × String)
reset_fields c = ("attempt_id", c.attempt_id) ∷ preview_fields c

abbrev pub filled : Option String → Result (Unit {0}) → Result (Unit {0})
filled (some field) rest = err (field_required field)
filled none rest = rest

-- validateAttemptResetCommand
unfoldable pub validate_attempt_reset_command : AttemptResetCommand → Result (Unit {0})
unfolding first_blank
validate_attempt_reset_command c =
    if not (c.operation == "reset")
    then err attempt_reset_conflict
    else filled (first_blank (reset_fields c)) (
        if eqb c.expected_due_at 0
        then err (field_required "expected_due_at")
        else (if eqb c.deadline 0
            then err (field_required "deadline")
            else (if not (eqb c.target_generation (c.expected_generation + 1))
                then err attempt_reset_conflict
                else (if not (is_status submitted c.expected_status)
                      && not (is_status auto_submitted c.expected_status)
                      && not (is_status in_progress c.expected_status)
                    then err attempt_reset_not_allowed
                    else ok tt))))

-- validateAttemptResetPreviewCommand
unfoldable pub validate_attempt_reset_preview_command : AttemptResetCommand → Result (Unit {0})
unfolding first_blank
validate_attempt_reset_preview_command c =
    if not (c.operation == "preview")
    then err attempt_reset_conflict
    else filled (first_blank (preview_fields c))
        (if eqb c.deadline 0 then err (field_required "deadline") else ok tt)
