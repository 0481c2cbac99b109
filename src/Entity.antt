-- ===== src/Entity.antt =====
-- The domain entities (app/domain/entity/entity.go) and the sentinel errors
-- (app/domain/error/error.go). Times are nanoseconds since Go's zero time, so `IsZero` is `0`.
-- Scores and points are hundredths, as the DECIMAL(8,2) columns hold them; counts, revisions and
-- generations are not negative. A nil pointer is `none`.
use bangkusekolah_exam_node.Base.{ℕ, ◌*◌, ◌-◌, ◌%◌, Bool, true, false, String, Option, List}
use bangkusekolah_exam_node.Json.{Members}

abbrev pub Time : Type 0
Time = ℕ

abbrev pub Score : Type 0
Score = ℕ

-- time.Minute
abbrev pub minute : Time
minute = 60 * 1000000000

-- Truncate(time.Second)
abbrev pub whole_seconds : Time → Time
whole_seconds t = t - t % 1000000000

pub data QuestionType : Type 0 where
  single_choice multiple_choice true_false short_answer essay matching ordering : QuestionType
  other : String → QuestionType

pub data AttemptStatus : Type 0 where
  in_progress submitted auto_submitted graded : AttemptStatus

pub data GradingStatus : Type 0 where
  pending auto_graded manual_required : GradingStatus

pub data AttemptResetOperationStatus : Type 0 where
  pending applied rejected expired already_in_progress : AttemptResetOperationStatus

pub record Exam : Type 0 where
  pub id : String
  pub deployment_id : String
  pub title : String
  pub instruction : Option String
  pub starts_at : Time
  pub ends_at : Time
  pub duration_minutes : ℕ
  pub max_attempts : ℕ
  pub shuffle_questions : Bool
  pub shuffle_options : Bool
  pub show_result_immediately : Bool
  pub passing_score : Option Score
  pub result_selection_policy : String
  pub max_score : Score
  pub has_manual_items : Bool
  pub access_code_prefix : String
  pub bundle_checksum : String
  pub content_hash : String
  pub roster_revision : ℕ
  pub fenced_at : Option Time
  pub loaded_at : Time

pub record RubricCriterion : Type 0 where
  pub id : String
  pub title : String
  pub max_points : Score
  pub sort_order : ℕ

pub record Item : Type 0 where
  pub id : String
  pub exam_id : String
  pub section_id : String
  pub section_title : String
  pub section_sort_order : ℕ
  pub sort_order : ℕ
  pub question_type : QuestionType
  pub prompt_snapshot : String
  pub options_snapshot_json : List Members
  pub answer_key_snapshot_json : Members
  pub rubric_criteria : List RubricCriterion
  pub points : Score
  pub requires_manual_grading : Bool

pub record Participant : Type 0 where
  pub id : String
  pub exam_id : String
  pub deployment_id : String
  pub student_id : String
  pub student_name : String
  pub access_code : String
  pub roster_revision : ℕ
  pub attempt_count : ℕ
  pub latest_attempt_id : Option String

pub record Attempt : Type 0 where
  pub id : String
  pub participant_id : String
  pub student_id : String
  pub exam_id : String
  pub device_id : String
  pub attempt_no : ℕ
  pub status : AttemptStatus
  pub started_at : Time
  pub due_at : Time
  pub submitted_at : Option Time
  pub auto_submitted_at : Option Time
  pub score : Option Score
  pub max_score : Score
  pub grading_status : GradingStatus
  pub reset_generation : ℕ
  pub harvested_at : Option Time

abbrev pub is_in_progress : AttemptStatus → Bool
is_in_progress AttemptStatus.in_progress = true
is_in_progress _ = false

abbrev pub finished_status : AttemptStatus → Bool
finished_status AttemptStatus.submitted = true
finished_status AttemptStatus.auto_submitted = true
finished_status AttemptStatus.graded = true
finished_status AttemptStatus.in_progress = false

abbrev pub is_finished : Attempt → Bool
is_finished a = finished_status a.status

abbrev pub is_manual_required : GradingStatus → Bool
is_manual_required GradingStatus.manual_required = true
is_manual_required _ = false

pub record AttemptResetOperation : Type 0 where
  pub request_id : String
  pub operation : String
  pub command_hash : String
  pub status : AttemptResetOperationStatus
  pub code : String
  pub message : String
  pub node_id : String
  pub deployment_id : String
  pub exam_id : String
  pub student_id : String
  pub participant_id : String
  pub attempt_id : String
  pub expected_generation : ℕ
  pub target_generation : ℕ
  pub expected_status : Option AttemptStatus
  pub expected_due_at : Time
  pub expected_submitted_at : Option Time
  pub expected_auto_submitted_at : Option Time
  pub deadline : Time
  pub attempt_no : ℕ
  pub attempt_status : Option AttemptStatus
  pub started_at : Time
  pub due_at : Time
  pub submitted_at : Option Time
  pub auto_submitted_at : Option Time
  pub created_at : Time
  pub updated_at : Time

pub record Answer : Type 0 where
  pub id : String
  pub attempt_id : String
  pub item_id : String
  pub answer_json : Members
  pub answer_text : Option String
  pub score : Option Score
  pub max_score : Score
  pub grading_status : GradingStatus
  pub last_saved_at : Time
  pub client_seq : ℕ

pub record IntegrityEvent : Type 0 where
  pub id : String
  pub attempt_id : String
  pub student_id : String
  pub event_type : String
  pub description : Option String
  pub metadata_json : Members
  pub created_at : Time

-- entity.RosterEventStatus, and the text of an event's status that is none of them.
pub data RosterEventStatus : Type 0 where
  pending applied rejected expired cancelled : RosterEventStatus
  other : String → RosterEventStatus

pub record RosterEventReceipt : Type 0 where
  pub event_id : String
  pub deployment_id : String
  pub exam_id : String
  pub revision : ℕ
  pub participant_id : String
  pub payload_hash : String
  pub status : RosterEventStatus
  pub outcome_code : String
  pub created_at : Time
  pub updated_at : Time

-- The sentinel errors, and what the database reports itself. The last ones are the errors that the
-- harvest makes of a message; they hold what the message says.
pub data Err : Type 0 where
  unauthorized forbidden invalid_access_code too_many_attempts exam_not_loaded : Err
  exam_content_not_ready exam_not_open max_attempts_reached attempt_not_found : Err
  attempt_expired attempt_locked attempt_device_mismatch attempt_device_id_invalid : Err
  stale_answer_write item_not_found participant_not_found result_not_available : Err
  attempt_reset_operation_not_found attempt_reset_conflict attempt_reset_not_allowed : Err
  attempt_reset_expired attempt_reset_fenced integrity_flood : Err
  bundle_checksum bundle_file_upload bundle_roster_immutable preflight_failed : Err
  roster_receipt_not_found roster_payload_conflict roster_revision_gap : Err
  roster_deployment_mismatch roster_exam_fenced roster_expired roster_code_conflict : Err
  roster_invalid : Err
  repository_unavailable duplicate_key : Err
  field_required : String → Err
  push_failed central_rejected exam_without_deployment : String → Err
  nil_acknowledgement : Err
  unresolved_deployment : String → String → Err → Err
  attempt_without_deployment : String → String → Err
  ack_mismatch : ℕ → ℕ → Err
  final_rejected : ℕ → Err
  deployment_not_drained : String → Err → Err
  sweep_before_harvest : ℕ → String → Err → Err
