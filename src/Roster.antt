-- ===== src/Roster.antt =====
-- Applying an event of the roster (app/service/roster_service.go; the event and the outcome are
-- those of app/port/inbound/roster_usecase.go). Hashing a payload and hashing the content of an
-- exam are parameters. LockExam, which keeps two events of one exam apart, is not modelled.
pub mod Receipts
pub mod Advance
pub mod Branches
pub mod Covered
pub mod Once
pub mod Worker
pub mod Replay
use bangkusekolah_exam_node.Base.{
  ℕ, ◌+◌, Bool, true, false, ◌&&◌, ◌||◌, not, String, ◌==◌, Option, none, some, List, if◌then◌else◌,
  eqb, ltb,
}
use bangkusekolah_exam_node.Entity.{
  Time, Exam, Participant, RosterEventReceipt, RosterEventStatus, Err, roster_receipt_not_found,
  roster_payload_conflict, roster_revision_gap, roster_deployment_mismatch, roster_exam_fenced,
  roster_expired, roster_code_conflict, roster_invalid,
}
use bangkusekolah_exam_node.Exec.{
  M, Result, ok, err, pure, raise, ◌>>=◌, ◌>>◌, try, atomic, time_now,
}
use bangkusekolah_exam_node.Repository.{find_exam_by_id}
use bangkusekolah_exam_node.Repository.Roster.{
  Enrolment, find_receipt, insert_receipt, insert_participant_if_absent, update_exam_roster_state,
  list_participants_by_exam,
}
use bangkusekolah_exam_node.Content.Rebuild.{list_items_by_exam_id}
use bangkusekolah_exam_node.ContentHash.{ContentHashView, content_hash}

pub record RosterEvent : Type 0 where
  pub event_id : String
  pub deployment_id : String
  pub exam_id : String
  pub participant_id : String
  pub student_id : String
  pub student_name : String
  pub access_code : String
  pub revision : ℕ
  pub deadline : Time
  pub created_at : Time
  pub status : RosterEventStatus
  pub outcome_code : String

pub record RosterOutcome : Type 0 where
  pub event_id : String
  pub deployment_id : String
  pub revision : ℕ
  pub status : String
  pub code : String

-- What the hash of a payload covers: neither the status nor the code.
pub record PayloadView : Type 0 where
  pub event_id : String
  pub deployment_id : String
  pub exam_id : String
  pub participant_id : String
  pub student_id : String
  pub student_name : String
  pub access_code : String
  pub revision : ℕ
  pub deadline : Time
  pub created_at : Time

abbrev pub payload_view : RosterEvent → PayloadView
payload_view e = record {
  event_id = e.event_id;
  deployment_id = e.deployment_id;
  exam_id = e.exam_id;
  participant_id = e.participant_id;
  student_id = e.student_id;
  student_name = e.student_name;
  access_code = e.access_code;
  revision = e.revision;
  deadline = e.deadline;
  created_at = e.created_at;
}

-- SHA-256 of the JSON of a payload, and of the content of an exam.
pub record Hashes : Type 0 where
  pub payload : PayloadView → String
  pub content : ContentHashView → String

abbrev pub roster_payload_hash : Hashes → RosterEvent → String
roster_payload_hash hashes e = hashes.payload (payload_view e)

abbrev pub is_known_status : RosterEventStatus → Bool
is_known_status (RosterEventStatus.other text) = false
is_known_status _ = true

unfoldable pub validate_roster_event : RosterEvent → Result (Unit {0})
validate_roster_event e =
    if e.event_id == ""
      || e.deployment_id == ""
      || e.exam_id == ""
      || e.participant_id == ""
      || e.student_id == ""
      || e.access_code == ""
      || ltb e.revision 1
      || eqb e.deadline 0
    then err roster_invalid
    else if is_known_status e.status
    then ok tt
    else err roster_invalid

abbrev pub roster_outcome_status : RosterEventStatus → String
roster_outcome_status RosterEventStatus.applied = "applied"
roster_outcome_status _ = "rejected"

abbrev pub roster_outcome_from_receipt : RosterEventReceipt → RosterOutcome
roster_outcome_from_receipt r = record {
  event_id = r.event_id;
  deployment_id = r.deployment_id;
  revision = r.revision;
  status = roster_outcome_status r.status;
  code = r.outcome_code;
}

abbrev pub roster_error_text : Err → String
roster_error_text roster_deployment_mismatch = "roster event belongs to another deployment"
roster_error_text roster_exam_fenced = "exam deployment is fenced"
roster_error_text roster_expired = "roster event has expired"
roster_error_text roster_code_conflict = "roster access code conflicts with an existing participant"
roster_error_text _ = ""

abbrev pub receipt_of :
    RosterEvent → String → RosterEventStatus → String → Time → RosterEventReceipt
receipt_of e payload_hash status code now = record {
  event_id = e.event_id;
  deployment_id = e.deployment_id;
  exam_id = e.exam_id;
  revision = e.revision;
  participant_id = e.participant_id;
  payload_hash = payload_hash;
  status = status;
  outcome_code = code;
  created_at = now;
  updated_at = now;
}

abbrev pub rejected_status : RosterEventStatus → RosterEventStatus
rejected_status RosterEventStatus.cancelled = RosterEventStatus.cancelled
rejected_status RosterEventStatus.expired = RosterEventStatus.expired
rejected_status _ = RosterEventStatus.rejected

unfoldable pub reject_event : RosterEvent → String → String → M RosterOutcome
reject_event e payload_hash code = do
  now ← time_now
  insert_receipt (receipt_of e payload_hash (rejected_status e.status) code now)
  pure (roster_outcome_from_receipt (receipt_of e payload_hash (rejected_status e.status) code now))

-- A rejection that uses up the revision.
unfoldable pub reject_and_advance : RosterEvent → String → String → Exam → M RosterOutcome
unfolding reject_event
reject_and_advance e payload_hash code exam =
    update_exam_roster_state exam.id e.revision exam.content_hash
    >> reject_event e payload_hash code

-- What Central settled already.
abbrev pub is_settled : RosterEventStatus → Bool
is_settled RosterEventStatus.cancelled = true
is_settled RosterEventStatus.rejected = true
is_settled RosterEventStatus.expired = true
is_settled _ = false

abbrev pub settled_text : RosterEventStatus → String
settled_text RosterEventStatus.pending = "pending"
settled_text RosterEventStatus.applied = "applied"
settled_text RosterEventStatus.rejected = "rejected"
settled_text RosterEventStatus.expired = "expired"
settled_text RosterEventStatus.cancelled = "cancelled"
settled_text (RosterEventStatus.other text) = text

abbrev pub settled_code : RosterEvent → String
settled_code e = if e.outcome_code == "" then settled_text e.status else e.outcome_code

abbrev pub is_pending : RosterEventStatus → Bool
is_pending RosterEventStatus.pending = true
is_pending _ = false

abbrev pub is_applied : RosterEventStatus → Bool
is_applied RosterEventStatus.applied = true
is_applied _ = false

abbrev pub is_fenced : Option Time → Bool
is_fenced none = false
is_fenced (some t) = true

abbrev pub roster_participant : RosterEvent → Participant
roster_participant e = record {
  id = e.participant_id;
  exam_id = e.exam_id;
  deployment_id = "";
  student_id = e.student_id;
  student_name = e.student_name;
  access_code = e.access_code;
  roster_revision = e.revision;
  attempt_count = 0;
  latest_attempt_id = none;
}

-- The content hash is taken anew, the revision goes up, and the receipt says applied.
unfoldable pub admit : Hashes → RosterEvent → Time → Exam → M RosterOutcome
admit hashes e now exam = do
  items ← list_items_by_exam_id e.exam_id
  participants ← list_participants_by_exam e.exam_id
  update_exam_roster_state exam.id e.revision (content_hash hashes.content items participants exam)
  insert_receipt (receipt_of e (roster_payload_hash hashes e) RosterEventStatus.applied "" now)
  pure (record {
    event_id = e.event_id;
    deployment_id = e.deployment_id;
    revision = e.revision;
    status = "applied";
    code = "";
  })

abbrev pub is_other_identity : RosterEvent → Participant → Bool
is_other_identity e p =
    not (p.id == e.participant_id)
    || not (p.student_id == e.student_id)
    || not (p.access_code == e.access_code)
    || not (p.student_name == e.student_name)

abbrev pub is_code_conflict : Err → Bool
is_code_conflict roster_code_conflict = true
is_code_conflict _ = false

unfoldable pub admit_enrolled :
    Hashes → RosterEvent → Time → Exam → Result Enrolment → M RosterOutcome
unfolding admit
admit_enrolled hashes e now exam (err x) =
    if is_code_conflict x
    then reject_and_advance e (roster_payload_hash hashes e)
        (roster_error_text roster_code_conflict) exam
    else raise x
admit_enrolled hashes e now exam (ok (existing, inserted)) =
    if not inserted && is_other_identity e existing
    then reject_and_advance e (roster_payload_hash hashes e) "participant_identity_conflict" exam
    else admit hashes e now exam

unfoldable pub enrol : Hashes → RosterEvent → Time → Exam → M RosterOutcome
unfolding admit_enrolled
enrol hashes e now exam = try (insert_participant_if_absent (roster_participant e)) >>= λ r.
    admit_enrolled hashes e now exam r

unfoldable pub apply_open : Hashes → RosterEvent → Exam → Time → M RosterOutcome
unfolding enrol reject_and_advance
apply_open hashes e exam now =
    if is_pending e.status && is_fenced exam.fenced_at
    then reject_and_advance e (roster_payload_hash hashes e) (roster_error_text roster_exam_fenced)
        exam
    else if is_pending e.status && (not (ltb now e.deadline) || not (ltb now exam.ends_at))
    then reject_and_advance e (roster_payload_hash hashes e) (roster_error_text roster_expired) exam
    else if is_pending e.status || is_applied e.status
    then enrol hashes e now exam
    else raise roster_invalid

unfoldable pub apply_new : Hashes → RosterEvent → Exam → M RosterOutcome
unfolding apply_open
apply_new hashes e exam =
    if not (e.deployment_id == exam.deployment_id)
    then reject_event e (roster_payload_hash hashes e)
        (roster_error_text roster_deployment_mismatch)
    else if not (eqb e.revision (exam.roster_revision + 1))
    then raise roster_revision_gap
    else if is_settled e.status
    then reject_and_advance e (roster_payload_hash hashes e) (settled_code e) exam
    else (time_now >>= λ now. apply_open hashes e exam now)

abbrev pub is_receipt_not_found : Err → Bool
is_receipt_not_found roster_receipt_not_found = true
is_receipt_not_found _ = false

-- An event that was handled before is answered from its receipt.
unfoldable pub apply_once :
    Hashes → RosterEvent → Exam → Result RosterEventReceipt → M RosterOutcome
unfolding apply_new
apply_once hashes e exam (ok receipt) =
    if receipt.payload_hash == roster_payload_hash hashes e
    then pure (roster_outcome_from_receipt receipt)
    else raise roster_payload_conflict
apply_once hashes e exam (err x) =
    if is_receipt_not_found x then apply_new hashes e exam else raise x

unfoldable pub apply_locked : Hashes → RosterEvent → M RosterOutcome
unfolding apply_once
apply_locked hashes e = do
  exam ← find_exam_by_id e.exam_id
  r ← try (find_receipt e.event_id)
  apply_once hashes e exam r

abbrev pub apply_valid : Hashes → RosterEvent → Result (Unit {0}) → M RosterOutcome
apply_valid hashes e (err x) = raise x
apply_valid hashes e (ok u) = atomic (apply_locked hashes e)

-- RosterService.Apply, with the transactions that main gives it
unfoldable pub apply : Hashes → RosterEvent → M RosterOutcome
unfolding apply_locked validate_roster_event
apply hashes e = apply_valid hashes e (validate_roster_event e)
