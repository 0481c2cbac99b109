-- ===== src/Attempt.antt =====
-- Taking an exam (app/service/attempt_service.go): start, state, autosave, submit, result.
-- The repository is the node's own, which can bind devices.
pub mod Create
pub mod Resume
pub mod Kept
pub mod Guards
pub mod Submit
pub mod State
pub mod Return
pub mod Open
use Prim.Native.Nat.{min}
use bangkusekolah_exam_node.Base.{
  ℕ, ◌+◌, ◌*◌, Bool, true, false, ◌&&◌, ◌||◌, not, String, ◌==◌, Option, none, some, List,
  if◌then◌else◌, ltb, leb, trim_space, byte_len,
}
use bangkusekolah_exam_node.Json.{Members}
use bangkusekolah_exam_node.Entity.{
  Time, minute, Exam, Item, Participant, Attempt, AttemptStatus, GradingStatus, Answer,
  is_in_progress, finished_status, is_finished, Err, attempt_not_found, attempt_device_id_invalid,
  attempt_device_mismatch, attempt_locked, attempt_expired, exam_not_open, forbidden,
  max_attempts_reached, result_not_available,
}
use bangkusekolah_exam_node.Exec.{
  M, Result, ok, err, pure, raise, ◌>>=◌, ◌>>◌, guard, try, atomic, time_now, new_id,
}
use bangkusekolah_exam_node.Repository.{
  find_exam_by_id, find_participant_by_id, find_active_attempt_by_participant_and_exam,
  find_attempt_by_id, list_answers_by_attempt, find_item_by_id, create_attempt, update_participant,
  bind_attempt_device, find_latest_attempt_by_participant_and_exam,
}
use bangkusekolah_exam_node.Repository.Answers.{upsert_answer}
use bangkusekolah_exam_node.Grading.{grade_objective_answer}
use bangkusekolah_exam_node.Finalizer.{finalize_attempt, finalize_attempt_locked}

abbrev pub is_attempt_not_found : Err → Bool
is_attempt_not_found attempt_not_found = true
is_attempt_not_found _ = false

-- An active attempt belongs to one device; one that is bound to none is claimed.
unfoldable pub claim_free : String → Attempt → M Attempt
claim_free device active =
    if active.device_id == "" && not (device == "")
    then (do bind_attempt_device active.id device; pure (record active { device_id = device }))
    else pure active

unfoldable pub claim_device : String → Attempt → M Attempt
unfolding claim_free
claim_device device active =
    if not (active.device_id == "") && not (active.device_id == device)
    then raise attempt_device_mismatch
    else claim_free device active

unfoldable pub expired_or : Time → Attempt → M (Option Attempt) → M (Option Attempt)
expired_or now active expire = if ltb active.due_at now then expire else pure (some active)

-- What the lookup of the active attempt leads to: an attempt to return, or none.
unfoldable pub resume_active : Time → String → Result Attempt → M (Option Attempt)
unfolding claim_device expired_or
resume_active now device (err e) = if is_attempt_not_found e then pure none else raise e
resume_active now device (ok found) = do
  active ← claim_device device found
  expired_or now active (do done ← finalize_attempt active.id true; pure none)

unfoldable pub found_or_none : Result Attempt → M (Option Attempt)
found_or_none (ok a) = pure (some a)
found_or_none (err e) = if is_attempt_not_found e then pure none else raise e

-- The same inside of the transaction, where the attempt is looked up again after it is finalized.
unfoldable pub resume_locked : Time → String → String → String → Result Attempt → M (Option Attempt)
unfolding claim_device expired_or found_or_none
resume_locked now device pid eid (err e) = if is_attempt_not_found e then pure none else raise e
resume_locked now device pid eid (ok found) = do
  active ← claim_device device found
  expired_or now active (do
    done ← finalize_attempt_locked active.id true
    again ← try (find_active_attempt_by_participant_and_exam pid eid)
    found_or_none again)

unfoldable pub due_time : Exam → Time → Time
due_time exam now = min (now + exam.duration_minutes * minute) exam.ends_at

unfoldable pub new_attempt : Exam → Time → String → String → Participant → String → Attempt
unfolding due_time
new_attempt exam now device pid locked id = record {
  id = id;
  participant_id = pid;
  student_id = locked.student_id;
  exam_id = exam.id;
  device_id = device;
  attempt_no = locked.attempt_count + 1;
  status = AttemptStatus.in_progress;
  started_at = now;
  due_at = due_time exam now;
  submitted_at = none;
  auto_submitted_at = none;
  score = none;
  max_score = exam.max_score;
  grading_status = GradingStatus.pending;
  reset_generation = 0;
  harvested_at = none;
}

unfoldable pub create_next : Exam → Time → String → String → Participant → M Attempt
unfolding new_attempt
create_next exam now device pid locked = do
  guard (ltb locked.attempt_count exam.max_attempts) max_attempts_reached
  id ← new_id
  let attempt = new_attempt exam now device pid locked id
  create_attempt attempt
  update_participant
      (record locked { attempt_count = locked.attempt_count + 1; latest_attempt_id = some id })
  pure attempt

unfoldable pub return_or_create :
    Exam → Time → String → String → Participant → Option Attempt → M Attempt
unfolding create_next
return_or_create exam now device pid locked (some active) = pure active
return_or_create exam now device pid locked none = create_next exam now device pid locked

-- The body of the transaction.
unfoldable pub open_attempt : Exam → Time → String → String → String → M Attempt
unfolding resume_locked return_or_create
open_attempt exam now device pid eid = do
  locked ← find_participant_by_id pid
  guard (locked.exam_id == eid) forbidden
  found ← try (find_active_attempt_by_participant_and_exam pid eid)
  resumed ← resume_locked now device pid eid found
  return_or_create exam now device pid locked resumed

unfoldable pub return_or_open :
    Exam → Time → String → String → String → Participant → Option Attempt → M Attempt
unfolding open_attempt
return_or_open exam now device pid eid participant (some active) = pure active
return_or_open exam now device pid eid participant none = do
  guard (ltb participant.attempt_count exam.max_attempts) max_attempts_reached
  atomic (open_attempt exam now device pid eid)

unfoldable pub start_attempt : String → String → String → M Attempt
unfolding resume_active return_or_open
start_attempt pid eid raw = do
  let device = trim_space raw
  guard (leb (byte_len device) 128) attempt_device_id_invalid
  exam ← find_exam_by_id eid
  now ← time_now
  guard (not (ltb now exam.starts_at || ltb exam.ends_at now)) exam_not_open
  participant ← find_participant_by_id pid
  guard (participant.exam_id == eid) forbidden
  found ← try (find_active_attempt_by_participant_and_exam pid eid)
  resumed ← resume_active now device found
  return_or_open exam now device pid eid participant resumed

unfoldable pub start_attempt_with_device : String → String → String → M Attempt
unfolding start_attempt
start_attempt_with_device pid eid raw = do
  guard (not (trim_space raw == "")) attempt_device_id_invalid
  start_attempt pid eid raw

pub record AttemptState : Type 0 where
  pub attempt : Attempt
  pub answers : List Answer
  pub server_time : Time

unfoldable pub refresh : Time → Attempt → M Attempt
refresh now attempt =
    if is_in_progress attempt.status && ltb attempt.due_at now
    then (do done ← finalize_attempt attempt.id true; pure done.0)
    else pure attempt

unfoldable pub get_attempt_state : String → String → M AttemptState
unfolding refresh
get_attempt_state pid attempt_id = do
  attempt ← find_attempt_by_id attempt_id
  guard (attempt.participant_id == pid) forbidden
  now ← time_now
  current ← refresh now attempt
  answers ← list_answers_by_attempt attempt_id
  pure (record { attempt = current; answers = answers; server_time = now })

unfoldable pub graded_answer :
    Item → Members → Option String → String → String → String → Time → ℕ → Answer
graded_answer item json answer_text id attempt_id item_id now seq =
    let (points, graded) = grade_objective_answer item (some json) in
    record {
      id = id;
      attempt_id = attempt_id;
      item_id = item_id;
      answer_json = json;
      answer_text = answer_text;
      score = if graded then some points else none;
      max_score = item.points;
      grading_status =
          if graded
          then GradingStatus.auto_graded
          else (if item.requires_manual_grading
              then GradingStatus.manual_required
              else GradingStatus.pending);
      last_saved_at = now;
      client_seq = seq;
    }

unfoldable pub autosave_answer : String → String → Members → Option String → ℕ → String → M Answer
unfolding graded_answer
autosave_answer attempt_id item_id json answer_text seq pid = do
  attempt ← find_attempt_by_id attempt_id
  guard (attempt.participant_id == pid) forbidden
  guard (is_in_progress attempt.status) attempt_locked
  now ← time_now
  guard (not (ltb attempt.due_at now)) attempt_expired
  item ← find_item_by_id item_id
  guard (item.exam_id == "" || item.exam_id == attempt.exam_id) forbidden
  id ← new_id
  upsert_answer (graded_answer item json answer_text id attempt_id item_id now seq)

unfoldable pub submit_open : String → Attempt → M Attempt
submit_open attempt_id attempt = do
  guard (is_in_progress attempt.status) attempt_locked
  now ← time_now
  guard (not (ltb attempt.due_at now)) attempt_expired
  done ← finalize_attempt attempt_id false
  pure done.0

unfoldable pub submit_attempt : String → String → M Attempt
unfolding submit_open
submit_attempt attempt_id pid = do
  attempt ← find_attempt_by_id attempt_id
  guard (attempt.participant_id == pid) forbidden
  if finished_status attempt.status then pure attempt else submit_open attempt_id attempt

unfoldable pub get_result : String → String → M Attempt
get_result pid eid = do
  attempt ← find_latest_attempt_by_participant_and_exam pid eid
  guard (is_finished attempt) result_not_available
  pure attempt
