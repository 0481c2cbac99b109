-- ===== src/Repository.antt =====
-- The repository (app/adapter/persistence/repository/node_repository.go): one action for each
-- method, which sends the statements that the method sends. A lock (FOR UPDATE) reads the same row;
-- what the lock keeps others from doing is the sequence of steps itself.
pub mod Answers
pub mod Upsert
pub mod Resets
pub mod Harvest
pub mod Roster
pub mod Integrity
pub mod Bundle
use bangkusekolah_exam_node.Base.{
  Bool, true, false, ◌&&◌, ◌||◌, String, ◌==◌, Option, none, some, List, [], ◌∷◌, if◌then◌else◌,
  ltb, eqb, find?, select, update_where, insert_row,
}
use bangkusekolah_exam_node.Entity.{
  Time, Exam, Item, Participant, Attempt, Answer, is_in_progress, exam_not_loaded,
  participant_not_found, attempt_not_found, attempt_locked, item_not_found, attempt_device_mismatch,
  duplicate_key, result_not_available,
}
use bangkusekolah_exam_node.Store.{Store, ParticipantRow, to_participant_entity}
use bangkusekolah_exam_node.Exec.{M, Result, ok, err, or_err, pure, ◌>>=◌, guard, query, change}

-- Rows by their keys.
abbrev pub exam_row : Store → String → Option Exam
exam_row d id = find? (λ e. e.id == id) d.exams

abbrev pub participant_row : Store → String → Option ParticipantRow
participant_row d id = find? (λ p. p.id == id) d.participants

abbrev pub attempt_row : Store → String → Option Attempt
attempt_row d id = find? (λ a. a.id == id) d.attempts

abbrev pub item_row : Store → String → Option Item
item_row d id = find? (λ i. i.id == id) d.items

abbrev pub is_active : String → String → Attempt → Bool
is_active pid eid a = a.participant_id == pid && a.exam_id == eid && is_in_progress a.status

abbrev pub active_attempt_row : Store → String → String → Option Attempt
active_attempt_row d pid eid = find? (is_active pid eid) d.attempts

abbrev pub answer_rows : Store → String → List Answer
answer_rows d attempt_id = select (λ a. a.attempt_id == attempt_id) d.answers

-- FindExamByID, and FindExamByIDForUpdate
unfoldable pub find_exam_by_id : String → M Exam
find_exam_by_id id = query (λ d. or_err (exam_row d id) exam_not_loaded)

abbrev pub participant_entity : Store → String → Option Participant
participant_entity d id = elim (participant_row d id) [
  | none ↦ none
  | some p ↦ some (to_participant_entity p)
]

-- FindParticipantByID, and FindParticipantByIDForUpdate
unfoldable pub find_participant_by_id : String → M Participant
find_participant_by_id id = query (λ d. or_err (participant_entity d id) participant_not_found)

unfoldable pub find_active_attempt_by_participant_and_exam : String → String → M Attempt
find_active_attempt_by_participant_and_exam pid eid =
    query (λ d. or_err (active_attempt_row d pid eid) attempt_not_found)

-- FindAttemptByID, and FindAttemptByIDForUpdate
unfoldable pub find_attempt_by_id : String → M Attempt
find_attempt_by_id id = query (λ d. or_err (attempt_row d id) attempt_not_found)

unfoldable pub list_answers_by_attempt : String → M (List Answer)
list_answers_by_attempt attempt_id = query (λ d. ok (answer_rows d attempt_id))

unfoldable pub find_item_by_id : String → M Item
find_item_by_id id = query (λ d. or_err (item_row d id) item_not_found)

-- The unique keys of the table: the id, and the participant with the attempt number.
abbrev pub same_attempt_key : Attempt → Attempt → Bool
same_attempt_key a b =
    b.id == a.id || (b.participant_id == a.participant_id && eqb b.attempt_no a.attempt_no)

abbrev pub attempt_inserted : Attempt → Store → Result (Unit {0} × Store)
attempt_inserted a d = elim (find? (same_attempt_key a) d.attempts) [
  | some _ ↦ err duplicate_key
  | none ↦ ok (tt, record d { attempts = insert_row (λ r. r.id) a d.attempts })
]

unfoldable pub create_attempt : Attempt → M (Unit {0})
create_attempt a = change (attempt_inserted a)

abbrev pub participant_counted : Participant → ParticipantRow → ParticipantRow
participant_counted p r = record r {
  attempt_count = p.attempt_count;
  latest_attempt_id = p.latest_attempt_id;
}

abbrev pub participant_updated : Participant → Store → Result (Unit {0} × Store)
participant_updated p d = ok (
  tt,
  record d {
    participants = update_where (λ r. r.id == p.id) (participant_counted p) d.participants;
  },
)

-- UpdateParticipant writes these two columns only.
unfoldable pub update_participant : Participant → M (Unit {0})
update_participant p = change (participant_updated p)

abbrev pub is_open_row : String → Attempt → Bool
is_open_row id a = a.id == id && is_in_progress a.status

abbrev pub attempt_written : Attempt → Attempt → Attempt
attempt_written a r = record r {
  device_id = a.device_id;
  status = a.status;
  submitted_at = a.submitted_at;
  auto_submitted_at = a.auto_submitted_at;
  score = a.score;
  grading_status = a.grading_status;
}

abbrev pub attempt_updated : Attempt → Store → Result (Unit {0} × Store)
attempt_updated a d = elim (find? (is_open_row a.id) d.attempts) [
  | none ↦ err attempt_locked
  | some _ ↦
      ok
        (tt, record d { attempts = update_where (is_open_row a.id) (attempt_written a) d.attempts })
]

-- UpdateAttempt is conditional on the row being in progress. Its caller moves the status away from
-- in progress, so each row that matches is a row that changes.
unfoldable pub update_attempt : Attempt → M (Unit {0})
update_attempt a = change (attempt_updated a)

abbrev pub is_unbound_row : String → Attempt → Bool
is_unbound_row id a = is_open_row id a && a.device_id == ""

abbrev pub device_bound : String → String → Store → Result (Bool × Store)
device_bound id device d = elim (find? (is_unbound_row id) d.attempts) [
  | none ↦ ok (false, d)
  | some _ ↦ ok (
    true,
    record d {
      attempts = update_where (is_unbound_row id) (λ r. record r { device_id = device }) d.attempts;
    },
  )
]

-- BindAttemptDevice, for a device that is not empty. A row that holds the device already matches
-- and does not change, so MySQL does not count it; the row is then read again.
unfoldable pub bind_attempt_device : String → String → M (Unit {0})
bind_attempt_device id device = do
  affected ← change (device_bound id device)
  if affected then pure tt else do
    current ← find_attempt_by_id id
    guard (is_in_progress current.status && current.device_id == device) attempt_device_mismatch

unfoldable pub list_expired_attempts : Time → M (List Attempt)
list_expired_attempts now =
    query (λ d. ok (select (λ a. is_in_progress a.status && ltb a.due_at now) d.attempts))

abbrev pub of_participant : String → String → Attempt → Bool
of_participant eid pid a = a.exam_id == eid && a.participant_id == pid

abbrev pub later_attempt : Attempt → Option Attempt → Option Attempt
later_attempt a none = some a
later_attempt a (some b) = if ltb a.attempt_no b.attempt_no then some b else some a

-- Order("attempt_no DESC").First
unfoldable pub latest : List Attempt → Option Attempt
latest [] = none
latest (a ∷ rest) = later_attempt a (latest rest)

unfoldable pub find_latest_attempt_by_participant_and_exam : String → String → M Attempt
unfolding latest
find_latest_attempt_by_participant_and_exam pid eid =
    query (λ d. or_err (latest (select (of_participant eid pid) d.attempts)) result_not_available)
