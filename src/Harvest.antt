-- ===== src/Harvest.antt =====
-- The harvest (app/service/harvest_service.go): it sends the finished attempts to Central, one
-- batch for a deployment, and marks those that Central acknowledges. The payloads are those of
-- app/port/inbound/harvest_payload.go. Sending is a parameter: what Central answers may depend on
-- everything that is in the world at that point.
pub mod Drain
pub mod Batch
pub mod Settle
pub mod Marks
pub mod Log
pub mod Only
pub mod Whole
pub mod Counts
use bangkusekolah_exam_node.Base.{
  ℕ, Bool, true, false, ◌&&◌, not, String, ◌==◌, Option, none, some, List, [], ◌∷◌, ◌++◌,
  if◌then◌else◌, eqb, length, take, find?, at_key, put, Dict, map,
}
use bangkusekolah_exam_node.Json.{Members}
use bangkusekolah_exam_node.Entity.{
  Time, Score, AttemptStatus, GradingStatus, Attempt, Answer, IntegrityEvent, Err, push_failed,
  central_rejected, nil_acknowledgement, ack_mismatch, final_rejected,
}
use bangkusekolah_exam_node.Exec.{
  M, World, Result, ok, err, pure, raise, guard, try, ◌>>=◌, ◌>>◌, time_now,
}
use bangkusekolah_exam_node.Repository.{list_answers_by_attempt}
use bangkusekolah_exam_node.Repository.Harvest.{
  is_in, mark_attempts_harvested_for_generation, log_harvest_failure,
  list_integrity_events_by_attempt,
}

-- maxBatchAttempts
abbrev pub max_batch_attempts : ℕ
max_batch_attempts = 500

pub record ExamNodeAnswerPayload : Type 0 where
  pub id : String
  pub item_id : String
  pub answer_json : Members
  pub answer_text : Option String
  pub score : Option Score
  pub grading_status : GradingStatus
  pub last_saved_at : Time

pub record ExamNodeIntegrityEventPayload : Type 0 where
  pub id : String
  pub event_type : String
  pub description : Option String
  pub metadata_json : Members
  pub created_at : Time

pub record ExamNodeAttemptPayload : Type 0 where
  pub id : String
  pub participant_id : String
  pub student_id : String
  pub attempt_no : ℕ
  pub status : AttemptStatus
  pub reset_generation : ℕ
  pub started_at : Time
  pub due_at : Time
  pub submitted_at : Option Time
  pub auto_submitted_at : Option Time
  pub answers : List ExamNodeAnswerPayload
  pub integrity_events : List ExamNodeIntegrityEventPayload

pub record ExamNodeAttemptBatch : Type 0 where
  pub attempts : List ExamNodeAttemptPayload
  pub final : Bool

-- Go ranges over the failures in an order of its own; the list has that order.
pub record ExamNodeIngestResult : Type 0 where
  pub accepted_attempt_ids : List String
  pub failures : Dict String

-- HarvestPusher. A nil acknowledgement is `none`.
abbrev pub HarvestPusher : Type 0
HarvestPusher = String → ExamNodeAttemptBatch → World → Result (Option ExamNodeIngestResult)

abbrev pub ask : HarvestPusher → String → ExamNodeAttemptBatch → M (Option ExamNodeIngestResult)
ask push deployment_id batch w = (push deployment_id batch w, w)

abbrev pub answer_payload : Answer → ExamNodeAnswerPayload
answer_payload a = record {
  id = a.id;
  item_id = a.item_id;
  answer_json = a.answer_json;
  answer_text = a.answer_text;
  score = a.score;
  grading_status = a.grading_status;
  last_saved_at = a.last_saved_at;
}

abbrev pub event_payload : IntegrityEvent → ExamNodeIntegrityEventPayload
event_payload e = record {
  id = e.id;
  event_type = e.event_type;
  description = e.description;
  metadata_json = e.metadata_json;
  created_at = e.created_at;
}

abbrev pub attempt_payload : Attempt → List Answer → List IntegrityEvent → ExamNodeAttemptPayload
attempt_payload a answers events = record {
  id = a.id;
  participant_id = a.participant_id;
  student_id = a.student_id;
  attempt_no = a.attempt_no;
  status = a.status;
  reset_generation = a.reset_generation;
  started_at = a.started_at;
  due_at = a.due_at;
  submitted_at = a.submitted_at;
  auto_submitted_at = a.auto_submitted_at;
  answers = map answer_payload answers;
  integrity_events = map event_payload events;
}

unfoldable pub build_payloads : List Attempt → M (List ExamNodeAttemptPayload)
build_payloads [] = pure []
build_payloads (a ∷ rest) = do
  answers ← list_answers_by_attempt a.id
  events ← list_integrity_events_by_attempt a.id
  payloads ← build_payloads rest
  pure (attempt_payload a answers events ∷ payloads)

-- delete(sent, id)
unfoldable pub without : String → List String → List String
without id [] = []
without id (x ∷ xs) = let rest = without id xs in if x == id then rest else x ∷ rest

-- The ids that were sent and are not settled yet, and those that are accepted.
pub record Settling : Type 0 where
  pub sent : List String
  pub accepted : List String

abbrev pub is_failure : Dict String → String → Bool
is_failure failures id = elim (at_key id failures) [ none ↦ false | some _ ↦ true ]

abbrev pub settle_id : Dict String → String → Settling → Settling
settle_id failures id s =
    if is_in id s.sent && not (is_in id s.accepted) && not (is_failure failures id)
    then record { sent = without id s.sent; accepted = s.accepted ++ (id ∷ []) }
    else s

-- The loop over the acknowledged ids: only an id that was sent, once, and that is not among the
-- failures too.
unfoldable pub settle_ids : Dict String → List String → Settling → Settling
unfolding is_in without
settle_ids failures [] s = s
settle_ids failures (id ∷ ids) s = settle_ids failures ids (settle_id failures id s)

abbrev pub generation_of : List ExamNodeAttemptPayload → String → Dict ℕ → Dict ℕ
generation_of payloads id generations = elim (find? (λ p. p.id == id) payloads) [
  | none ↦ generations
  | some p ↦ put id p.reset_generation generations
]

unfoldable pub generations_of : List ExamNodeAttemptPayload → List String → Dict ℕ → Dict ℕ
generations_of payloads [] generations = generations
generations_of payloads (id ∷ ids) generations =
    generations_of payloads ids (generation_of payloads id generations)

-- The accepted attempts are marked, all of them or the acknowledgement is refused.
unfoldable pub mark_accepted : List ExamNodeAttemptPayload → List String → Time → M (Unit {0})
unfolding generations_of
mark_accepted payloads [] now = pure tt
mark_accepted payloads (id ∷ ids) now = do
  marked ← mark_attempts_harvested_for_generation (generations_of payloads (id ∷ ids) []) now
  guard (eqb marked (length (id ∷ ids))) (ack_mismatch marked (length (id ∷ ids)))

-- An attempt that Central rejects is logged; that the log cannot be written is not an error.
unfoldable pub log_rejections : String → List String → Dict String → M (Unit {0})
unfolding is_in without
log_rejections deployment_id sent [] = pure tt
log_rejections deployment_id sent ((id, message) ∷ rest) =
    if is_in id sent
    then (try (log_harvest_failure id deployment_id 1 (central_rejected message)) >>= λ _.
        log_rejections deployment_id (without id sent) rest)
    else log_rejections deployment_id sent rest

abbrev pub first_id : List ExamNodeAttemptPayload → String
first_id [] = ""
first_id (p ∷ ps) = p.id

-- A push that failed is logged, and is the error.
unfoldable pub log_and_fail : String → List ExamNodeAttemptPayload → Err → M ℕ
log_and_fail deployment_id payloads e = do
  logged ← try (log_harvest_failure (first_id payloads) deployment_id (length payloads) e)
  raise e

unfoldable pub settle : String → ExamNodeAttemptBatch → ExamNodeIngestResult → Settling → M ℕ
unfolding mark_accepted log_rejections
settle deployment_id batch result s = do
  now ← time_now
  mark_accepted batch.attempts s.accepted now
  log_rejections deployment_id s.sent result.failures
  if batch.final && not (eqb (length result.failures) 0)
      then raise (final_rejected (length result.failures))
      else pure (length s.accepted)

abbrev pub payload_ids : List ExamNodeAttemptPayload → List String
payload_ids = map (λ p. p.id)

abbrev pub all_sent : ExamNodeAttemptBatch → Settling
all_sent batch = record { sent = payload_ids batch.attempts; accepted = [] }

abbrev pub settled : ExamNodeAttemptBatch → ExamNodeIngestResult → Settling
settled batch result = settle_ids result.failures result.accepted_attempt_ids (all_sent batch)

unfoldable pub answered : String → ExamNodeAttemptBatch → Result (Option ExamNodeIngestResult) → M ℕ
unfolding log_and_fail settle_ids settle
answered deployment_id batch (err e) = log_and_fail deployment_id batch.attempts e
answered deployment_id batch (ok none) =
    log_and_fail deployment_id batch.attempts nil_acknowledgement
answered deployment_id batch (ok (some result)) =
    settle deployment_id batch result (settled batch result)

abbrev pub send : HarvestPusher → String → ExamNodeAttemptBatch → M ℕ
send push deployment_id batch =
    try (ask push deployment_id batch) >>= λ answer. answered deployment_id batch answer

-- drainDeployment: one batch, of at most `max_batch_attempts`
unfoldable pub drain_deployment : HarvestPusher → String → List Attempt → Bool → M ℕ
unfolding build_payloads answered
drain_deployment push deployment_id attempts final = do
  payloads ← build_payloads (take max_batch_attempts attempts)
  send push deployment_id (record { attempts = payloads; final = final })
