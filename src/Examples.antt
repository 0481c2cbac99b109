-- ===== src/Examples.antt =====
-- One exam with one participant, run through the operations.
pub mod Cache
pub mod Resets
pub mod Harvest
pub mod Roster
pub mod Integrity
pub mod Login
pub mod Bundle
use bangkusekolah_exam_node.Base.{
  select, insert_row, update_where, ℕ, zero, suc, ◌+◌, ◌*◌, ◌≡◌, refl, ◌||◌, trim_space, find?, ◌⊎◌,
  true, false, String, none, some, List, [], ◌∷◌, if◌then◌else◌,
}
use bangkusekolah_exam_node.Json.{end, member, str}
use bangkusekolah_exam_node.Entity.{
  minute, Exam, Item, Participant, Attempt, AttemptStatus, GradingStatus, Answer, single_choice,
  stale_answer_write, exam_not_loaded,
}
use bangkusekolah_exam_node.Store.{Store, ParticipantRow, to_participant_entity}
use bangkusekolah_exam_node.Exec.{
  World, ok, err, calm, atomic, query, change, time_now, new_id, AnswerColumn, answer_json,
  answer_text, score, max_score, grading_status, last_saved_at, client_seq,
}
use bangkusekolah_exam_node.Exec.Hoare.{Outcome}
use bangkusekolah_exam_node.Repository.{
  attempt_row, answer_rows, find_exam_by_id, find_participant_by_id,
  find_active_attempt_by_participant_and_exam, find_attempt_by_id, list_answers_by_attempt,
  find_item_by_id, create_attempt, update_participant, update_attempt, list_expired_attempts,
  find_latest_attempt_by_participant_and_exam,
}
use bangkusekolah_exam_node.Sweeper.{sweep_expired_attempts}
use bangkusekolah_exam_node.Repository.Answers.{
  columns_by_name, assign_all, answer_upserted, upsert_answer,
}
use bangkusekolah_exam_node.Repository.Upsert.{answer_upserted-stale, assign_all-torn}
use bangkusekolah_exam_node.Invariant.{Inv}
use bangkusekolah_exam_node.Grading.{grade_objective_answer}
use bangkusekolah_exam_node.Grading.Bounds.{grade_objective_answer-all_or_nothing}
use bangkusekolah_exam_node.Finalizer.{finalize_status, finalized, finalize_attempt}
use bangkusekolah_exam_node.Finalizer.Result.{
  total_points, any_manual, finalize_status-adds_up, finalize_attempt-writes, finalize_attempt-once,
}
use bangkusekolah_exam_node.Attempt.{
  get_attempt_state, start_attempt, autosave_answer, start_attempt_with_device, resume_active,
  return_or_open, submit_attempt, get_result, graded_answer,
}
use bangkusekolah_exam_node.Attempt.Submit.{submit_attempt-once}
use bangkusekolah_exam_node.Attempt.Return.{start_attempt-resumes}
use bangkusekolah_exam_node.Attempt.Open.{opened, with_opened, start_attempt-opens}
use bangkusekolah_exam_node.Attempt.State.{get_attempt_state-finalizes}
use bangkusekolah_exam_node.Attempt.Resume.{Serves}
use bangkusekolah_exam_node.Attempt.Kept.{start_attempt-keeps_Inv}
use bangkusekolah_exam_node.Attempt.Guards.{
  OnlyAnswers, Writable, autosave_answer-guards, start_attempt-refuses_device,
}
use bangkusekolah_exam_node.Requests.{
  Request, starts, autosaves, submits, asks_result, sweeps, after_requests, after_requests-Inv,
}

abbrev math : Exam
math = record {
  id = "math";
  deployment_id = "dep";
  title = "Math";
  instruction = none;
  starts_at = 100;
  ends_at = 5000 * minute;
  duration_minutes = 60;
  max_attempts = 2;
  shuffle_questions = false;
  shuffle_options = false;
  show_result_immediately = true;
  passing_score = some 5000;
  result_selection_policy = "LATEST";
  max_score = 500;
  has_manual_items = false;
  access_code_prefix = "M";
  bundle_checksum = "";
  content_hash = "";
  roster_revision = 1;
  fenced_at = none;
  loaded_at = 50;
}

abbrev sum_item : Item
sum_item = record {
  id = "sum";
  exam_id = "math";
  section_id = "s";
  section_title = "S";
  section_sort_order = 1;
  sort_order = 1;
  question_type = single_choice;
  prompt_snapshot = "1 + 1";
  options_snapshot_json = [];
  answer_key_snapshot_json = member "answer" (str "Two ") end;
  rubric_criteria = [];
  points = 500;
  requires_manual_grading = false;
}

abbrev ani : ParticipantRow
ani = record {
  id = "ani";
  exam_id = "math";
  student_id = "s1";
  student_name = "Ani";
  access_code = "M-1";
  roster_revision = 1;
  attempt_count = 1;
  latest_attempt_id = some "first";
}

abbrev first : Attempt
first = record {
  id = "first";
  participant_id = "ani";
  student_id = "s1";
  exam_id = "math";
  device_id = "tablet";
  attempt_no = 1;
  status = AttemptStatus.in_progress;
  started_at = 100;
  due_at = 60 * minute;
  submitted_at = none;
  auto_submitted_at = none;
  score = none;
  max_score = 500;
  grading_status = GradingStatus.pending;
  reset_generation = 0;
  harvested_at = none;
}

abbrev saved : Answer
saved = record {
  id = "a1";
  attempt_id = "first";
  item_id = "sum";
  answer_json = member "answer" (str "two") end;
  answer_text = none;
  score = some 500;
  max_score = 500;
  grading_status = GradingStatus.auto_graded;
  last_saved_at = 120;
  client_seq = 3;
}

abbrev newer : Answer
newer = record saved { id = "a2"; score = some 0; client_seq = 4 }

-- Before anyone started, and with an attempt and an answer.
abbrev idle : Store
idle = record {
  exams = math ∷ [];
  items = sum_item ∷ [];
  participants = record ani { attempt_count = 0; latest_attempt_id = none } ∷ [];
  attempts = [];
  answers = [];
  integrity_events = [];
  reset_operations = [];
  roster_receipts = [];
  harvest_log = [];
}

abbrev sitting : Store
sitting = record idle { participants = ani ∷ []; attempts = first ∷ []; answers = saved ∷ [] }

abbrev mint : ℕ → String
mint zero = "first"
mint (suc n) = "a1"

abbrev world_of : Store → World
world_of d = calm d 200 mint columns_by_name

abbrev whole_sitting : List Request
whole_sitting =
    starts "ani" "math" "tablet"
    ∷ autosaves "first" "sum" (member "answer" (str "two") end) none 1 "ani"
    ∷ submits "first" "ani"
    ∷ asks_result "ani" "math"
    ∷ sweeps
    ∷ []

-- The run really starts an attempt, saves an answer, and submits.
whole_sitting_test :
    attempt_row (after_requests whole_sitting (world_of idle)).db "first"
    ≡ some (record first {
      started_at = 200;
      due_at = 200 + 60 * minute;
      status = AttemptStatus.submitted;
      submitted_at = some 200;
      score = some 500;
      grading_status = GradingStatus.auto_graded;
    })
unfolding after_requests start_attempt_with_device start_attempt resume_active return_or_open
    autosave_answer submit_attempt get_result sweep_expired_attempts find? select insert_row
    update_where graded_answer grade_objective_answer finalize_attempt find_exam_by_id
    find_participant_by_id find_active_attempt_by_participant_and_exam find_attempt_by_id
    list_answers_by_attempt find_item_by_id create_attempt update_participant update_attempt
    upsert_answer list_expired_attempts find_latest_attempt_by_participant_and_exam atomic query
    change time_now new_id trim_space
whole_sitting_test = refl

after_requests-Inv_example : Inv (after_requests whole_sitting (world_of idle)).db
after_requests-Inv_example = after_requests-Inv whole_sitting (world_of idle) tt

start_attempt-keeps_Inv_example :
    Outcome
      (λ a d. Inv d × Serves "ani" "math" a)
      Inv
      (start_attempt "ani" "math" "tablet" (world_of idle))
start_attempt-keeps_Inv_example = start_attempt-keeps_Inv "ani" "math" "tablet" (world_of idle) tt

start_attempt-refuses_device_example :
    Outcome (λ _ _. ⊥) (λ d. d ≡ sitting) (start_attempt "ani" "math" "phone" (world_of sitting))
unfolding trim_space find?
start_attempt-refuses_device_example =
    start_attempt-refuses_device "ani" "math" "phone" first (world_of sitting) refl refl refl

autosave_answer-guards_example :
    Outcome
      (λ _ d. OnlyAnswers sitting d × Writable sitting "first" "sum" "ani")
      (λ d. d ≡ sitting)
      (autosave_answer "first" "sum"
        (member "answer" (str "2") end)
        none
        9
        "ani"
        (world_of sitting))
autosave_answer-guards_example =
    autosave_answer-guards "first" "sum" (member "answer" (str "2") end) none 9 "ani"
      (world_of sitting)

finalize_attempt-writes_example :
    let done = record first {
      score = some 500;
      grading_status = GradingStatus.auto_graded;
      submitted_at = some 200;
      status = AttemptStatus.auto_submitted;
      auto_submitted_at = some 200;
    } in
    let r = finalize_attempt "first" true (world_of sitting) in
    (r.0 ≡ ok (done, true)) × (attempt_row r.1.db "first" ≡ some done)
unfolding find? total_points any_manual select
finalize_attempt-writes_example =
    finalize_attempt-writes sitting 200 mint columns_by_name "first" true first math refl refl refl

finalize_status-adds_up_example : finalize_status (saved ∷ []) false ≡ (
  total_points (saved ∷ []),
  if false || any_manual (saved ∷ [])
      then GradingStatus.manual_required
      else GradingStatus.auto_graded,
)
finalize_status-adds_up_example = finalize_status-adds_up (saved ∷ []) false

abbrev no_exam : Store
no_exam = record sitting { exams = [] }

abbrev over : Store
over = record sitting { attempts = record first { status = AttemptStatus.submitted } ∷ [] }

finalize_attempt-once_example :
    let done = record first {
      score = some 500;
      grading_status = GradingStatus.auto_graded;
      submitted_at = some 200;
      status = AttemptStatus.auto_submitted;
      auto_submitted_at = some 200;
    } in
    let r = finalize_attempt "first" true (world_of sitting) in
    finalize_attempt "first" false (calm r.1.db 900 mint columns_by_name)
    ≡ (ok (done, false), calm r.1.db 900 mint columns_by_name)
unfolding find? total_points any_manual select
finalize_attempt-once_example =
    finalize_attempt-once sitting 200 mint columns_by_name "first" true first math 900 false refl
      refl refl

answer_upserted-stale_example :
    (answer_upserted columns_by_name saved sitting ≡ err stale_answer_write)
    × (assign_all saved columns_by_name saved ≡ saved)
unfolding find?
answer_upserted-stale_example = answer_upserted-stale columns_by_name saved saved sitting refl refl

assign_all-torn_example : (assign_all newer columns_by_name saved).score ≡ some 500
assign_all-torn_example =
    assign_all-torn (answer_json ∷ answer_text ∷ [])
      (grading_status ∷ last_saved_at ∷ max_score ∷ score ∷ []) newer saved (refl, (refl, tt))

grade_objective_answer-all_or_nothing_example :
    let r = grade_objective_answer sum_item (some (member "answer" (str " TWO") end)) in
    (r.1 ≡ true) × ((r.0 ≡ 0) ⊎ ((r.0 ≡ 500) × (r.1 ≡ true)))
grade_objective_answer-all_or_nothing_example =
    grade_objective_answer-all_or_nothing sum_item (some (member "answer" (str " TWO") end))

submit_attempt-once_example :
    let done = record first {
      score = some 500;
      grading_status = GradingStatus.auto_graded;
      submitted_at = some 200;
      status = AttemptStatus.submitted;
    } in
    let r = submit_attempt "first" "ani" (world_of sitting) in
    (r.0 ≡ ok done)
    × (submit_attempt "first" "ani" (calm r.1.db 900 mint columns_by_name)
        ≡ (ok done, calm r.1.db 900 mint columns_by_name))
unfolding find? total_points any_manual select
submit_attempt-once_example =
    submit_attempt-once "first" "ani" mint columns_by_name sitting 200 first math refl refl refl
      refl refl 900

start_attempt-resumes_example :
    start_attempt "ani" "math" " tablet " (world_of sitting) ≡ (ok first, world_of sitting)
unfolding find? trim_space
start_attempt-resumes_example =
    start_attempt-resumes sitting 200 mint columns_by_name "ani" "math" " tablet " math
      (to_participant_entity ani) first refl refl refl refl refl refl refl refl refl

abbrev ani_entity : Participant
ani_entity = record (to_participant_entity ani) { attempt_count = 0; latest_attempt_id = none }

start_attempt-opens_example : start_attempt "ani" "math" "tablet" (world_of idle) ≡ (
  ok (opened idle 200 mint columns_by_name "ani" "math" "tablet" math ani_entity),
  record (world_of
      (with_opened idle 200 mint columns_by_name "ani" "math" "tablet" math ani_entity)) {
        issued = 1;
      },
)
unfolding find? trim_space
start_attempt-opens_example =
    start_attempt-opens idle 200 mint columns_by_name "ani" "math" "tablet" math ani_entity refl
      refl refl refl refl refl refl refl

get_attempt_state-finalizes_example :
    (get_attempt_state "ani" "first" (calm sitting (61 * minute) mint columns_by_name)).0
    ≡ ok (record {
      attempt = record first {
        score = some 500;
        grading_status = GradingStatus.auto_graded;
        submitted_at = some (61 * minute);
        status = AttemptStatus.auto_submitted;
        auto_submitted_at = some (61 * minute);
      };
      answers = answer_rows sitting "first";
      server_time = 61 * minute;
    })
unfolding find? total_points any_manual select
get_attempt_state-finalizes_example =
    get_attempt_state-finalizes sitting (61 * minute) mint columns_by_name "first" "ani" first math
      refl refl refl refl refl
