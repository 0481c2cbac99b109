-- ===== src/ContentHash.antt =====
-- What the content hash of an exam covers (contentHashView, contentHash and participantsSorted of
-- app/service/bundle_service.go). Encoding the view as JSON and hashing it is a parameter.
use bangkusekolah_exam_node.Base.{
  ℕ, Bool, ◌&&◌, ◌||◌, String, Option, List, eqb, ltb, text_lt, sort_by, map,
}
use bangkusekolah_exam_node.Json.{Members}
use bangkusekolah_exam_node.Entity.{
  Time, Score, QuestionType, RubricCriterion, Exam, Item, Participant, whole_seconds,
}

pub record ExamHashView : Type 0 where
  pub id : String
  pub deployment_id : String
  pub title : String
  pub instruction : Option String
  pub starts_at : Time
  pub ends_at : Time
  pub duration_minutes : ℕ
  pub max_attempts : ℕ
  pub shuffle_questions : Bool
  pub shuffle_options : Bool
  pub show_result_immediately : Bool
  pub passing_score : Option Score
  pub result_selection_policy : String
  pub max_score : Score
  pub has_manual_items : Bool
  pub access_code_prefix : String

pub record ItemHashRow : Type 0 where
  pub id : String
  pub exam_id : String
  pub section_id : String
  pub section_title : String
  pub section_sort_order : ℕ
  pub sort_order : ℕ
  pub question_type : QuestionType
  pub prompt_snapshot : String
  pub options_snapshot_json : List Members
  pub answer_key_snapshot_json : Members
  pub rubric_criteria : List RubricCriterion
  pub points : Score
  pub requires_manual_grading : Bool

pub record ParticipantHashRow : Type 0 where
  pub id : String
  pub exam_id : String
  pub student_id : String
  pub access_code : String

pub record ContentHashView : Type 0 where
  pub exam : ExamHashView
  pub items : List ItemHashRow
  pub participants : List ParticipantHashRow

-- The times are whole seconds.
abbrev pub exam_hash_view : Exam → ExamHashView
exam_hash_view e = record {
  id = e.id;
  deployment_id = e.deployment_id;
  title = e.title;
  instruction = e.instruction;
  starts_at = whole_seconds e.starts_at;
  ends_at = whole_seconds e.ends_at;
  duration_minutes = e.duration_minutes;
  max_attempts = e.max_attempts;
  shuffle_questions = e.shuffle_questions;
  shuffle_options = e.shuffle_options;
  show_result_immediately = e.show_result_immediately;
  passing_score = e.passing_score;
  result_selection_policy = e.result_selection_policy;
  max_score = e.max_score;
  has_manual_items = e.has_manual_items;
  access_code_prefix = e.access_code_prefix;
}

-- An empty list of options or criteria and an empty answer key are hashed as if they were absent.
abbrev pub item_hash_row : Item → ItemHashRow
item_hash_row i = record {
  id = i.id;
  exam_id = i.exam_id;
  section_id = i.section_id;
  section_title = i.section_title;
  section_sort_order = i.section_sort_order;
  sort_order = i.sort_order;
  question_type = i.question_type;
  prompt_snapshot = i.prompt_snapshot;
  options_snapshot_json = i.options_snapshot_json;
  answer_key_snapshot_json = i.answer_key_snapshot_json;
  rubric_criteria = i.rubric_criteria;
  points = i.points;
  requires_manual_grading = i.requires_manual_grading;
}

abbrev pub participant_hash_row : Participant → ParticipantHashRow
participant_hash_row p = record {
  id = p.id;
  exam_id = p.exam_id;
  student_id = p.student_id;
  access_code = p.access_code;
}

-- By section, place and id.
abbrev pub hashed_before : Item → Item → Bool
hashed_before a b =
    ltb a.section_sort_order b.section_sort_order
    || eqb a.section_sort_order b.section_sort_order
      && (ltb a.sort_order b.sort_order || eqb a.sort_order b.sort_order && text_lt a.id b.id)

abbrev pub participant_before : Participant → Participant → Bool
participant_before a b = text_lt a.id b.id

unfoldable pub participants_sorted : List Participant → List Participant
participants_sorted = sort_by participant_before

unfoldable pub content_hash_view : List Item → List Participant → Exam → ContentHashView
unfolding participants_sorted
content_hash_view items participants exam = record {
  exam = exam_hash_view exam;
  items = map item_hash_row (sort_by hashed_before items);
  participants = map participant_hash_row (participants_sorted participants);
}

unfoldable pub content_hash :
    (ContentHashView → String) → List Item → List Participant → Exam → String
unfolding content_hash_view
content_hash digest items participants exam = digest (content_hash_view items participants exam)
