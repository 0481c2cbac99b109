-- ===== src/Bundle.antt =====
-- Loading and checking bundles (app/service/bundle_service.go; the bundle is that of
-- app/port/inbound/bundle_usecase.go). The checksum of a bundle, the hash of a content and the
-- rendering of a content are parameters. LockExam, which keeps two loads of one exam apart, is not
-- modelled, and no other operation comes in between.
pub mod Stored
pub mod Items
pub mod Load
pub mod Ids
pub mod Enrolled
pub mod Whole
use bangkusekolah_exam_node.Base.{
  ℕ, ◌+◌, Bool, true, false, ◌&&◌, ◌||◌, not, String, ◌==◌, Option, none, some, List, [], ◌∷◌, map,
  if◌then◌else◌, eqb, leb, ltb, length, count_where, byte_len, prefix,
}
use bangkusekolah_exam_node.Json.{Members}
use bangkusekolah_exam_node.Entity.{
  Time, Score, whole_seconds, QuestionType, RubricCriterion, Exam, Item, Participant, Err,
  exam_not_loaded, bundle_roster_immutable, bundle_file_upload, bundle_checksum, preflight_failed,
}
use bangkusekolah_exam_node.Exec.{M, World, Result, ok, err, pure, ◌>>=◌, ◌>>◌, guard, atomic}
use bangkusekolah_exam_node.Repository.{find_exam_by_id}
use bangkusekolah_exam_node.Repository.Roster.{
  list_participants_by_exam, count_processed_roster_receipts,
}
use bangkusekolah_exam_node.Repository.Bundle.{replace_bundle}
use bangkusekolah_exam_node.Content.{
  ContentService, ContentCache, ExamContent, begin_rebuild, cancel_rebuild,
}
use bangkusekolah_exam_node.Content.Rebuild.{list_items_by_exam_id, rebuild_exam}
use bangkusekolah_exam_node.ContentHash.{ContentHashView, content_hash}

pub record ExamNodeBundleExam : Type 0 where
  pub id : String
  pub title : String
  pub instruction : Option String
  pub starts_at : Time
  pub ends_at : Time
  pub duration_minutes : ℕ
  pub max_attempts : ℕ
  pub shuffle_questions : Bool
  pub shuffle_options : Bool
  pub show_result_immediately : Bool
  pub passing_score : Option Score
  pub result_selection_policy : String

pub record ExamNodeBundleSection : Type 0 where
  pub id : String
  pub title : String
  pub instruction : Option String
  pub sort_order : ℕ

pub record ExamNodeBundleItem : Type 0 where
  pub id : String
  pub section_id : String
  pub question_type : QuestionType
  pub prompt_snapshot : String
  pub options_snapshot_json : List Members
  pub answer_key_snapshot_json : Members
  pub points : Score
  pub sort_order : ℕ
  pub requires_manual_grading : Bool
  pub rubric_criteria : List RubricCriterion

pub record ExamNodeBundleParticipant : Type 0 where
  pub id : String
  pub student_id : String
  pub student_name : String
  pub access_code : String

pub record ExamNodeBundle : Type 0 where
  pub bundle_version : ℕ
  pub deployment_id : String
  pub exam : ExamNodeBundleExam
  pub sections : List ExamNodeBundleSection
  pub items : List ExamNodeBundleItem
  pub participants : List ExamNodeBundleParticipant
  pub checksum : String

-- What the program has from packages: the checksum of a bundle whose own is cleared, the hash of a
-- content, and the rendering of a content for the cache.
pub record BundleTools : Type 0 where
  pub checksum : ExamNodeBundle → String
  pub content : ContentHashView → String
  pub render : ExamContent → Result ContentCache

abbrev pub compute_bundle_checksum : BundleTools → ExamNodeBundle → String
compute_bundle_checksum tools bundle = tools.checksum (record bundle { checksum = "" })

unfoldable pub max_score_of : List ExamNodeBundleItem → Score
max_score_of [] = 0
max_score_of (i ∷ is) = i.points + max_score_of is

unfoldable pub any_manual_item : List ExamNodeBundleItem → Bool
any_manual_item [] = false
any_manual_item (i ∷ is) = i.requires_manual_grading || any_manual_item is

unfoldable pub access_prefix : List ExamNodeBundleParticipant → String
access_prefix [] = ""
access_prefix (p ∷ ps) = if leb 6 (byte_len p.access_code) then prefix 6 p.access_code else ""

unfoldable pub section_title : List ExamNodeBundleSection → String → String
section_title [] id = ""
section_title (s ∷ rest) id = if s.id == id then s.title else section_title rest id

unfoldable pub section_order : List ExamNodeBundleSection → String → ℕ
section_order [] id = 0
section_order (s ∷ rest) id = if s.id == id then s.sort_order else section_order rest id

abbrev pub is_file_upload : QuestionType → Bool
is_file_upload (QuestionType.other text) = text == "file_upload"
is_file_upload _ = false

unfoldable pub has_file_upload : List ExamNodeBundleItem → Bool
has_file_upload [] = false
has_file_upload (i ∷ is) = is_file_upload i.question_type || has_file_upload is

-- The content hash is set last, over the exam without it.
abbrev pub bundle_exam : ExamNodeBundle → Exam
bundle_exam b = record {
  id = b.exam.id;
  deployment_id = b.deployment_id;
  title = b.exam.title;
  instruction = b.exam.instruction;
  starts_at = whole_seconds b.exam.starts_at;
  ends_at = whole_seconds b.exam.ends_at;
  duration_minutes = b.exam.duration_minutes;
  max_attempts = b.exam.max_attempts;
  shuffle_questions = b.exam.shuffle_questions;
  shuffle_options = b.exam.shuffle_options;
  show_result_immediately = b.exam.show_result_immediately;
  passing_score = b.exam.passing_score;
  result_selection_policy = b.exam.result_selection_policy;
  max_score = max_score_of b.items;
  has_manual_items = any_manual_item b.items;
  access_code_prefix = access_prefix b.participants;
  bundle_checksum = b.checksum;
  content_hash = "";
  roster_revision = 0;
  fenced_at = none;
  loaded_at = 0;
}

abbrev pub bundle_item : ExamNodeBundle → ExamNodeBundleItem → Item
bundle_item b i = record {
  id = i.id;
  exam_id = b.exam.id;
  section_id = i.section_id;
  section_title = section_title b.sections i.section_id;
  section_sort_order = section_order b.sections i.section_id;
  sort_order = i.sort_order;
  question_type = i.question_type;
  prompt_snapshot = i.prompt_snapshot;
  options_snapshot_json = i.options_snapshot_json;
  answer_key_snapshot_json = i.answer_key_snapshot_json;
  rubric_criteria = i.rubric_criteria;
  points = i.points;
  requires_manual_grading = i.requires_manual_grading;
}

abbrev pub bundle_participant : ExamNodeBundle → ExamNodeBundleParticipant → Participant
bundle_participant b p = record {
  id = p.id;
  exam_id = b.exam.id;
  deployment_id = "";
  student_id = p.student_id;
  student_name = p.student_name;
  access_code = p.access_code;
  roster_revision = 0;
  attempt_count = 0;
  latest_attempt_id = none;
}

abbrev pub bundle_items : ExamNodeBundle → List Item
bundle_items b = map (bundle_item b) b.items

abbrev pub bundle_participants : ExamNodeBundle → List Participant
bundle_participants b = map (bundle_participant b) b.participants

abbrev pub hashed_exam : BundleTools → ExamNodeBundle → Exam
hashed_exam tools b = record (bundle_exam b) {
  content_hash =
      content_hash tools.content (bundle_items b) (bundle_participants b) (bundle_exam b);
}

-- What an exam that is there already says of the load.
unfoldable pub check_existing : ExamNodeBundle → Result Exam → Result (Unit {0})
check_existing b (ok existing) =
    if existing.deployment_id == b.deployment_id && ltb 0 existing.roster_revision
    then err bundle_roster_immutable
    else ok tt
check_existing b (err exam_not_loaded) = ok tt
check_existing b (err e) = err e

unfoldable pub check_bundle : BundleTools → ExamNodeBundle → Result (Unit {0})
unfolding has_file_upload
check_bundle tools b =
    if has_file_upload b.items
    then err bundle_file_upload
    else if b.checksum == compute_bundle_checksum tools b
    then ok tt
    else err bundle_checksum

abbrev pub Loading : Type 0
Loading = (Result (Unit {0}) × ContentService) × World

abbrev pub publish_replaced :
    BundleTools → String → ℕ → ContentService → Result (Unit {0}) × World → Loading
publish_replaced tools exam_id token s (err e, w) = ((err e, (cancel_rebuild exam_id token s).1), w)
publish_replaced tools exam_id token s (ok u, w) =
    rebuild_exam tools.render exam_id (some token) s w

abbrev pub replaced_in_transaction : BundleTools → ExamNodeBundle → M (Unit {0})
replaced_in_transaction tools b =
    atomic (replace_bundle (hashed_exam tools b) (bundle_items b) (bundle_participants b))

-- The exam is refused under a new generation before its rows change, and served after they have.
unfoldable pub load_checked : BundleTools → ExamNodeBundle → ContentService → World → Loading
load_checked tools b s w =
    let (token, begun) = begin_rebuild b.exam.id s in
    publish_replaced tools b.exam.id token begun (replaced_in_transaction tools b w)

abbrev pub load_if :
    BundleTools → ExamNodeBundle → ContentService → World → Result (Unit {0}) → Loading
load_if tools b s w (err e) = ((err e, s), w)
load_if tools b s w (ok u) = load_checked tools b s w

abbrev pub check_both : BundleTools → ExamNodeBundle → Result Exam → Result (Unit {0})
check_both tools b existing = elim (check_existing b existing) [
  | err e ↦ err e
  | ok u ↦ check_bundle tools b
]

-- LoadBundle
unfoldable pub load_bundle : BundleTools → ExamNodeBundle → ContentService → World → Loading
unfolding check_existing check_bundle load_checked
load_bundle tools b s w =
    load_if tools b s (find_exam_by_id b.exam.id w).1
      (check_both tools b (find_exam_by_id b.exam.id w).0)

abbrev pub is_baseline : Participant → Bool
is_baseline p = eqb p.roster_revision 0

-- What Central expects of an exam. A revision that is not expected is `none`.
pub record Expectation : Type 0 where
  pub item_count : ℕ
  pub baseline_participant_count : ℕ
  pub total_participant_count : ℕ
  pub roster_revision : Option ℕ

-- The checks of the roster's revision and its receipts.
unfoldable pub preflight_revision : Exam → Option ℕ → M (Unit {0})
preflight_revision exam none = pure tt
preflight_revision exam (some revision) = do
  guard (eqb exam.roster_revision revision) preflight_failed
  receipts ← count_processed_roster_receipts exam.deployment_id exam.roster_revision
  guard (eqb receipts exam.roster_revision) preflight_failed

-- PreflightRoster
unfoldable pub preflight_roster : BundleTools → String → Expectation → M (Unit {0})
unfolding preflight_revision
preflight_roster tools exam_id expected = do
  exam ← find_exam_by_id exam_id
  guard (not (exam.bundle_checksum == "")) preflight_failed
  items ← list_items_by_exam_id exam_id
  participants ← list_participants_by_exam exam_id
  guard
      (eqb (length items) expected.item_count
        && eqb (length participants) expected.total_participant_count)
      preflight_failed
  guard (eqb (count_where is_baseline participants) expected.baseline_participant_count)
      preflight_failed
  preflight_revision exam expected.roster_revision
  guard (content_hash tools.content items participants exam == exam.content_hash) preflight_failed

-- Preflight
abbrev pub preflight : BundleTools → String → ℕ → ℕ → M (Unit {0})
preflight tools exam_id items participants = preflight_roster tools exam_id (record {
  item_count = items;
  baseline_participant_count = participants;
  total_participant_count = participants;
  roster_revision = none;
})
