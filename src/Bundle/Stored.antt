-- ===== src/Bundle/Stored.antt =====
-- What the tables are to hold of a bundle that is loaded (LoadBundle of
-- app/service/bundle_service.go).
use bangkusekolah_exam_node.Base.{
  ℕ, ◌+◌, ◌≡◌, refl, ◌∙◌, ap, Bool, ◌||◌, none, All, any_where, String, ◌==◌, some, List, [], ◌∷◌,
  length, find?, count_where,
}
use bangkusekolah_exam_node.Entity.{Time, Score, whole_seconds, Exam, Item}
use bangkusekolah_exam_node.Store.{Store}
use bangkusekolah_exam_node.Repository.{exam_row}
use bangkusekolah_exam_node.Repository.Bundle.{to_exam_model}
use bangkusekolah_exam_node.Bundle.{
  ExamNodeBundle, ExamNodeBundleItem, BundleTools, bundle_items, bundle_participants, hashed_exam,
  section_title, section_order, bundle_exam, max_score_of, any_manual_item, access_prefix,
}
use bangkusekolah_exam_node.ContentHash.{content_hash}

abbrev pub of_exam : String → Item → Bool
of_exam exam_id i = i.exam_id == exam_id

abbrev pub item_count : String → Store → ℕ
item_count exam_id d = count_where (of_exam exam_id) d.items

unfoldable pub total_of : List ExamNodeBundleItem → Score
total_of [] = 0
total_of (i ∷ is) = i.points + total_of is

-- The row of the exam, as the bundle says.
abbrev pub exam_of : BundleTools → ExamNodeBundle → Time → Exam
exam_of tools b loaded_at = record {
  id = b.exam.id;
  deployment_id = b.deployment_id;
  title = b.exam.title;
  instruction = b.exam.instruction;
  starts_at = whole_seconds b.exam.starts_at;
  ends_at = whole_seconds b.exam.ends_at;
  duration_minutes = b.exam.duration_minutes;
  max_attempts = b.exam.max_attempts;
  shuffle_questions = b.exam.shuffle_questions;
  shuffle_options = b.exam.shuffle_options;
  show_result_immediately = b.exam.show_result_immediately;
  passing_score = b.exam.passing_score;
  result_selection_policy = b.exam.result_selection_policy;
  max_score = total_of b.items;
  has_manual_items = any_where (λ i. i.requires_manual_grading) b.items;
  access_code_prefix = access_prefix b.participants;
  bundle_checksum = b.checksum;
  content_hash =
      content_hash tools.content (bundle_items b) (bundle_participants b) (bundle_exam b);
  roster_revision = 0;
  fenced_at = none;
  loaded_at = loaded_at;
}

max_score_of-total_of : (is : List ExamNodeBundleItem) → max_score_of is ≡ total_of is
unfolding max_score_of total_of
max_score_of-total_of [] = refl
max_score_of-total_of (i ∷ is) = ap (λ n. i.points + n) (max_score_of-total_of is)

any_manual_item-any_where :
    (is : List ExamNodeBundleItem)
    → any_manual_item is ≡ any_where (λ i. i.requires_manual_grading) is
unfolding any_manual_item any_where
any_manual_item-any_where [] = refl
any_manual_item-any_where (i ∷ is) =
    ap (λ x. i.requires_manual_grading || x) (any_manual_item-any_where is)

pub hashed_exam-exam_of :
    (tools : BundleTools) (b : ExamNodeBundle) (at : Time)
    → to_exam_model (hashed_exam tools b) at ≡ exam_of tools b at
hashed_exam-exam_of tools b at =
    ap (λ n. record (to_exam_model (hashed_exam tools b) at) { max_score = n })
      (max_score_of-total_of b.items)
    ∙ ap (λ x. record (exam_of tools b at) { has_manual_items = x })
        (any_manual_item-any_where b.items)

-- The row of an item, as the bundle says.
abbrev pub item_of : ExamNodeBundle → ExamNodeBundleItem → Item
item_of b i = record {
  id = i.id;
  exam_id = b.exam.id;
  section_id = i.section_id;
  section_title = section_title b.sections i.section_id;
  section_sort_order = section_order b.sections i.section_id;
  sort_order = i.sort_order;
  question_type = i.question_type;
  prompt_snapshot = i.prompt_snapshot;
  options_snapshot_json = i.options_snapshot_json;
  answer_key_snapshot_json = i.answer_key_snapshot_json;
  rubric_criteria = i.rubric_criteria;
  points = i.points;
  requires_manual_grading = i.requires_manual_grading;
}

-- The items of the exam are those of the bundle: as many, and each is there under its id.
abbrev pub Whole : ExamNodeBundle → List ExamNodeBundleItem → List Item → Type 0
Whole b bs rows =
    (count_where (of_exam b.exam.id) rows ≡ length bs)
    × All (λ i. find? (λ r. r.id == i.id) rows ≡ some (item_of b i)) bs

-- The exam of the bundle is there, with the items of the bundle.
pub record Stored (tools : BundleTools) (b : ExamNodeBundle) (d : Store) : Type 0 where
  pub loaded_at : Time
  pub exam : exam_row d b.exam.id ≡ some (exam_of tools b loaded_at)
  pub items : Whole b b.items d.items
