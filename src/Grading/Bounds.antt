-- ===== src/Grading/Bounds.antt =====
-- What a grade can be (app/domain/grading/grading.go).
use bangkusekolah_exam_node.Base.{
  ◌≡◌, refl, ◌⊎◌, inl, inr, Bool, true, false, Option, none, some, Bool-cases,
}
use bangkusekolah_exam_node.Json.{Members, is_empty_object}
use bangkusekolah_exam_node.Entity.{
  Score, QuestionType, single_choice, multiple_choice, true_false, short_answer, essay, matching,
  ordering, other, Item,
}
use bangkusekolah_exam_node.Grading.{is_objective, full_if, grade_given, grade_objective_answer}

-- All or nothing.
abbrev pub AllOrNothing : Item → Score × Bool → Type 0
AllOrNothing item r =
    (r.1 ≡ is_objective item.question_type) × ((r.0 ≡ 0) ⊎ ((r.0 ≡ item.points) × (r.1 ≡ true)))

full_if-AllOrNothing :
    (item : Item) (right : Bool)
    → is_objective item.question_type ≡ true
    → AllOrNothing item (full_if item right)
full_if-AllOrNothing item true h = (rw h refl, inr (refl, refl))
full_if-AllOrNothing item false h = (rw h refl, inl refl)

grade_given-AllOrNothing :
    (q : QuestionType) (item : Item) (given : Members)
    → item.question_type ≡ q
    → AllOrNothing item (grade_given q item given)
unfolding grade_given
grade_given-AllOrNothing single_choice item given e = full_if-AllOrNothing item _ (rw e)
grade_given-AllOrNothing multiple_choice item given e = full_if-AllOrNothing item _ (rw e)
grade_given-AllOrNothing true_false item given e = full_if-AllOrNothing item _ (rw e)
grade_given-AllOrNothing short_answer item given e = full_if-AllOrNothing item _ (rw e)
grade_given-AllOrNothing matching item given e = full_if-AllOrNothing item _ (rw e)
grade_given-AllOrNothing ordering item given e = full_if-AllOrNothing item _ (rw e)
grade_given-AllOrNothing essay item given e = (rw e refl, inl refl)
grade_given-AllOrNothing (other s) item given e = (rw e refl, inl refl)

-- Whatever the question and the answer are, an answer is graded exactly when its question's type
-- is an objective one, and the grade is either nothing or, for a graded answer, the item's points.
pub grade_objective_answer-all_or_nothing :
    (item : Item) (given : Option Members)
    → let r = grade_objective_answer item given in
      (r.1 ≡ is_objective item.question_type) × ((r.0 ≡ 0) ⊎ ((r.0 ≡ item.points) × (r.1 ≡ true)))
unfolding grade_objective_answer
grade_objective_answer-all_or_nothing item none = (refl, inl refl)
grade_objective_answer-all_or_nothing item (some given) =
    elim (Bool-cases (is_empty_object given)) [
      | inl blank ↦ rw blank (refl, inl refl)
      | inr filled ↦ rw filled (grade_given-AllOrNothing item.question_type item given refl)
    ]
