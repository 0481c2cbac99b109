-- ===== src/Attempt/Submit.antt =====
-- Submitting an attempt (app/service/attempt_service.go, app/service/attempt_finalizer.go).
use bangkusekolah_exam_node.Base.{
  ℕ, ◌+◌, ◌≡◌, refl, subst, true, false, ◌||◌, if◌then◌else◌, String, ◌==◌, some, List, arith, ltb,
}
use bangkusekolah_exam_node.Entity.{
  Time, Exam, Attempt, AttemptStatus, GradingStatus, in_progress, submitted, auto_submitted, graded,
  is_in_progress, finished_status,
}
use bangkusekolah_exam_node.Store.{Store}
use bangkusekolah_exam_node.Exec.{ok, calm, query, time_now, AnswerColumn}
use bangkusekolah_exam_node.Repository.{attempt_row, exam_row, answer_rows, find_attempt_by_id}
use bangkusekolah_exam_node.Finalizer.{finalized, finalize_attempt}
use bangkusekolah_exam_node.Finalizer.Result.{
  total_points, any_manual, finalized-closed, finalize_attempt-finalizes,
}
use bangkusekolah_exam_node.Attempt.{submit_open, submit_attempt}

open-unfinished : (s : AttemptStatus) → is_in_progress s ≡ true → finished_status s ≡ false
open-unfinished in_progress live = refl
open-unfinished submitted live = cc
open-unfinished auto_submitted live = cc
open-unfinished graded live = cc

module _ (id pid : String) (uuid : ℕ → String) (order : List AnswerColumn) where
  -- A finished attempt is returned as it is.
  submit_finished :
      (d : Store) (now : Time) (a : Attempt)
      → attempt_row d id ≡ some a
      → (a.participant_id == pid) ≡ true
      → finished_status a.status ≡ true
      → submit_attempt id pid (calm d now uuid order) ≡ (ok a, calm d now uuid order)
  unfolding submit_attempt find_attempt_by_id query
  submit_finished d now a found mine over = rw (found, mine, over)

  module _ (d : Store) (now : Time) (a : Attempt) (exam : Exam) (found : attempt_row d id ≡ some a)
      (mine : (a.participant_id == pid) ≡ true) (live : is_in_progress a.status ≡ true)
      (in_time : ltb a.due_at now ≡ false) (loaded : exam_row d a.exam_id ≡ some exam) where
    submit-finalizes :
        (r : _)
        → finalize_attempt id false (calm d now uuid order) ≡ r
        → r.0 ≡ ok (finalized a exam (answer_rows d a.id) now false, true)
        → submit_attempt id pid (calm d now uuid order)
          ≡ (ok (finalized a exam (answer_rows d a.id) now false), r.1)
    unfolding submit_attempt submit_open find_attempt_by_id query time_now
    submit-finalizes r same done =
        let still : now + 0 ≡ now = ground arith in
        rw (found, mine, open-unfinished a.status live, live, still, in_time, same, done)

    submit-returns :
        (later : Time)
        → let done = finalized a exam (answer_rows d a.id) now false in
          let r = submit_attempt id pid (calm d now uuid order) in
          (r.0 ≡ ok done)
          × (submit_attempt id pid (calm r.1.db later uuid order)
              ≡ (ok done, calm r.1.db later uuid order))
    unfolding finalized
    submit-returns later =
        let w = finalize_attempt-finalizes d now uuid order id false a exam found live loaded in
        let first = submit-finalizes (finalize_attempt id false (calm d now uuid order)) refl w.0 in
        let again =
          submit_finished (finalize_attempt id false (calm d now uuid order)).1.db later
            (finalized a exam (answer_rows d a.id) now false) w.1 mine refl in
        rw first (refl, again)

    -- Where no statement fails, a participant who submits an own attempt that is in progress, in
    -- time and of a loaded exam gets it back as submitted now, with the sum of its answers' scores,
    -- graded automatically unless the exam has manual items or an answer is marked manual_required,
    -- and otherwise as it was; and submitting it again, at any later time, returns the very same
    -- attempt and changes nothing.
    pub submit_attempt-once :
        (later : Time)
        → let answers = answer_rows d a.id in
          let done = record a {
            score = some (total_points answers);
            grading_status =
                if exam.has_manual_items || any_manual answers
                then GradingStatus.manual_required
                else GradingStatus.auto_graded;
            submitted_at = some now;
            status = AttemptStatus.submitted;
          } in
          let r = submit_attempt id pid (calm d now uuid order) in
          (r.0 ≡ ok done)
          × (submit_attempt id pid (calm r.1.db later uuid order)
              ≡ (ok done, calm r.1.db later uuid order))
    submit_attempt-once later =
        subst
          (λ done.
            let r = submit_attempt id pid (calm d now uuid order) in
            (r.0 ≡ ok done)
            × (submit_attempt id pid (calm r.1.db later uuid order)
                ≡ (ok done, calm r.1.db later uuid order)))
          (finalized-closed a exam (answer_rows d a.id) now false) (submit-returns later)
