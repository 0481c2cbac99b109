-- ===== src/Attempt/State.antt =====
-- Asking for the state of an overdue attempt (app/service/attempt_service.go).
use bangkusekolah_exam_node.Base.{
  ℕ, ◌+◌, ◌≡◌, sym, subst, true, ◌||◌, if◌then◌else◌, String, ◌==◌, eq_iff, some, List, arith, ltb,
  find?-some,
}
use bangkusekolah_exam_node.Entity.{
  Time, Exam, Attempt, AttemptStatus, GradingStatus, is_in_progress,
}
use bangkusekolah_exam_node.Store.{Store}
use bangkusekolah_exam_node.Exec.{ok, calm, query, time_now, AnswerColumn}
use bangkusekolah_exam_node.Repository.{
  attempt_row, exam_row, answer_rows, find_attempt_by_id, list_answers_by_attempt,
}
use bangkusekolah_exam_node.Finalizer.{finalized}
use bangkusekolah_exam_node.Finalizer.Result.{
  total_points, any_manual, finalized-closed, finalize_attempt-calm,
}
use bangkusekolah_exam_node.Attempt.{refresh, get_attempt_state}

state-finalizes :
    (d : Store) (now : Time) (uuid : ℕ → String) (order : List AnswerColumn) (id pid : String)
    (a : Attempt) (exam : Exam)
    → attempt_row d id ≡ some a
    → (a.participant_id == pid) ≡ true
    → is_in_progress a.status ≡ true
    → ltb a.due_at now ≡ true
    → exam_row d a.exam_id ≡ some exam
    → (get_attempt_state pid id (calm d now uuid order)).0
      ≡ ok (record {
        attempt = finalized a exam (answer_rows d a.id) now true;
        answers = answer_rows d id;
        server_time = now;
      })
unfolding get_attempt_state refresh find_attempt_by_id list_answers_by_attempt query time_now
state-finalizes d now uuid order id pid a exam found mine live late loaded =
    let named : a.id ≡ id = (eq_iff a.id id).0 (find?-some (λ r. r.id == id) d.attempts found) in
    let at_id : attempt_row d a.id ≡ some a =
      subst (λ i. attempt_row d i ≡ some a) (sym named) found in
    let still : now + 0 ≡ now = ground arith in
    rw (
      found,
      mine,
      still,
      live,
      late,
      finalize_attempt-calm d now uuid order id true a exam at_id live loaded,
    )

-- Where no statement fails, a participant who asks for the state of an own attempt that is still
-- in progress after its due time, and whose exam is loaded, gets it as auto-submitted now: with the
-- sum of the scores of the answers that were saved, graded automatically unless the exam has manual
-- items or an answer is marked manual_required, otherwise as it was, and with these answers.
pub get_attempt_state-finalizes :
    (d : Store) (now : Time) (uuid : ℕ → String) (order : List AnswerColumn) (id pid : String)
    (a : Attempt) (exam : Exam)
    → attempt_row d id ≡ some a
    → (a.participant_id == pid) ≡ true
    → is_in_progress a.status ≡ true
    → ltb a.due_at now ≡ true
    → exam_row d a.exam_id ≡ some exam
    → let saved = answer_rows d a.id in
      (get_attempt_state pid id (calm d now uuid order)).0
      ≡ ok (record {
        attempt = record a {
          score = some (total_points saved);
          grading_status =
              if exam.has_manual_items || any_manual saved
              then GradingStatus.manual_required
              else GradingStatus.auto_graded;
          submitted_at = some now;
          status = AttemptStatus.auto_submitted;
          auto_submitted_at = some now;
        };
        answers = answer_rows d id;
        server_time = now;
      })
get_attempt_state-finalizes d now uuid order id pid a exam found mine live late loaded =
    subst
      (λ done.
        (get_attempt_state pid id (calm d now uuid order)).0
        ≡ ok (record { attempt = done; answers = answer_rows d id; server_time = now }))
      (finalized-closed a exam (answer_rows d a.id) now true)
      (state-finalizes d now uuid order id pid a exam found mine live late loaded)
