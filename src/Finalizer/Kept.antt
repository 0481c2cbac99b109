-- ===== src/Finalizer/Kept.antt =====
-- Finalizing keeps the invariant, whatever fails on the way.
use bangkusekolah_exam_node.Base.{◌≡◌, Bool, true, String, ◌==◌, some, List, arith, All-find?}
use bangkusekolah_exam_node.Entity.{Time, Exam, Attempt, Answer, is_in_progress, attempt_not_found}
use bangkusekolah_exam_node.Store.{ParticipantRow}
use bangkusekolah_exam_node.Exec.{time_now}
use bangkusekolah_exam_node.Exec.Hoare.{
  Hoare, Hoare-bind, Hoare-pure, Hoare-if, Hoare-query, Hoare-lookup, Hoare-time_now, Hoare-atomic,
}
use bangkusekolah_exam_node.Repository.{
  find_attempt_by_id, find_exam_by_id, list_answers_by_attempt, attempt_row, update_attempt,
}
use bangkusekolah_exam_node.Invariant.{Fits, Kept, IsFinal, update_attempt-Kept}
use bangkusekolah_exam_node.Finalizer.{
  finalized, finalize_open, finalize_attempt_locked, finalize_attempt,
}

finalized-IsFinal :
    (ps : List ParticipantRow) (a : Attempt) (exam : Exam) (answers : List Answer) (now : Time)
    (auto : Bool)
    → is_in_progress a.status ≡ true
    → Fits ps a
    → IsFinal (finalized a exam answers now auto)
unfolding finalized
finalized-IsFinal ps a exam answers now auto live fits = ground (arith, fits.consistent)

find_exam_by_id-Kept :
    (ps : List ParticipantRow) (id : String)
    → Hoare (Kept ps) (find_exam_by_id id) (λ _. Kept ps) (Kept ps)
unfolding find_exam_by_id
find_exam_by_id-Kept ps id = Hoare-query _ (λ d k. k) (λ d a k e. k)

list_answers-Kept :
    (ps : List ParticipantRow) (id : String)
    → Hoare (Kept ps) (list_answers_by_attempt id) (λ _. Kept ps) (Kept ps)
unfolding list_answers_by_attempt
list_answers-Kept ps id = Hoare-query _ (λ d k. k) (λ d a k e. k)

finalize_open-Kept :
    (ps : List ParticipantRow) (a : Attempt) (auto : Bool)
    → is_in_progress a.status ≡ true
    → Fits ps a
    → Hoare (Kept ps) (finalize_open a auto) (λ _. Kept ps) (Kept ps)
unfolding finalize_open
finalize_open-Kept ps a auto live fits =
    Hoare-bind (λ _. Kept ps) (find_exam_by_id a.exam_id) _ (find_exam_by_id-Kept ps a.exam_id)
      λ exam.
        Hoare-bind (λ _. Kept ps) (list_answers_by_attempt a.id) _ (list_answers-Kept ps a.id)
          λ answers.
            Hoare-bind (λ _. Kept ps) time_now _ Hoare-time_now
              λ now.
                Hoare-bind (λ _. Kept ps) (update_attempt (finalized a exam answers now auto)) _
                  (update_attempt-Kept ps _
                    (finalized-IsFinal ps a exam answers now auto live fits))
                  λ _. Hoare-pure _ (λ d k. k)

pub finalize_attempt_locked-Kept :
    (ps : List ParticipantRow) (id : String) (auto : Bool)
    → Hoare (Kept ps) (finalize_attempt_locked id auto) (λ _. Kept ps) (Kept ps)
unfolding finalize_attempt_locked
finalize_attempt_locked-Kept ps id auto =
    Hoare-bind (λ a d. Kept ps d × (attempt_row d id ≡ some a)) (find_attempt_by_id id) _
      (unfold find_attempt_by_id in
        Hoare-lookup (Kept ps) (λ d. attempt_row d id) attempt_not_found)
      λ a.
        Hoare-if _ _ _
          (λ live. record {
            at = λ w p.
                (finalize_open-Kept ps a auto live
                    (All-find? (Fits ps) (λ r. r.id == id) w.db.attempts p.0.1 p.1)).at
                  w p.0;
          })
          (λ _. Hoare-pure _ (λ d p. p.0))

pub finalize_attempt-Kept :
    (ps : List ParticipantRow) (id : String) (auto : Bool)
    → Hoare (Kept ps) (finalize_attempt id auto) (λ _. Kept ps) (Kept ps)
unfolding finalize_attempt
finalize_attempt-Kept ps id auto =
    Hoare-atomic (finalize_attempt_locked id auto) (Kept ps) (λ d k. k)
      (finalize_attempt_locked-Kept ps id auto)
