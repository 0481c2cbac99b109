-- ===== src/Finalizer/Result.antt =====
-- What finalizing an attempt computes and writes (app/service/attempt_finalizer.go, and
-- finalizeStatus of app/service/attempt_service.go).
use bangkusekolah_exam_node.Base.{
  ℕ, ◌+◌, ◌≡◌, refl, ap, sym, Bool, true, false, ◌||◌, ◌&&◌, some, List, [], ◌∷◌, if◌then◌else◌,
  arith, find?, find?-some, find?-update_where, eq_iff, eq_refl, update_where, ◌==◌, subst, String,
}
use bangkusekolah_exam_node.Entity.{
  Time, Score, Exam, Attempt, AttemptStatus, GradingStatus, Answer, is_in_progress,
  is_manual_required,
}
use bangkusekolah_exam_node.Store.{Store}
use bangkusekolah_exam_node.Exec.{ok, atomic, calm, AnswerColumn, query, change, time_now}
use bangkusekolah_exam_node.Repository.{
  attempt_row, exam_row, answer_rows, find_attempt_by_id, find_exam_by_id, list_answers_by_attempt,
  update_attempt, is_open_row, attempt_written, attempt_updated,
}
use bangkusekolah_exam_node.Finalizer.{
  points_of, finalize_loop, finalize_status, finalized, finalize_open, finalize_attempt_locked,
  finalize_attempt,
}

-- What the loop is meant to compute.
unfoldable pub total_points : List Answer → Score
total_points [] = 0
total_points (ans ∷ rest) = points_of ans.score + total_points rest

unfoldable pub any_manual : List Answer → Bool
any_manual [] = false
any_manual (ans ∷ rest) = is_manual_required ans.grading_status || any_manual rest

finalize_loop_lem :
    (total : Score) (m : Bool) (answers : List Answer)
    → finalize_loop total m answers ≡ (total + total_points answers, m || any_manual answers)
unfolding finalize_loop total_points any_manual
finalize_loop_lem total m [] = ground arith
finalize_loop_lem total m (ans ∷ rest) = ground (
  arith,
  finalize_loop_lem (total + points_of ans.score) (m || is_manual_required ans.grading_status) rest,
)

-- The score of a finalized attempt is the sum of the scores of its answers, where an answer
-- without a score counts 0; and its grading status is manual_required exactly when the exam has
-- manual items or some answer is marked manual_required, and auto_graded otherwise.
pub finalize_status-adds_up :
    (answers : List Answer) (manual : Bool)
    → finalize_status answers manual ≡ (
      total_points answers,
      if manual || any_manual answers
          then GradingStatus.manual_required
          else GradingStatus.auto_graded,
    )
unfolding finalize_status
finalize_status-adds_up answers manual = ground (arith, finalize_loop_lem 0 manual answers)

-- The attempt as a finalization is to leave it.
abbrev pub closed : Attempt → Exam → List Answer → Time → Bool → Attempt
closed a exam answers now auto = record a {
  score = some (total_points answers);
  grading_status =
      if exam.has_manual_items || any_manual answers
      then GradingStatus.manual_required
      else GradingStatus.auto_graded;
  submitted_at = some now;
  status = if auto then AttemptStatus.auto_submitted else AttemptStatus.submitted;
  auto_submitted_at = if auto then some now else a.auto_submitted_at;
}

pub finalized-closed :
    (a : Attempt) (exam : Exam) (answers : List Answer) (now : Time) (auto : Bool)
    → finalized a exam answers now auto ≡ closed a exam answers now auto
unfolding finalized
finalized-closed a exam answers now auto =
    ap
      (λ graded. record a {
        score = some graded.0;
        grading_status = graded.1;
        submitted_at = some now;
        status = if auto then AttemptStatus.auto_submitted else AttemptStatus.submitted;
        auto_submitted_at = if auto then some now else a.auto_submitted_at;
      })
      (finalize_status-adds_up answers exam.has_manual_items)

find?-both :
    {A : Type 0} (p q : A → Bool) (xs : List A) (a : A)
    → find? p xs ≡ some a
    → q a ≡ true
    → find? (λ x. p x && q x) xs ≡ some a
unfolding find?
find?-both p q [] a e h = cc
find?-both p q (x ∷ xs) a e h = ground (arith, find?-both p q xs a)

module _ (d : Store) (now : Time) (uuid : ℕ → String) (order : List AnswerColumn) (id : String)
    (auto : Bool) (a : Attempt) where
  update_calm :
      (done : Attempt)
      → done.id ≡ a.id
      → attempt_row d a.id ≡ some a
      → is_in_progress a.status ≡ true
      → attempt_updated done d
        ≡ ok (
          tt,
          record d {
            attempts = update_where (is_open_row done.id) (attempt_written done) d.attempts;
          },
        )
  update_calm done same found live =
      let opened =
        find?-both (λ r. r.id == a.id) (λ r. is_in_progress r.status) d.attempts a found live in
      let mine : find? (is_open_row done.id) d.attempts ≡ some a =
        subst (λ i. find? (is_open_row i) d.attempts ≡ some a) (sym same) opened in
      rw (mine, attempt_updated)

  finalize_open-calm :
      (exam : Exam)
      → attempt_row d a.id ≡ some a
      → is_in_progress a.status ≡ true
      → exam_row d a.exam_id ≡ some exam
      → let done = finalized a exam (answer_rows d a.id) now auto in
        finalize_open a auto (calm d now uuid order) ≡ (
          ok (done, true),
          calm
              (record d {
                attempts = update_where (is_open_row a.id) (attempt_written done) d.attempts;
              })
              now
              uuid
              order,
        )
  unfolding finalize_open find_exam_by_id list_answers_by_attempt update_attempt query change
      time_now finalized
  finalize_open-calm exam found live loaded =
      let still : now + 0 ≡ now = ground arith in
      rw (
        loaded,
        update_calm (finalized a exam (answer_rows d a.id) now auto) refl found live,
        still,
      )

  pub finalize_attempt-calm :
      (exam : Exam)
      → attempt_row d a.id ≡ some a
      → is_in_progress a.status ≡ true
      → exam_row d a.exam_id ≡ some exam
      → let done = finalized a exam (answer_rows d a.id) now auto in
        finalize_attempt a.id auto (calm d now uuid order) ≡ (
          ok (done, true),
          calm
              (record d {
                attempts = update_where (is_open_row a.id) (attempt_written done) d.attempts;
              })
              now
              uuid
              order,
        )
  unfolding finalize_attempt finalize_attempt_locked find_attempt_by_id atomic query
  finalize_attempt-calm exam found live loaded =
      rw (found, live, finalize_open-calm exam found live loaded)

  written_row :
      (done : Attempt)
      → done.id ≡ a.id
      → attempt_row d a.id ≡ some a
      → is_in_progress a.status ≡ true
      → find?
          (λ r. r.id == a.id)
          (update_where (is_open_row a.id) (attempt_written done) d.attempts)
        ≡ some (attempt_written done a)
  written_row done same found live = ground (
    arith,
    eq_refl a.id,
    find?-update_where (is_open_row a.id) (λ r. r.id == a.id) (attempt_written done) d.attempts
        (λ r. refl),
  )

  by_id :
      (exam : Exam)
      → attempt_row d a.id ≡ some a
      → is_in_progress a.status ≡ true
      → exam_row d a.exam_id ≡ some exam
      → let done = finalized a exam (answer_rows d a.id) now auto in
        let r = finalize_attempt a.id auto (calm d now uuid order) in
        (r.0 ≡ ok (done, true)) × (attempt_row r.1.db a.id ≡ some done)
  unfolding finalized
  by_id exam at_id live loaded =
      rw (finalize_attempt-calm exam at_id live loaded)
        (refl, written_row (finalized a exam (answer_rows d a.id) now auto) refl at_id live)

  pub finalize_attempt-finalizes :
      (exam : Exam)
      → attempt_row d id ≡ some a
      → is_in_progress a.status ≡ true
      → exam_row d a.exam_id ≡ some exam
      → let done = finalized a exam (answer_rows d a.id) now auto in
        let r = finalize_attempt id auto (calm d now uuid order) in
        (r.0 ≡ ok (done, true)) × (attempt_row r.1.db id ≡ some done)
  finalize_attempt-finalizes exam found live loaded =
      let named : a.id ≡ id = (eq_iff a.id id).0 (find?-some (λ r. r.id == id) d.attempts found) in
      subst
        (λ i.
          let r = finalize_attempt i auto (calm d now uuid order) in
          (r.0 ≡ ok (finalized a exam (answer_rows d a.id) now auto, true))
          × (attempt_row r.1.db i ≡ some (finalized a exam (answer_rows d a.id) now auto)))
        named (by_id exam (subst (λ i. attempt_row d i ≡ some a) (sym named) found) live loaded)

  -- Where no statement fails, finalizing an attempt that is in progress and whose exam is loaded
  -- returns it, as the call that finalized it: its score is the sum of its answers' scores, it is
  -- graded automatically unless the exam has manual items or an answer is marked manual_required,
  -- it is submitted now, and auto-submitted now where the sweeper or a late request asks; the rest
  -- of it is as before, and its row is then this very attempt.
  pub finalize_attempt-writes :
      (exam : Exam)
      → attempt_row d id ≡ some a
      → is_in_progress a.status ≡ true
      → exam_row d a.exam_id ≡ some exam
      → let answers = answer_rows d a.id in
        let done = record a {
          score = some (total_points answers);
          grading_status =
              if exam.has_manual_items || any_manual answers
              then GradingStatus.manual_required
              else GradingStatus.auto_graded;
          submitted_at = some now;
          status = if auto then AttemptStatus.auto_submitted else AttemptStatus.submitted;
          auto_submitted_at = if auto then some now else a.auto_submitted_at;
        } in
        let r = finalize_attempt id auto (calm d now uuid order) in
        (r.0 ≡ ok (done, true)) × (attempt_row r.1.db id ≡ some done)
  finalize_attempt-writes exam found live loaded =
      subst
        (λ done.
          let r = finalize_attempt id auto (calm d now uuid order) in
          (r.0 ≡ ok (done, true)) × (attempt_row r.1.db id ≡ some done))
        (finalized-closed a exam (answer_rows d a.id) now auto)
        (finalize_attempt-finalizes exam found live loaded)

  -- Where no statement fails, an attempt that is in progress and whose exam is loaded is finalized
  -- once: finalizing it again, at any later time and of either kind, returns the attempt as the
  -- first call left it, as a call that did not finalize it, and changes nothing.
  pub finalize_attempt-once :
      (exam : Exam) (later : Time) (auto' : Bool)
      → attempt_row d id ≡ some a
      → is_in_progress a.status ≡ true
      → exam_row d a.exam_id ≡ some exam
      → let r = finalize_attempt id auto (calm d now uuid order) in
        finalize_attempt id auto' (calm r.1.db later uuid order)
        ≡ (ok (closed a exam (answer_rows d a.id) now auto, false), calm r.1.db later uuid order)
  unfolding finalize_attempt finalize_attempt_locked find_attempt_by_id atomic query
  finalize_attempt-once exam later auto' found live loaded =
      again (finalize_attempt id auto (calm d now uuid order)).1.db
        (finalize_attempt-writes exam found live loaded).1
    where
      over :
          (b : Bool)
          → is_in_progress (if b then AttemptStatus.auto_submitted else AttemptStatus.submitted)
            ≡ false
      over true = refl
      over false = refl

      again :
          (db : Store)
          → attempt_row db id ≡ some (closed a exam (answer_rows d a.id) now auto)
          → finalize_attempt id auto' (calm db later uuid order)
            ≡ (ok (closed a exam (answer_rows d a.id) now auto, false), calm db later uuid order)
      again db left = rw (left, over auto)
