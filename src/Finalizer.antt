-- ===== src/Finalizer.antt =====
-- Finalizing an attempt (app/service/attempt_finalizer.go, and finalizeStatus of
-- app/service/attempt_service.go), shared by the student's requests and the sweeper.
pub mod Kept
pub mod Result
use bangkusekolah_exam_node.Base.{
  ◌+◌, Bool, true, false, ◌||◌, String, Option, none, some, List, [], ◌∷◌, if◌then◌else◌,
}
use bangkusekolah_exam_node.Entity.{
  Time, Score, Exam, Attempt, AttemptStatus, GradingStatus, Answer, is_in_progress,
  is_manual_required,
}
use bangkusekolah_exam_node.Exec.{M, pure, ◌>>=◌, ◌>>◌, atomic, time_now}
use bangkusekolah_exam_node.Repository.{
  find_attempt_by_id, find_exam_by_id, list_answers_by_attempt, update_attempt,
}

abbrev pub points_of : Option Score → Score
points_of none = 0
points_of (some s) = s

-- The loop of finalizeStatus.
unfoldable pub finalize_loop : Score → Bool → List Answer → Score × Bool
finalize_loop total has_manual [] = (total, has_manual)
finalize_loop total has_manual (ans ∷ rest) =
    finalize_loop (total + points_of ans.score)
      (has_manual || is_manual_required ans.grading_status) rest

unfoldable pub finalize_status : List Answer → Bool → Score × GradingStatus
unfolding finalize_loop
finalize_status answers has_manual_items =
    let (total, has_manual) = finalize_loop 0 has_manual_items answers in
    (total, if has_manual then GradingStatus.manual_required else GradingStatus.auto_graded)

-- The assignments to the attempt before it is written.
unfoldable pub finalized : Attempt → Exam → List Answer → Time → Bool → Attempt
unfolding finalize_status
finalized attempt exam answers now auto =
    let (total, grading) = finalize_status answers exam.has_manual_items in
    record attempt {
      score = some total;
      grading_status = grading;
      submitted_at = some now;
      status = if auto then AttemptStatus.auto_submitted else AttemptStatus.submitted;
      auto_submitted_at = if auto then some now else attempt.auto_submitted_at;
    }

unfoldable pub finalize_open : Attempt → Bool → M (Attempt × Bool)
unfolding finalized
finalize_open attempt auto = do
  exam ← find_exam_by_id attempt.exam_id
  answers ← list_answers_by_attempt attempt.id
  now ← time_now
  let done = finalized attempt exam answers now auto
  update_attempt done
  pure (done, true)

-- The attempt as it then is, and whether this call finalized it.
unfoldable pub finalize_attempt_locked : String → Bool → M (Attempt × Bool)
unfolding finalize_open
finalize_attempt_locked attempt_id auto = do
  attempt ← find_attempt_by_id attempt_id
  if is_in_progress attempt.status then finalize_open attempt auto else pure (attempt, false)

unfoldable pub finalize_attempt : String → Bool → M (Attempt × Bool)
unfolding finalize_attempt_locked
finalize_attempt attempt_id auto = atomic (finalize_attempt_locked attempt_id auto)
