-- ===== src/StudentExam.antt =====
-- The exams of a student (app/service/student_exam_service.go): the one that the participant of the
-- token is enrolled in.
use bangkusekolah_exam_node.Base.{String, List, [], ◌∷◌}
use bangkusekolah_exam_node.Entity.{Exam}
use bangkusekolah_exam_node.Exec.{M, pure, ◌>>=◌}
use bangkusekolah_exam_node.Repository.{find_exam_by_id, find_participant_by_id}

unfoldable list_student_exams : String → M (List Exam)
list_student_exams participant_id = do
  participant ← find_participant_by_id participant_id
  exam ← find_exam_by_id participant.exam_id
  pure (exam ∷ [])
