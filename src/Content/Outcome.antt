-- ===== src/Content/Outcome.antt =====
-- What a rebuild leaves behind (RebuildExam of app/service/content_service.go).
use bangkusekolah_exam_node.Base.{ℕ, ◌≡◌, String, Option, true, arith, at_key-put}
use bangkusekolah_exam_node.Entity.{Err, exam_content_not_ready}
use bangkusekolah_exam_node.Exec.{World, Result, ok, err}
use bangkusekolah_exam_node.Content.{
  ExamContent, ContentCache, ContentService, mark_unready, is_current, publish, get_exam_content,
}
use bangkusekolah_exam_node.Content.Rebuild.{read_content, publish_read, rebuild_exam}

mark_unready-refuses :
    (e : String) (cause : Err) (s : ContentService)
    → get_exam_content e (mark_unready e cause s) ≡ err exam_content_not_ready
unfolding mark_unready get_exam_content
mark_unready-refuses e cause s = rw (at_key-put e cause s.unready, get_exam_content)

module _ (render : ExamContent → Result ContentCache) where
  publish_read-fails_closed :
      (e : String) (token : Option ℕ) (s : ContentService) (r : Result ExamContent) (x : Err)
      → is_current e token s ≡ true
      → (publish_read render e token r s).0 ≡ err x
      → get_exam_content e (publish_read render e token r s).1 ≡ err exam_content_not_ready
  unfolding publish_read publish
  publish_read-fails_closed e token s (err y) x current failed = mark_unready-refuses e y s
  publish_read-fails_closed e token s (ok content) x current failed =
      rendered (render content) failed
    where
      rendered :
          (r : Result ContentCache)
          → let step = elim r as (λ _. Result (Unit {0}) × ContentService) [
            | err y ↦ (err y, mark_unready e y s)
            | ok c ↦ publish e token c s
          ] in
            step.0 ≡ err x → get_exam_content e step.1 ≡ err exam_content_not_ready
      rendered (err y) h = mark_unready-refuses e y s
      rendered (ok c) h = ground (arith)

  -- When a rebuild that holds the current token (or needs none) fails, whatever failed in it, the
  -- exam is refused afterwards: the old content is not served any more.
  pub rebuild_exam-fails_closed :
      (e : String) (token : Option ℕ) (s : ContentService) (w : World) (x : Err)
      → is_current e token s ≡ true
      → (rebuild_exam render e token s w).0.0 ≡ err x
      → get_exam_content e (rebuild_exam render e token s w).0.1 ≡ err exam_content_not_ready
  unfolding rebuild_exam
  rebuild_exam-fails_closed e token s w x current =
      rw current (publish_read-fails_closed e token s (read_content e w).0 x current)
