-- ===== src/Content.antt =====
-- The cache of exam contents (app/service/content_service.go), with the types of
-- app/port/inbound/content_usecase.go. The mutex makes each step here one step of the source;
-- RebuildExam takes it twice, and other operations may come in between.
pub mod Overlap
pub mod Publication
pub mod Rebuild
pub mod Outcome
use bangkusekolah_exam_node.Base.{
  ℕ, ◌+◌, Bool, true, false, ◌&&◌, ◌||◌, not, String, ◌==◌, Option, none, some, List, [], ◌∷◌, map,
  if◌then◌else◌, eqb, ltb, select, text_lt, Dict, at_key, put, delete, keys,
}
use bangkusekolah_exam_node.Json.{Members}
use bangkusekolah_exam_node.Entity.{
  Score, QuestionType, Exam, Item, Err, exam_content_not_ready, exam_not_loaded,
}
use bangkusekolah_exam_node.Exec.{M, World, Result, ok, err, query, try, pure, ◌>>=◌}
use bangkusekolah_exam_node.Repository.{find_exam_by_id}

pub record ExamItemDto : Type 0 where
  pub id : String
  pub section_id : String
  pub section_title : String
  pub section_sort_order : ℕ
  pub sort_order : ℕ
  pub question_type : QuestionType
  pub prompt : String
  pub options : List Members
  pub points : Score
  pub requires_manual_grading : Bool

pub record ExamContent : Type 0 where
  pub exam : Exam
  pub items : List ExamItemDto

pub record ContentCache : Type 0 where
  pub content : ExamContent
  pub etag : String
  pub gzip_bytes : String
  pub raw_bytes : String

-- The generations are a Go map of numbers, where a missing key reads as 0. An error that wraps a
-- sentinel is the sentinel.
pub record ContentService : Type 0 where
  pub cache : Dict ContentCache
  pub unready : Dict Err
  pub generation : String → ℕ

abbrev pub new_content_service : ContentService
new_content_service = record { cache = []; unready = []; generation = λ _. 0 }

abbrev pub bump : String → (String → ℕ) → String → ℕ
bump exam_id generation id = if id == exam_id then generation id + 1 else generation id

-- BeginRebuild; the token is the generation afterwards.
unfoldable pub begin_rebuild : String → ContentService → ℕ × ContentService
begin_rebuild exam_id s = (
  s.generation exam_id + 1,
  record s {
    generation = bump exam_id s.generation;
    unready = put exam_id exam_content_not_ready s.unready;
  },
)

unfoldable pub mark_unready : String → Err → ContentService → ContentService
mark_unready exam_id cause s = record s { unready = put exam_id cause s.unready }

abbrev pub settle_cancelled : String → ContentService → Option ContentCache → ContentService
settle_cancelled exam_id s none = record s { unready = delete exam_id s.unready }
settle_cancelled exam_id s (some cached) = record s {
  unready = put exam_id exam_content_not_ready s.unready;
}

-- CancelRebuild, and whether the token was still the current one.
unfoldable pub cancel_rebuild : String → ℕ → ContentService → Bool × ContentService
cancel_rebuild exam_id token s =
    if not (eqb (s.generation exam_id) token)
    then (false, s)
    else (true, settle_cancelled exam_id s (at_key exam_id s.cache))

-- RebuildExam without a token is current.
abbrev pub is_current : String → Option ℕ → ContentService → Bool
is_current exam_id none s = true
is_current exam_id (some token) s = eqb (s.generation exam_id) token

-- The last step of RebuildExam, under the lock.
unfoldable pub publish :
    String → Option ℕ → ContentCache → ContentService → Result (Unit {0}) × ContentService
publish exam_id token c s =
    if not (is_current exam_id token s) then (err exam_content_not_ready, s) else (
      ok tt,
      record s {
        cache = put c.content.exam.id c s.cache;
        unready = delete c.content.exam.id s.unready;
      },
    )

-- DropFromCache
unfoldable pub drop_from_cache : String → ContentService → ContentService
drop_from_cache exam_id s = record s { cache = delete exam_id s.cache }

-- UnreadyExams, and CacheReadyExams
abbrev pub unready_exams : ContentService → Dict Err
unready_exams s = s.unready

abbrev pub cache_ready_exams : ContentService → List String
cache_ready_exams s = keys s.cache

abbrev pub cached_or_missing : Option ContentCache → Result ContentCache
cached_or_missing none = err exam_not_loaded
cached_or_missing (some cached) = ok cached

-- GetExamContent
unfoldable pub get_exam_content : String → ContentService → Result ContentCache
get_exam_content exam_id s = elim (at_key exam_id s.unready) [
  | some cause ↦ err exam_content_not_ready
  | none ↦ cached_or_missing (at_key exam_id s.cache)
]
