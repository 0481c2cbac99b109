-- ===== src/Examples/Cache.antt =====
-- Two exams in the content cache.
use bangkusekolah_exam_node.Base.{
  ◌≡◌, ◌⊎◌, ◌↔◌, eq_iff, refl, true, keys, none, some, List, [], ◌∷◌, find?, at_key, arith,
}
use bangkusekolah_exam_node.Entity.{exam_content_not_ready, exam_not_loaded}
use bangkusekolah_exam_node.Exec.{Result, ok, err, query}
use bangkusekolah_exam_node.Repository.{find_exam_by_id}
use bangkusekolah_exam_node.Content.{
  ExamContent, ContentCache, ContentService, new_content_service, begin_rebuild, cancel_rebuild,
  publish, drop_from_cache, get_exam_content,
}
use bangkusekolah_exam_node.Content.Publication.{
  begin_rebuild-closes, publish-serves, cancel_rebuild-settles, refusal,
}
use bangkusekolah_exam_node.Content.Overlap.{Step, cancels, publishes, drops, prunes, after_steps}
use bangkusekolah_exam_node.Content.Rebuild.{rebuild_exam, read_content, publish_read}
use bangkusekolah_exam_node.Content.Outcome.{rebuild_exam-fails_closed}
use bangkusekolah_exam_node.Readiness.{awaiting_rebuild, ready, readyz}
use bangkusekolah_exam_node.Readiness.Sets.{Serves, readyz-Serves}
use bangkusekolah_exam_node.Examples.{math, no_exam, world_of}

abbrev cached : ContentCache
cached = record {
  content = record { exam = math; items = [] };
  etag = "e";
  gzip_bytes = "z";
  raw_bytes = "[]";
}

abbrev art : ContentCache
art = record cached { content = record { exam = record math { id = "art" }; items = [] } }

abbrev loaded : ContentService
loaded = record new_content_service { cache = ("math", cached) ∷ [] }

-- A new content of another exam, an older token of the same one, and the end of a reload that listed
-- only the other.
abbrev meanwhile : List Step
meanwhile =
    publishes "art" none art
    ∷ publishes "math" (some 0) cached
    ∷ cancels "math" 0
    ∷ drops "art"
    ∷ prunes ("art" ∷ [])
    ∷ []

begin_rebuild-closes_example :
    let answer = get_exam_content "math" (after_steps meanwhile (begin_rebuild "math" loaded).1) in
    (answer ≡ err exam_content_not_ready) ⊎ (answer ≡ err exam_not_loaded)
unfolding begin_rebuild after_steps publish cancel_rebuild drop_from_cache
begin_rebuild-closes_example =
    begin_rebuild-closes "math" meanwhile loaded
      (
        (refl, λ clash. ground (arith, (eq_iff "art" "math").1 clash)),
        ((refl, λ _ clash. ground arith), (λ _ clash. ground arith, (tt, (tt, tt)))),
      )
      refl

publish-serves_example :
    let r = publish "art" (some 0) art loaded in
    (get_exam_content "art" r.1 ≡ ok art)
    × (get_exam_content "math" r.1 ≡ get_exam_content "math" loaded)
publish-serves_example = publish-serves "art" "math" (some 0) art loaded refl refl refl

cancel_rebuild-settles_example :
    get_exam_content "math" (cancel_rebuild "math" 0 loaded).1
    ≡ refusal (at_key "math" loaded.cache)
cancel_rebuild-settles_example = cancel_rebuild-settles "math" 0 loaded refl

abbrev renders : ExamContent → Result ContentCache
renders content = ok (record cached { content = content })

rebuild_exam-fails_closed_example :
    get_exam_content "math" (rebuild_exam renders "math" none loaded (world_of no_exam)).0.1
    ≡ err exam_content_not_ready
unfolding rebuild_exam read_content publish_read find_exam_by_id query find?
rebuild_exam-fails_closed_example =
    rebuild_exam-fails_closed renders "math" none loaded (world_of no_exam) exam_not_loaded refl
      refl

readyz-Serves_example :
    readyz true (ok ("math" ∷ "math" ∷ [])) loaded ≡ ready ↔ Serves ("math" ∷ "math" ∷ []) loaded
readyz-Serves_example = readyz-Serves ("math" ∷ "math" ∷ []) loaded

-- An exam in the cache that is not loaded any more makes the node unready.
readyz_test : readyz true (ok ("art" ∷ [])) loaded ≡ awaiting_rebuild
unfolding readyz keys
readyz_test = refl
