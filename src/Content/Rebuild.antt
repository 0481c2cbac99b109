-- ===== src/Content/Rebuild.antt =====
-- Rebuilding the cache from the tables (RebuildExam and ReloadAllCaches of
-- app/service/content_service.go, RehydrateAllCaches of app/service/rehydrate.go), where no other
-- operation comes in between.
use bangkusekolah_exam_node.Base.{
  ℕ, Bool, false, ◌&&◌, ◌||◌, not, String, ◌==◌, Option, none, some, List, [], ◌∷◌, map,
  if◌then◌else◌, eqb, ltb, select, text_lt, Dict, keys,
}
use bangkusekolah_exam_node.Entity.{Exam, Item, exam_content_not_ready}
use bangkusekolah_exam_node.Exec.{M, World, Result, ok, err, query, pure, ◌>>=◌}
use bangkusekolah_exam_node.Repository.{find_exam_by_id}
use bangkusekolah_exam_node.Content.{
  ExamItemDto, ExamContent, ContentCache, ContentService, begin_rebuild, mark_unready, is_current,
  publish,
}

-- What RebuildExam reads of the tables: the exam's items by section and place. Rows that share both
-- stay in the order of the table.
abbrev pub item_before : Item → Item → Bool
item_before i j =
    ltb i.section_sort_order j.section_sort_order
    || (eqb i.section_sort_order j.section_sort_order && ltb i.sort_order j.sort_order)

insert_item : Item → List Item → List Item
insert_item i [] = i ∷ []
insert_item i (j ∷ js) =
    let rest = insert_item i js in if item_before j i then j ∷ rest else i ∷ j ∷ js

unfoldable pub sort_items : List Item → List Item
unfolding insert_item
sort_items [] = []
sort_items (i ∷ is) = insert_item i (sort_items is)

unfoldable pub list_items_by_exam_id : String → M (List Item)
unfolding sort_items
list_items_by_exam_id exam_id =
    query (λ d. ok (sort_items (select (λ i. i.exam_id == exam_id) d.items)))

abbrev pub to_item_dto : Item → ExamItemDto
to_item_dto it = record {
  id = it.id;
  section_id = it.section_id;
  section_title = it.section_title;
  section_sort_order = it.section_sort_order;
  sort_order = it.sort_order;
  question_type = it.question_type;
  prompt = it.prompt_snapshot;
  options = it.options_snapshot_json;
  points = it.points;
  requires_manual_grading = it.requires_manual_grading;
}

unfoldable pub read_content : String → M ExamContent
unfolding list_items_by_exam_id
read_content exam_id = do
  exam ← find_exam_by_id exam_id
  items ← list_items_by_exam_id exam_id
  pure (record { exam = exam; items = map to_item_dto items })

unfoldable pub list_exams : M (List Exam)
list_exams = query (λ d. ok d.exams)

insert_id : String → List String → List String
insert_id i [] = i ∷ []
insert_id i (j ∷ js) = let rest = insert_id i js in if text_lt j i then j ∷ rest else i ∷ j ∷ js

unfoldable pub sort_ids : List String → List String
unfolding insert_id
sort_ids [] = []
sort_ids (i ∷ is) = insert_id i (sort_ids is)

unfoldable pub is_listed : List String → String → Bool
is_listed [] k = false
is_listed (i ∷ is) k = i == k || is_listed is k

unfoldable pub keep_keys : {V : Type 0} → List String → Dict V → Dict V
unfolding is_listed
keep_keys ids m = select (λ kv. is_listed ids kv.0) m

-- The last step of ReloadAllCaches, under the lock: exams that are not listed are forgotten.
abbrev pub prune : List String → ContentService → ContentService
prune ids s = record s { cache = keep_keys ids s.cache; unready = keep_keys ids s.unready }

-- Every exam that is cached, and then every one that is loaded, is refused under a new generation.
unfoldable pub begin_all : List String → ContentService → ContentService
unfolding begin_rebuild
begin_all [] s = s
begin_all (id ∷ ids) s = begin_all ids (begin_rebuild id s).1

unfoldable pub begin_listed :
    List String → ContentService → List (String × Option ℕ) × ContentService
unfolding begin_rebuild
begin_listed [] s = ([], s)
begin_listed (id ∷ ids) s =
    let (token, begun) = begin_rebuild id s in
    let (tokens, all_begun) = begin_listed ids begun in ((id, some token) ∷ tokens, all_begun)

-- Encoding JSON, hashing and compressing are package functions: `render` is the four lines of them
-- together, and may fail.
module _ (render : ExamContent → Result ContentCache) where
  unfoldable pub publish_read :
      String → Option ℕ → Result ExamContent → ContentService → Result (Unit {0}) × ContentService
  unfolding mark_unready publish
  publish_read exam_id token (err e) s = (err e, mark_unready exam_id e s)
  publish_read exam_id token (ok content) s = elim (render content) [
    | err e ↦ (err e, mark_unready exam_id e s)
    | ok c ↦ publish exam_id token c s
  ]

  -- RebuildExam where no other operation comes in between: the cache beside the world.
  unfoldable pub rebuild_exam :
      String → Option ℕ → ContentService → World → (Result (Unit {0}) × ContentService) × World
  unfolding publish_read read_content
  rebuild_exam exam_id token s w =
      if not (is_current exam_id token s)
      then ((err exam_content_not_ready, s), w)
      else (publish_read exam_id token (read_content exam_id w).0 s, (read_content exam_id w).1)

  -- The rebuilds of ReloadAllCaches, the first failure of which ends them.
  unfoldable pub rebuild_listed :
      List (String × Option ℕ)
      → ContentService
      → World
      → (Result (Unit {0}) × ContentService) × World
  unfolding rebuild_exam
  rebuild_listed [] s w = ((ok tt, s), w)
  rebuild_listed ((id, token) ∷ rest) s w =
      let ((r, s'), w') = rebuild_exam id token s w in
      elim r [ err e ↦ ((err e, s'), w') | ok done ↦ rebuild_listed rest s' w' ]

  -- RehydrateAllCaches, which has no tokens
  unfoldable pub rehydrate_listed :
      Result (List Exam) → ContentService → World → (Result (Unit {0}) × ContentService) × World
  unfolding rebuild_listed
  rehydrate_listed (err e) s w = ((err e, s), w)
  rehydrate_listed (ok exams) s w = rebuild_listed (map (λ e. (e.id, none)) exams) s w

  unfoldable pub rehydrate_all_caches :
      ContentService → World → (Result (Unit {0}) × ContentService) × World
  unfolding rehydrate_listed
  rehydrate_all_caches s w = rehydrate_listed (list_exams w).0 s (list_exams w).1

  unfoldable pub pruned :
      List String → Result (Unit {0}) × ContentService → Result (Unit {0}) × ContentService
  pruned ids (err e, s) = (err e, s)
  pruned ids (ok done, s) = (ok tt, prune ids s)

  unfoldable pub reload_listed :
      Result (List Exam) → ContentService → World → (Result (Unit {0}) × ContentService) × World
  unfolding rebuild_listed pruned begin_all begin_listed sort_ids
  reload_listed (err e) s w = ((err e, s), w)
  reload_listed (ok exams) s w =
      let ids = sort_ids (map (λ e. e.id) exams) in
      let (tokens, begun) = begin_listed ids (begin_all (keys s.cache) s) in
      let (r, w') = rebuild_listed tokens begun w in (pruned ids r, w')

  -- ReloadAllCaches where no other operation comes in between
  unfoldable pub reload_all_caches :
      ContentService → World → (Result (Unit {0}) × ContentService) × World
  unfolding reload_listed
  reload_all_caches s w = reload_listed (list_exams w).0 s (list_exams w).1
