-- ===== src/Examples/Bundle.antt =====
-- The bundle of the example's exam is loaded, and checked.
use bangkusekolah_exam_node.Base.{
  ◌*◌, ◌≡◌, refl, true, false, none, [], ◌∷◌, find?, select, insert_row, count_where, update_where,
  sort_by,
}
use bangkusekolah_exam_node.Json.{end, member, str}
use bangkusekolah_exam_node.Entity.{minute, single_choice, preflight_failed}
use bangkusekolah_exam_node.Store.{Store}
use bangkusekolah_exam_node.Exec.{ok, err, query, change, atomic, time_now}
use bangkusekolah_exam_node.Repository.{find_exam_by_id}
use bangkusekolah_exam_node.Repository.Roster.{list_participants_by_exam}
use bangkusekolah_exam_node.Repository.Bundle.{replace_bundle}
use bangkusekolah_exam_node.Content.{ContentService, new_content_service, publish}
use bangkusekolah_exam_node.Content.Rebuild.{list_items_by_exam_id, read_content, rebuild_exam}
use bangkusekolah_exam_node.ContentHash.{content_hash}
use bangkusekolah_exam_node.Bundle.{
  ExamNodeBundle, BundleTools, load_bundle, preflight, preflight_revision, preflight_roster,
}
use bangkusekolah_exam_node.Bundle.Whole.{Loads, load_bundle-all_or_nothing}
use bangkusekolah_exam_node.Examples.{idle, world_of}

abbrev tools : BundleTools
tools = record {
  checksum = λ b. b.exam.title;
  content = λ view. view.exam.title;
  render = λ content. ok (record { content = content; etag = ""; gzip_bytes = ""; raw_bytes = "" });
}

abbrev math_bundle : ExamNodeBundle
math_bundle = record {
  bundle_version = 1;
  deployment_id = "dep-2";
  exam = record {
    id = "math";
    title = "Math";
    instruction = none;
    starts_at = 100;
    ends_at = 5000 * minute;
    duration_minutes = 60;
    max_attempts = 2;
    shuffle_questions = false;
    shuffle_options = false;
    show_result_immediately = true;
    passing_score = none;
    result_selection_policy = "LATEST";
  };
  sections = record { id = "s"; title = "S"; instruction = none; sort_order = 1 } ∷ [];
  items =
      record {
        id = "sum";
        section_id = "s";
        question_type = single_choice;
        prompt_snapshot = "1 + 1";
        options_snapshot_json = [];
        answer_key_snapshot_json = member "answer" (str "two") end;
        points = 500;
        sort_order = 1;
        requires_manual_grading = false;
        rubric_criteria = [];
      }
      ∷ [];
  participants =
      record { id = "ani"; student_id = "s1"; student_name = "Ani"; access_code = "MATH26-AB12CD" }
      ∷ [];
  checksum = "Math";
}

load_bundle-all_or_nothing_example :
    Loads tools math_bundle idle (load_bundle tools math_bundle new_content_service (world_of idle))
load_bundle-all_or_nothing_example =
    load_bundle-all_or_nothing tools math_bundle new_content_service (world_of idle)

-- The bundle is stored under its new deployment. The check of what is stored fails: the row of `ani`
-- still has the revision of the event that added it, so it is not counted as one of the bundle.
load_test : (load_bundle tools math_bundle new_content_service (world_of idle)).0.0 ≡ ok tt
unfolding load_bundle rebuild_exam replace_bundle content_hash read_content publish
    list_items_by_exam_id list_participants_by_exam atomic query change time_now find_exam_by_id
    find? select bangkusekolah_exam_node.Content.begin_rebuild insert_row
load_test = refl

preflight_test :
    (preflight tools "math" 1 1
      (load_bundle tools math_bundle new_content_service (world_of idle)).1).0
    ≡ err preflight_failed
unfolding load_bundle preflight_roster preflight_revision rebuild_exam replace_bundle content_hash
    read_content publish list_items_by_exam_id list_participants_by_exam atomic query change
    time_now find_exam_by_id find? select bangkusekolah_exam_node.Content.begin_rebuild insert_row
    sort_by update_where count_where
preflight_test = refl

-- Into empty tables it is loaded so that the check passes.
abbrev fresh : Store
fresh = record idle { participants = []; exams = []; items = [] }

preflight-fresh_test :
    (preflight tools "math" 1 1
      (load_bundle tools math_bundle new_content_service (world_of fresh)).1).0
    ≡ ok tt
unfolding load_bundle preflight_roster preflight_revision rebuild_exam replace_bundle content_hash
    read_content publish list_items_by_exam_id list_participants_by_exam atomic query change
    time_now find_exam_by_id find? select bangkusekolah_exam_node.Content.begin_rebuild insert_row
    sort_by update_where count_where
preflight-fresh_test = refl
