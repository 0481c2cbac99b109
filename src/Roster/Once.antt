-- ===== src/Roster/Once.antt =====
-- The next event of the roster, in a world without failures: it enrols the student, and handling it
-- again changes nothing (RosterService.Apply of app/service/roster_service.go).
use bangkusekolah_exam_node.Base.{
  ℕ, ◌+◌, ◌≡◌, true, false, String, ◌==◌, none, some, List, ltb, find?, select, map, sort_by,
  update_where, insert_row,
}
use bangkusekolah_exam_node.Entity.{Time, Exam, RosterEventStatus}
use bangkusekolah_exam_node.Store.{Store, to_participant_entity}
use bangkusekolah_exam_node.Exec.{ok, AnswerColumn}
use bangkusekolah_exam_node.Repository.{exam_row}
use bangkusekolah_exam_node.Repository.Roster.{
  receipt_row, same_receipt_key, enrolled_row, to_participant_model, same_participant_key,
  with_roster_state, named_before,
}
use bangkusekolah_exam_node.Content.Rebuild.{sort_items}
use bangkusekolah_exam_node.ContentHash.{content_hash}
use bangkusekolah_exam_node.Roster.{
  RosterEvent, RosterOutcome, Hashes, roster_payload_hash, receipt_of, roster_participant,
  is_fenced, is_pending, validate_roster_event,
}

abbrev pub applied_outcome : RosterEvent → RosterOutcome
applied_outcome e = record {
  event_id = e.event_id;
  deployment_id = e.deployment_id;
  revision = e.revision;
  status = "applied";
  code = "";
}

-- The tables with the student enrolled.
abbrev pub with_participant : RosterEvent → Store → Store
with_participant e d = record d {
  participants =
      insert_row (λ r. r.id) (to_participant_model (roster_participant e)) d.participants;
}

-- The hash of the content with the new participant.
abbrev pub new_hash : Hashes → RosterEvent → Exam → Store → String
new_hash hashes e exam d =
    content_hash hashes.content (sort_items (select (λ i. i.exam_id == e.exam_id) d.items))
      (map to_participant_entity (
        sort_by named_before
          (select (λ p. p.exam_id == e.exam_id) (with_participant e d).participants)))
      exam

abbrev pub enrolled : Hashes → RosterEvent → Exam → Time → Store → Store
enrolled hashes e exam now d = record (with_participant e d) {
  exams =
      update_where (λ x. x.id == exam.id) (with_roster_state e.revision (new_hash hashes e exam d))
        d.exams;
  roster_receipts =
      insert_row (λ r. r.event_id)
        (receipt_of e (roster_payload_hash hashes e) RosterEventStatus.applied "" now)
        d.roster_receipts;
}

module _ (hashes : Hashes) (e : RosterEvent) (exam : Exam) (d : Store) (now : Time)
    (uuid : ℕ → String) (order : List AnswerColumn) (valid : validate_roster_event e ≡ ok tt)
    (found : exam_row d e.exam_id ≡ some exam) (fresh : receipt_row d e.event_id ≡ none)
    (own : (e.deployment_id == exam.deployment_id) ≡ true)
    (next : e.revision ≡ exam.roster_revision + 1) (waits : is_pending e.status ≡ true)
    (unfenced : is_fenced exam.fenced_at ≡ false) (in_time : ltb now e.deadline ≡ true)
    (running : ltb now exam.ends_at ≡ true)
    (new_student : enrolled_row d e.exam_id e.student_id ≡ none)
    (free : find?
        (same_participant_key (to_participant_model (roster_participant e)))
        d.participants
      ≡ none)
    (unused : find?
        (same_receipt_key
          (receipt_of e (roster_payload_hash hashes e) RosterEventStatus.applied "" now))
        d.roster_receipts
      ≡ none) where
  abbrev advanced : Store
  advanced = record (with_participant e d) {
    exams =
        update_where (λ x. x.id == exam.id)
          (with_roster_state e.revision (new_hash hashes e exam d)) d.exams;
  }
