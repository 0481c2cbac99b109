-- ===== src/Repository/Roster.antt =====
-- The methods of the repository that the roster calls: receipts of events, participants of an exam,
-- and the exam's roster state.
use bangkusekolah_exam_node.Base.{
  ℕ, Bool, true, false, ◌&&◌, ◌||◌, String, ◌==◌, Option, none, some, List, map, if◌then◌else◌, eqb,
  leb, ltb, text_lt, find?, select, count_where, update_where, insert_row, sort_by,
}
use bangkusekolah_exam_node.Entity.{
  Exam, Participant, RosterEventReceipt, RosterEventStatus, Err, roster_receipt_not_found,
  roster_code_conflict, participant_not_found, exam_not_loaded, duplicate_key,
}
use bangkusekolah_exam_node.Store.{Store, ParticipantRow, to_participant_entity}
use bangkusekolah_exam_node.Exec.{
  M, Result, ok, err, or_err, pure, raise, ◌>>=◌, try, query, change,
}

abbrev pub receipt_row : Store → String → Option RosterEventReceipt
receipt_row d event_id = find? (λ r. r.event_id == event_id) d.roster_receipts

unfoldable pub find_receipt : String → M RosterEventReceipt
find_receipt event_id = query (λ d. or_err (receipt_row d event_id) roster_receipt_not_found)

-- The unique keys of the receipts: the event, and the deployment with the revision.
abbrev pub same_receipt_key : RosterEventReceipt → RosterEventReceipt → Bool
same_receipt_key a b =
    b.event_id == a.event_id || b.deployment_id == a.deployment_id && eqb b.revision a.revision

-- A row with a key in common keeps its place, and that is not an error (ON CONFLICT DO NOTHING).
abbrev pub receipt_inserted : RosterEventReceipt → Store → Result (Unit {0} × Store)
receipt_inserted a d = elim (find? (same_receipt_key a) d.roster_receipts) [
  | some _ ↦ ok (tt, d)
  | none ↦ ok (tt, record d { roster_receipts = insert_row (λ r. r.event_id) a d.roster_receipts })
]

unfoldable pub insert_receipt : RosterEventReceipt → M (Unit {0})
insert_receipt a = change (receipt_inserted a)

abbrev pub is_enrolled : String → String → ParticipantRow → Bool
is_enrolled exam_id student_id p = p.exam_id == exam_id && p.student_id == student_id

abbrev pub enrolled_row : Store → String → String → Option ParticipantRow
enrolled_row d exam_id student_id = find? (is_enrolled exam_id student_id) d.participants

-- ToParticipantModel: the counters of a new row are those of an empty one.
abbrev pub to_participant_model : Participant → ParticipantRow
to_participant_model e = record {
  id = e.id;
  exam_id = e.exam_id;
  student_id = e.student_id;
  student_name = e.student_name;
  access_code = e.access_code;
  roster_revision = e.roster_revision;
  attempt_count = 0;
  latest_attempt_id = none;
}

-- The unique keys of the participants: the id, the access code, and the exam with the student.
abbrev pub same_participant_key : ParticipantRow → ParticipantRow → Bool
same_participant_key a b =
    b.id == a.id || b.access_code == a.access_code || is_enrolled a.exam_id a.student_id b

abbrev pub participant_inserted : ParticipantRow → Store → Result (Unit {0} × Store)
participant_inserted a d = elim (find? (same_participant_key a) d.participants) [
  | some _ ↦ err duplicate_key
  | none ↦ ok (tt, record d { participants = insert_row (λ r. r.id) a d.participants })
]

abbrev pub is_duplicate_key : Err → Bool
is_duplicate_key duplicate_key = true
is_duplicate_key _ = false

abbrev pub find_enrolled : String → String → M ParticipantRow
find_enrolled exam_id student_id =
    query (λ d. or_err (enrolled_row d exam_id student_id) participant_not_found)

-- The row that is there, and whether it was inserted.
abbrev pub Enrolment : Type 0
Enrolment = Participant × Bool

abbrev pub enrolled_meanwhile : Result ParticipantRow → M Enrolment
enrolled_meanwhile (ok row) = pure (to_participant_entity row, false)
enrolled_meanwhile (err e) = raise roster_code_conflict

abbrev pub insert_outcome : ParticipantRow → Result (Unit {0}) → M Enrolment
insert_outcome row (ok u) = pure (to_participant_entity row, true)
insert_outcome row (err e) =
    if is_duplicate_key e
    then (try (find_enrolled row.exam_id row.student_id) >>= λ r. enrolled_meanwhile r)
    else raise e

abbrev pub is_no_row : Err → Bool
is_no_row participant_not_found = true
is_no_row _ = false

abbrev pub insert_if_absent : Participant → Result ParticipantRow → M Enrolment
insert_if_absent p (ok row) = pure (to_participant_entity row, false)
insert_if_absent p (err e) =
    if is_no_row e
    then (try (change (participant_inserted (to_participant_model p))) >>= λ r.
        insert_outcome (to_participant_model p) r)
    else raise e

unfoldable pub insert_participant_if_absent : Participant → M Enrolment
insert_participant_if_absent p =
    try (find_enrolled p.exam_id p.student_id) >>= λ r. insert_if_absent p r

abbrev pub with_roster_state : ℕ → String → Exam → Exam
with_roster_state revision content_hash e = record e {
  roster_revision = revision;
  content_hash = content_hash;
}

abbrev pub roster_state_updated : String → ℕ → String → Store → Result (Unit {0} × Store)
roster_state_updated exam_id revision content_hash d = elim (find? (λ e. e.id == exam_id) d.exams) [
  | none ↦ err exam_not_loaded
  | some _ ↦ ok (
    tt,
    record d {
      exams = update_where (λ e. e.id == exam_id) (with_roster_state revision content_hash) d.exams;
    },
  )
]

-- Its callers give a revision that differs from the row's, so the row changes if it is there.
unfoldable pub update_exam_roster_state : String → ℕ → String → M (Unit {0})
update_exam_roster_state exam_id revision content_hash =
    change (roster_state_updated exam_id revision content_hash)

abbrev pub is_processed_status : RosterEventStatus → Bool
is_processed_status RosterEventStatus.applied = true
is_processed_status RosterEventStatus.rejected = true
is_processed_status RosterEventStatus.expired = true
is_processed_status RosterEventStatus.cancelled = true
is_processed_status RosterEventStatus.pending = false
is_processed_status (RosterEventStatus.other text) = false

abbrev pub is_processed : String → ℕ → RosterEventReceipt → Bool
is_processed deployment_id revision r =
    r.deployment_id == deployment_id
    && ltb 0 r.revision
    && leb r.revision revision
    && is_processed_status r.status

unfoldable pub count_processed_roster_receipts : String → ℕ → M ℕ
count_processed_roster_receipts deployment_id revision =
    query (λ d. ok (count_where (is_processed deployment_id revision) d.roster_receipts))

-- Order("student_name ASC")
abbrev pub named_before : ParticipantRow → ParticipantRow → Bool
named_before a b = text_lt a.student_name b.student_name

unfoldable pub list_participants_by_exam : String → M (List Participant)
list_participants_by_exam exam_id = query (λ d. ok (
    map to_participant_entity
      (sort_by named_before (select (λ p. p.exam_id == exam_id) d.participants))))
