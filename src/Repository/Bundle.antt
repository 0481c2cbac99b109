-- ===== src/Repository/Bundle.antt =====
-- ReplaceBundle: the statements that put one exam's bundle in the place of the one before.
use bangkusekolah_exam_node.Base.{
  Bool, false, ◌&&◌, ◌||◌, not, String, ◌==◌, Option, none, some, List, [], ◌∷◌, map, if◌then◌else◌,
  find?, select, update_where, insert_row,
}
use bangkusekolah_exam_node.Entity.{Time, Exam, Item, Participant, duplicate_key}
use bangkusekolah_exam_node.Store.{Store, ParticipantRow}
use bangkusekolah_exam_node.Exec.{M, Result, ok, err, pure, ◌>>=◌, ◌>>◌, query, change, time_now}
use bangkusekolah_exam_node.Repository.Harvest.{is_in}
use bangkusekolah_exam_node.Repository.Roster.{
  same_participant_key, to_participant_model, is_enrolled,
}

abbrev pub items_cleared : String → Store → Result (Unit {0} × Store)
items_cleared exam_id d =
    ok (tt, record d { items = select (λ i. not (i.exam_id == exam_id)) d.items })

abbrev pub exam_cleared : String → Store → Result (Unit {0} × Store)
exam_cleared exam_id d = ok (tt, record d { exams = select (λ e. not (e.id == exam_id)) d.exams })

-- One INSERT with all rows: a key that is taken refuses them all.
unfoldable pub items_added : List Item → List Item → Result (List Item)
items_added [] rows = ok rows
items_added (i ∷ is) rows = elim (find? (λ r. r.id == i.id) rows) [
  | some _ ↦ err duplicate_key
  | none ↦ items_added is (insert_row (λ r. r.id) i rows)
]

abbrev pub with_items : Store → Result (List Item) → Result (Unit {0} × Store)
with_items d (ok rows) = ok (tt, record d { items = rows })
with_items d (err e) = err e

abbrev pub items_inserted : List Item → Store → Result (Unit {0} × Store)
items_inserted is d = with_items d (items_added is d.items)

unfoldable pub insert_items : List Item → M (Unit {0})
unfolding items_added
insert_items [] = pure tt
insert_items (i ∷ is) = change (items_inserted (i ∷ is))

abbrev pub participant_rewritten : Participant → ParticipantRow → ParticipantRow
participant_rewritten p r = record r {
  student_id = p.student_id;
  student_name = p.student_name;
  access_code = p.access_code;
}

-- Another row that has the access code, or the student in the exam of this row.
abbrev pub is_rival : Participant → Option ParticipantRow → ParticipantRow → Bool
is_rival p none r = false
is_rival p (some own) r =
    not (r.id == p.id) && (r.access_code == p.access_code || is_enrolled own.exam_id p.student_id r)

abbrev pub participant_replaced : Participant → Store → Result (Unit {0} × Store)
participant_replaced p d =
    elim (find? (is_rival p (find? (λ r. r.id == p.id) d.participants)) d.participants) [
      | some _ ↦ err duplicate_key
      | none ↦ ok (
        tt,
        record d {
          participants = update_where (λ r. r.id == p.id) (participant_rewritten p) d.participants;
        },
      )
    ]

-- The rows that are there are rewritten; the others are kept for the end.
unfoldable pub rewrite_participants : List String → List Participant → M (List ParticipantRow)
unfolding is_in
rewrite_participants existing [] = pure []
rewrite_participants existing (p ∷ ps) =
    if is_in p.id existing
    then (change (participant_replaced p) >> rewrite_participants existing ps)
    else (rewrite_participants existing ps >>= λ rest. pure (to_participant_model p ∷ rest))

abbrev pub participant_deleted : String → String → Store → Result (Unit {0} × Store)
participant_deleted exam_id id d = ok (
  tt,
  record d { participants = select (λ r. not (r.id == id && r.exam_id == exam_id)) d.participants },
)

unfoldable pub delete_stale : String → List String → List String → M (Unit {0})
unfolding is_in
delete_stale exam_id keep [] = pure tt
delete_stale exam_id keep (id ∷ ids) =
    if is_in id keep
    then delete_stale exam_id keep ids
    else (change (participant_deleted exam_id id) >> delete_stale exam_id keep ids)

unfoldable pub participants_added :
    List ParticipantRow → List ParticipantRow → Result (List ParticipantRow)
participants_added [] rows = ok rows
participants_added (p ∷ ps) rows = elim (find? (same_participant_key p) rows) [
  | some _ ↦ err duplicate_key
  | none ↦ participants_added ps (insert_row (λ r. r.id) p rows)
]

abbrev pub with_participants : Store → Result (List ParticipantRow) → Result (Unit {0} × Store)
with_participants d (ok rows) = ok (tt, record d { participants = rows })
with_participants d (err e) = err e

abbrev pub participants_inserted : List ParticipantRow → Store → Result (Unit {0} × Store)
participants_inserted ps d = with_participants d (participants_added ps d.participants)

unfoldable pub insert_participants : List ParticipantRow → M (Unit {0})
unfolding participants_added
insert_participants [] = pure tt
insert_participants (p ∷ ps) = change (participants_inserted (p ∷ ps))

abbrev pub exam_inserted : Exam → Store → Result (Unit {0} × Store)
exam_inserted e d = elim (find? (λ r. r.id == e.id) d.exams) [
  | some _ ↦ err duplicate_key
  | none ↦ ok (tt, record d { exams = insert_row (λ r. r.id) e d.exams })
]

unfoldable pub participant_ids : String → M (List String)
participant_ids exam_id =
    query (λ d. ok (map (λ p. p.id) (select (λ p. p.exam_id == exam_id) d.participants)))

-- ToExamModel: the row is loaded now.
abbrev pub to_exam_model : Exam → Time → Exam
to_exam_model exam now = record exam { loaded_at = now }

unfoldable pub replace_bundle : Exam → List Item → List Participant → M (Unit {0})
unfolding insert_items rewrite_participants delete_stale insert_participants participant_ids
replace_bundle exam items participants = do
  now ← time_now
  change (items_cleared exam.id)
  change (exam_cleared exam.id)
  insert_items items
  existing ← participant_ids exam.id
  new_ones ← rewrite_participants existing participants
  delete_stale exam.id (map (λ p. p.id) participants) existing
  insert_participants new_ones
  change (exam_inserted (to_exam_model exam now))
