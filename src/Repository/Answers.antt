-- ===== src/Repository/Answers.antt =====
-- UpsertAnswer: one INSERT ... ON DUPLICATE KEY UPDATE, keyed by attempt and item. MySQL makes the
-- assignments of the update from left to right, and a column that an assignment reads has the
-- value that the assignments before it gave it. The id is fresh, so no other key collides.
use Prim.Native.Nat.{max}
use bangkusekolah_exam_node.Base.{
  Bool, true, false, String, ◌==◌, ◌&&◌, Option, none, some, List, [], ◌∷◌, if◌then◌else◌, ltb, eqb,
  find?, update_where, insert_row,
}
use bangkusekolah_exam_node.Json.{same_members}
use bangkusekolah_exam_node.Entity.{Score, GradingStatus, Answer, stale_answer_write}
use bangkusekolah_exam_node.Store.{Store}
use bangkusekolah_exam_node.Exec.{
  M, Result, ok, err, pure, ◌>>◌, change, AnswerColumn, answer_json, answer_text, score, max_score,
  grading_status, last_saved_at, client_seq,
}

-- One assignment, of the incoming answer to the row: IF(VALUES(client_seq) > client_seq, ...), and
-- GREATEST for the sequence number itself.
unfoldable pub assign : Answer → AnswerColumn → Answer → Answer
assign a answer_json r = record r {
  answer_json = if ltb r.client_seq a.client_seq then a.answer_json else r.answer_json;
}
assign a answer_text r = record r {
  answer_text = if ltb r.client_seq a.client_seq then a.answer_text else r.answer_text;
}
assign a score r = record r { score = if ltb r.client_seq a.client_seq then a.score else r.score }
assign a max_score r = record r {
  max_score = if ltb r.client_seq a.client_seq then a.max_score else r.max_score;
}
assign a grading_status r = record r {
  grading_status = if ltb r.client_seq a.client_seq then a.grading_status else r.grading_status;
}
assign a last_saved_at r = record r {
  last_saved_at = if ltb r.client_seq a.client_seq then a.last_saved_at else r.last_saved_at;
}
assign a client_seq r = record r { client_seq = max r.client_seq a.client_seq }

unfoldable pub assign_all : Answer → List AnswerColumn → Answer → Answer
assign_all a [] r = r
assign_all a (c ∷ cs) r = assign_all a cs (assign a c r)

abbrev pub same_answer : Answer → Answer → Bool
same_answer a r = r.attempt_id == a.attempt_id && r.item_id == a.item_id

-- The order in which clause.Assignments gives the assignments to the database, by the names of the
-- columns.
abbrev pub columns_by_name : List AnswerColumn
columns_by_name =
    answer_json ∷ answer_text ∷ client_seq ∷ grading_status ∷ last_saved_at ∷ max_score ∷ score ∷ []

abbrev pub same_text : Option String → Option String → Bool
same_text none none = true
same_text (some s) (some t) = s == t
same_text _ _ = false

abbrev pub same_score : Option Score → Option Score → Bool
same_score none none = true
same_score (some s) (some t) = eqb s t
same_score _ _ = false

abbrev pub same_grading : GradingStatus → GradingStatus → Bool
same_grading GradingStatus.pending GradingStatus.pending = true
same_grading GradingStatus.auto_graded GradingStatus.auto_graded = true
same_grading GradingStatus.manual_required GradingStatus.manual_required = true
same_grading _ _ = false

-- Whether the columns that may be assigned are the same in both rows.
unfoldable pub same_columns : Answer → Answer → Bool
same_columns a b =
    same_members a.answer_json b.answer_json
    && same_text a.answer_text b.answer_text
    && same_score a.score b.score
    && eqb a.max_score b.max_score
    && same_grading a.grading_status b.grading_status
    && eqb a.last_saved_at b.last_saved_at
    && eqb a.client_seq b.client_seq

-- Rows affected: MySQL counts no row where the assignments change no column.
unfoldable pub answer_upserted : List AnswerColumn → Answer → Store → Result (Unit {0} × Store)
unfolding assign_all same_columns
answer_upserted order a d = elim (find? (same_answer a) d.answers) [
  | none ↦ ok (tt, record d { answers = insert_row (λ r. r.id) a d.answers })
  | some r ↦
      if same_columns (assign_all a order r) r
      then err stale_answer_write
      else ok
          (tt, record d { answers = update_where (same_answer a) (assign_all a order) d.answers })
]

-- On success the caller gets the answer as it sent it.
unfoldable pub upsert_answer : Answer → M Answer
unfolding answer_upserted
upsert_answer a w = (change (answer_upserted w.assignments a) >> pure a) w
