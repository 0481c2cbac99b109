-- ===== src/Repository/Upsert.antt =====
-- What becomes of a stale write and of a newer one (UpsertAnswer of
-- app/adapter/persistence/repository/node_repository.go).
use bangkusekolah_exam_node.Base.{
  ◌≡◌, refl, ap, ◌∙◌, eq_refl, String, Option, none, Bool, true, false, some, List, [], ◌∷◌, ◌++◌,
  ltb, arith, find?, All,
}
use bangkusekolah_exam_node.Json.{same_members_refl}
use bangkusekolah_exam_node.Entity.{
  Score, GradingStatus, pending, auto_graded, manual_required, Answer, stale_answer_write,
}
use bangkusekolah_exam_node.Store.{Store}
use bangkusekolah_exam_node.Exec.{
  err, AnswerColumn, answer_json, answer_text, score, max_score, grading_status, last_saved_at,
  client_seq,
}
use bangkusekolah_exam_node.Repository.Answers.{
  assign, assign_all, same_answer, same_text, same_score, same_grading, same_columns,
  answer_upserted,
}

abbrev pub is_score : AnswerColumn → Bool
is_score score = true
is_score _ = false

-- A write that is not newer leaves the row as it is, column for column.
assign-stale :
    (a r : Answer) (c : AnswerColumn) → ltb r.client_seq a.client_seq ≡ false → assign a c r ≡ r
unfolding assign
assign-stale a r answer_json h = rw h
assign-stale a r answer_text h = rw h
assign-stale a r score h = rw h
assign-stale a r max_score h = rw h
assign-stale a r grading_status h = rw h
assign-stale a r last_saved_at h = rw h
assign-stale a r client_seq h = ap (λ n. record r { client_seq = n }) (ground arith)

assign_all-stale :
    (order : List AnswerColumn) (a r : Answer)
    → ltb r.client_seq a.client_seq ≡ false
    → assign_all a order r ≡ r
unfolding assign_all
assign_all-stale [] a r h = refl
assign_all-stale (c ∷ cs) a r h = rw (assign-stale a r c h) (assign_all-stale cs a r h)

same_text_refl : (o : Option String) → same_text o o ≡ true
same_text_refl none = refl
same_text_refl (some s) = eq_refl s

same_score_refl : (o : Option Score) → same_score o o ≡ true
same_score_refl none = refl
same_score_refl (some s) = ground arith

same_grading_refl : (g : GradingStatus) → same_grading g g ≡ true
same_grading_refl pending = refl
same_grading_refl auto_graded = refl
same_grading_refl manual_required = refl

same_columns_refl : (r : Answer) → same_columns r r ≡ true
unfolding same_columns
same_columns_refl r = ground (
  arith,
  same_members_refl r.answer_json,
  same_text_refl r.answer_text,
  same_score_refl r.score,
  same_grading_refl r.grading_status,
)

-- Whatever the order of the assignments, a write whose sequence number is not newer than the
-- stored answer's affects no row, so that it is refused with stale_answer_write: every assignment
-- leaves its column as it is stored.
pub answer_upserted-stale :
    (order : List AnswerColumn) (a r : Answer) (d : Store)
    → find? (same_answer a) d.answers ≡ some r
    → ltb r.client_seq a.client_seq ≡ false
    → (answer_upserted order a d ≡ err stale_answer_write) × (assign_all a order r ≡ r)
unfolding answer_upserted
answer_upserted-stale order a r d found old =
    let kept = assign_all-stale order a r old in (ground (arith, kept, same_columns_refl r), kept)

assign-score :
    (a r : Answer) (c : AnswerColumn) → is_score c ≡ false → (assign a c r).score ≡ r.score
unfolding assign
assign-score a r answer_json h = refl
assign-score a r answer_text h = refl
assign-score a r score h = cc
assign-score a r max_score h = refl
assign-score a r grading_status h = refl
assign-score a r last_saved_at h = refl
assign-score a r client_seq h = refl

skip_scores :
    (cs : List AnswerColumn) (a r : Answer)
    → All (λ c. is_score c ≡ false) cs
    → (assign_all a cs r).score ≡ r.score
unfolding assign_all
skip_scores [] a r h = refl
skip_scores (c ∷ cs) a r h = skip_scores cs a (assign a c r) h.1 ∙ assign-score a r c h.0

caught_up_lem : (a r : Answer) → ltb (assign a client_seq r).client_seq a.client_seq ≡ false
unfolding assign
caught_up_lem a r = ground arith

-- Where the sequence number is assigned before the score, as it is when the columns go by name, a
-- newer answer keeps the score of the older one.
pub assign_all-torn :
    (before after : List AnswerColumn) (a r : Answer)
    → All (λ c. is_score c ≡ false) before
    → (assign_all a (before ++ (client_seq ∷ after)) r).score ≡ r.score
unfolding assign_all
assign_all-torn [] after a r h =
    let caught_up : ltb (assign a client_seq r).client_seq a.client_seq ≡ false =
      caught_up_lem a r in
    ap (λ x. x.score) (assign_all-stale after a (assign a client_seq r) caught_up)
    ∙ assign-score a r client_seq refl
assign_all-torn (c ∷ cs) after a r h =
    assign_all-torn cs after a (assign a c r) h.1 ∙ assign-score a r c h.0
