-- ===== src/Bundle/Ids.antt =====
-- The ids of an exam's participants, under the changes of a load (ReplaceBundle of
-- app/adapter/persistence/repository/node_repository.go).
use bangkusekolah_exam_node.Base.{
  ◌≡◌, refl, ap, eq_iff, inl, inr, true, ◌&&◌, ◌||◌, not, String, ◌==◌, List, [], ◌∷◌, map, find?,
  select, insert_row, update_where, Option-cases, Bool-cases, All, arith,
}
use bangkusekolah_exam_node.Entity.{Participant}
use bangkusekolah_exam_node.Store.{ParticipantRow}
use bangkusekolah_exam_node.Exec.{ok}
use bangkusekolah_exam_node.Repository.Harvest.{is_in}
use bangkusekolah_exam_node.Repository.Roster.{to_participant_model, same_participant_key}
use bangkusekolah_exam_node.Repository.Bundle.{participant_rewritten, participants_added}

module _ (exam_id : String) where
  -- The ids of the rows of the exam.
  abbrev pub ids_of : List ParticipantRow → List String
  ids_of rows = map (λ p. p.id) (select (λ p. p.exam_id == exam_id) rows)

  pub ids_of-update :
      (p : Participant) (rows : List ParticipantRow)
      → ids_of (update_where (λ r. r.id == p.id) (participant_rewritten p) rows) ≡ ids_of rows
  unfolding select update_where
  ids_of-update p [] = refl
  ids_of-update p (r ∷ rows) = elim (Bool-cases (r.id == p.id)) [
    | inl same ↦ elim (Bool-cases (r.exam_id == exam_id)) [
      | inl own ↦ rw (same, own) (ap (λ xs. r.id ∷ xs) (ids_of-update p rows))
      | inr other ↦ rw (same, other) (ids_of-update p rows)
    ]
    | inr apart ↦ elim (Bool-cases (r.exam_id == exam_id)) [
      | inl own ↦ rw (apart, own) (ap (λ xs. r.id ∷ xs) (ids_of-update p rows))
      | inr other ↦ rw (apart, other) (ids_of-update p rows)
    ]
  ]

  pub is_in-delete :
      (id z : String) (rows : List ParticipantRow)
      → is_in z (ids_of (select (λ r. not (r.id == id && r.exam_id == exam_id)) rows))
        ≡ (is_in z (ids_of rows) && not (id == z))
  unfolding select is_in
  is_in-delete id z [] = refl
  is_in-delete id z (r ∷ rows) =
      ground (arith, eq_iff r.id id, eq_iff r.id z, eq_iff id z, is_in-delete id z rows)

  is_in-insert_row :
      (z : String) (p : ParticipantRow) (rows : List ParticipantRow)
      → (p.exam_id == exam_id) ≡ true
      → is_in z (ids_of (insert_row (λ r. r.id) p rows)) ≡ (p.id == z || is_in z (ids_of rows))
  unfolding select is_in insert_row
  is_in-insert_row z p [] own = ground arith
  is_in-insert_row z p (r ∷ rows) own = ground (arith, is_in-insert_row z p rows own)

  pub is_in-added :
      (z : String) (ps rows rows' : List ParticipantRow)
      → All (λ p. (p.exam_id == exam_id) ≡ true) ps
      → participants_added ps rows ≡ ok rows'
      → is_in z (ids_of rows') ≡ (is_in z (map (λ p. p.id) ps) || is_in z (ids_of rows))
  unfolding participants_added is_in
  is_in-added z [] rows rows' own added = ground arith
  is_in-added z (p ∷ ps) rows rows' own added =
      elim (Option-cases (find? (same_participant_key p) rows)) [
        | inr (x, taken) ↦ absurd (ground arith)
        | inl free ↦
            let later =
              is_in-added z ps (insert_row (λ r. r.id) p rows) rows' own.1
                (rw (free, participants_added) at added) in
            let one = is_in-insert_row z p rows own.0 in ground (arith, later, one)
      ]

  -- The rows that a load inserts: the participants of the bundle that were not there.
  abbrev pub new_rows : List String → List Participant → List ParticipantRow
  new_rows existing ps = map to_participant_model (select (λ p. not (is_in p.id existing)) ps)

  pub is_in-new_rows :
      (z : String) (existing : List String) (ps : List Participant)
      → is_in z (map (λ p. p.id) (new_rows existing ps))
        ≡ (is_in z (map (λ p. p.id) ps) && not (is_in z existing))
  unfolding select is_in
  is_in-new_rows z existing [] = refl
  is_in-new_rows z existing (p ∷ ps) =
      ground (arith, eq_iff p.id z, ap (λ i. is_in i existing), is_in-new_rows z existing ps)

  pub All-new_rows :
      (existing : List String) (ps : List Participant)
      → All (λ p. (p.exam_id == exam_id) ≡ true) ps
      → All (λ p. (p.exam_id == exam_id) ≡ true) (new_rows existing ps)
  unfolding select
  All-new_rows existing [] own = tt
  All-new_rows existing (p ∷ ps) own = elim (Bool-cases (is_in p.id existing)) [
    | inl there ↦ rw there (All-new_rows existing ps own.1)
    | inr missing ↦ rw missing (own.0, All-new_rows existing ps own.1)
  ]
