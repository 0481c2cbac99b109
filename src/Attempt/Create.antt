-- ===== src/Attempt/Create.antt =====
-- Opening the next attempt keeps the invariant: the roster counts the attempt and names it as the
-- latest, and no other attempt of the participant is in progress.
use mathlib.Core.Option
use bangkusekolah_exam_node.Base.{
  ◌+◌, ◌≡◌, refl, sym, ◌∙◌, subst, true, false, String, ◌==◌, eq_iff, eq_refl, none, some, List,
  arith, find?, find?-some, find?-none, find?-update_where, update_where, change_if, All,
  All-zip_map, All-insert_row, inl, inr, Option-cases, insert_row,
}
use bangkusekolah_exam_node.Entity.{Exam, Attempt, Time, Participant}
use bangkusekolah_exam_node.Store.{ParticipantRow, to_participant_entity}
use bangkusekolah_exam_node.Repository.{is_active, participant_counted}
use bangkusekolah_exam_node.Invariant.{Fits, row_of}
use bangkusekolah_exam_node.Attempt.{new_attempt}

-- The participant as the service writes it back.
abbrev pub next_count : Participant → String → Participant
next_count locked id = record locked {
  attempt_count = locked.attempt_count + 1;
  latest_attempt_id = some id;
}

module _ (ps : List ParticipantRow) (row : ParticipantRow) (pid eid id : String)
    (found : row_of ps pid ≡ some row) (enrolled : row.exam_id ≡ eid) where
  abbrev pub roster_after : List ParticipantRow
  roster_after =
      update_where (λ r. r.id == row.id)
        (participant_counted (next_count (to_participant_entity row) id)) ps

  row-id : row.id ≡ pid
  row-id = (eq_iff row.id pid).0 (find?-some (λ p. p.id == pid) ps found)

  row_of-after :
      (x : String)
      → row_of roster_after x
        ≡ Option.map
            (change_if
              (λ r. r.id == row.id)
              (participant_counted (next_count (to_participant_entity row) id)))
            (row_of ps x)
  row_of-after x = find?-update_where _ _ _ ps (λ r. refl)

  -- The row of a participant afterwards: its own, or the counted one.
  row_after-cases :
      (x : String) (p' : ParticipantRow)
      → row_of roster_after x ≡ some p'
      → (p : ParticipantRow) × (row_of ps x ≡ some p)
        × (p'
            ≡ change_if
                (λ r. r.id == row.id)
                (participant_counted (next_count (to_participant_entity row) id))
                p)
  row_after-cases x p' e = elim (Option-cases (row_of ps x)) [
    | inl none_found ↦ ground (arith, row_of-after x)
    | inr (p, e') ↦ (p, e', ground (arith, row_of-after x))
  ]

  -- The row that the attempt's participant has is the one that is counted.
  row_unique :
      (x : String) (p : ParticipantRow)
      → row_of ps x ≡ some p
      → (p.id == row.id) ≡ true
      → (x ≡ pid) × (p ≡ row)
  row_unique x p e hit =
      let px : p.id ≡ x = (eq_iff p.id x).0 (find?-some (λ r. r.id == x) ps e) in
      let same : x ≡ pid = sym px ∙ (eq_iff p.id row.id).0 hit ∙ row-id in
      (same, ground (arith, subst (λ y. row_of ps y ≡ some p) same e))

  old_attempt-Fits : (a : Attempt) → Fits ps a → is_active pid eid a ≡ false → Fits roster_after a
  old_attempt-Fits a fits idle = record {
    belongs = λ p' e.
        let (p, e', c) = row_after-cases a.participant_id p' e in ground (arith, fits.belongs p e');
    counted = λ p' e.
        let (p, e', c) = row_after-cases a.participant_id p' e in
        ground (arith, fits.counted p e', row_unique a.participant_id p e');
    is_latest = λ live p' e.
        let (p, e', c) = row_after-cases a.participant_id p' e in
        ground (
          arith,
          fits.is_latest live p e',
          fits.belongs p e',
          row_unique a.participant_id p e',
          enrolled,
          eq_iff a.participant_id pid,
          eq_iff a.exam_id eid,
        );
    consistent = fits.consistent;
  }

  row_of_own :
      row_of roster_after pid
      ≡ some (participant_counted (next_count (to_participant_entity row) id) row)
  row_of_own = ground (arith, row_of-after pid, found, eq_refl row.id)

  new_attempt-Fits :
      (exam : Exam) (now : Time) (device : String)
      → exam.id ≡ eid
      → Fits roster_after (new_attempt exam now device pid (to_participant_entity row) id)
  unfolding new_attempt
  new_attempt-Fits exam now device named = record {
    belongs = λ p' e. ground (arith, enrolled, row_of_own);
    counted = λ p' e. ground (arith, row_of_own);
    is_latest = λ live p' e. ground (arith, row_of_own);
    consistent = (refl, refl, refl);
  }

  -- All attempts fit the new roster once the new one stands among them.
  pub attempts_after :
      (exam : Exam) (now : Time) (device : String) (attempts : List Attempt)
      → exam.id ≡ eid
      → find? (is_active pid eid) attempts ≡ none
      → All (Fits ps) attempts
      → All (Fits roster_after) (
          insert_row
            (λ r. r.id)
            (new_attempt exam now device pid (to_participant_entity row) id)
            attempts)
  attempts_after exam now device attempts named idle fits =
      All-insert_row (Fits roster_after) _ _ attempts (new_attempt-Fits exam now device named) (
        All-zip_map (Fits ps) (λ a. is_active pid eid a ≡ false) (Fits roster_after) attempts
          old_attempt-Fits fits (find?-none (is_active pid eid) attempts idle))
