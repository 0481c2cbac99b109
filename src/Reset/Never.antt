-- ===== src/Reset/Never.antt =====
-- What ApplyReset comes to on the tables of the node (app/service/attempt_reset_service.go): a
-- participant that is read from the database has no deployment (app/adapter/persistence/mapper/
-- node_mapper.go), and the service compares it with the command's, which may not be blank.
use bangkusekolah_exam_node.Base.{
  ◌≡◌, refl, true, false, ◌||◌, not, String, ◌==◌, eq_iff, List, arith, ltb, trim_space,
  Option-cases, Bool-cases, inl, inr,
}
use bangkusekolah_exam_node.Entity.{
  Time, Exam, Participant, Attempt, AttemptResetOperation, AttemptResetOperationStatus, Err,
  participant_not_found, attempt_not_found, attempt_reset_conflict, attempt_reset_fenced,
  attempt_reset_expired,
}
use bangkusekolah_exam_node.Store.{Store}
use bangkusekolah_exam_node.Exec.{M, World, Result, ok, err, or_err, try, atomic, time_now, ◌>>=◌}
use bangkusekolah_exam_node.Exec.Hoare.{
  Hoare, Outcome, Outcome-either, Hoare-pure, Hoare-raise, Hoare-if, Hoare-query, Hoare-change,
  Hoare-bind, Hoare-atomic, Hoare-time_now,
}
use bangkusekolah_exam_node.Repository.{
  find_exam_by_id, find_participant_by_id, find_attempt_by_id, participant_entity, participant_row,
  attempt_row,
}
use bangkusekolah_exam_node.Repository.Resets.{
  find_attempt_reset_operation, create_attempt_reset_operation, update_attempt_reset_operation,
  operation_inserted, operation_updated,
}
use bangkusekolah_exam_node.Attempt.{is_attempt_not_found}
use bangkusekolah_exam_node.Reset.{AttemptResetCommand, validate_attempt_reset_command, first_blank}
use bangkusekolah_exam_node.Reset.Operation.{
  finish_rejected_reset, Begun, answered, pending_for, begin_operation, same_reset_command,
  is_operation_not_found,
}
use bangkusekolah_exam_node.Reset.Apply.{
  check_attempt, check_participant, check_exam, apply_begun, apply_locked, apply_valid, apply_reset,
  is_other_target, is_participant_not_found, is_exam_not_loaded, is_fenced,
}

-- What a result that is held as a value brings along.
abbrev pub Brings : {A : Type 0} → (A → Type 0) → Result A → Type 0
Brings X (ok a) = X a
Brings X (err e) = Unit

module _ (l : List Attempt) where
  -- The attempts are what they were.
  abbrev Same : Store → Type 0
  Same d = d.attempts ≡ l

  Hoare-held :
      {A : Type 0} (m : M A) (X : A → Type 0)
      → Hoare Same m (λ a d. Same d × X a) Same
      → Hoare Same (try m) (λ r d. Same d × Brings X r) Same
  Hoare-held {A} m X h = record { at = λ w k. go (m w) (h.at w k) }
    where
      go :
          (r : Result A × World) → Outcome (λ a d. Same d × X a) Same r → Same r.1.db × Brings X r.0
      go (ok a, w) k = k
      go (err e, w) k = (k, tt)

  pub blank_entity :
      (d : Store) (id : String) (p : Participant)
      → or_err (participant_entity d id) participant_not_found ≡ ok p
      → p.deployment_id ≡ ""
  blank_entity d id p e = elim (Option-cases (participant_row d id)) [
    | inl missing ↦ ground (arith)
    | inr (row, found) ↦ ground (arith)
  ]

  update_operation-Same :
      (o : AttemptResetOperation) → Hoare Same (update_attempt_reset_operation o) (λ _. Same) Same
  unfolding update_attempt_reset_operation
  update_operation-Same o =
      Hoare-change (operation_updated o) (λ d k. k) λ d u d' k e. ground (arith)

  create_operation-Same :
      (o : AttemptResetOperation) → Hoare Same (create_attempt_reset_operation o) (λ _. Same) Same
  unfolding create_attempt_reset_operation
  create_operation-Same o =
      Hoare-change (operation_inserted o) (λ d k. k) λ d u d' k e. ground (arith)

  finish_rejected-Same :
      (o : AttemptResetOperation) (status : AttemptResetOperationStatus) (code : String) (e : Err)
      → Hoare Same (finish_rejected_reset o status code e) (λ _. Same) Same
  unfolding finish_rejected_reset
  finish_rejected-Same o status code e =
      Hoare-bind (λ _. Same) time_now _ Hoare-time_now
        λ now. Hoare-bind (λ _. Same) _ _ (update_operation-Same _) λ _. Hoare-pure _ (λ d k. k)

  begin_operation-Same :
      (c : AttemptResetCommand) (hash : String) (r : Result AttemptResetOperation)
      → Hoare Same (begin_operation c hash r) (λ _. Same) Same
  unfolding begin_operation
  begin_operation-Same c hash (err e) =
      Hoare-if (is_operation_not_found e) _ _
        (λ _.
          Hoare-bind (λ _. Same) time_now _ Hoare-time_now
            λ now.
              Hoare-bind (λ _. Same) _ _ (create_operation-Same _) λ _. Hoare-pure _ (λ d k. k))
        (λ _. Hoare-raise e (λ d k. k))
  begin_operation-Same c hash (ok o) =
      Hoare-if (not (o.command_hash == hash) || not (same_reset_command o c)) _ _
        (λ _. Hoare-raise attempt_reset_conflict (λ d k. k)) (λ _. Hoare-pure _ (λ d k. k))

  module _ (c : AttemptResetCommand) (named : (c.deployment_id == "") ≡ false) where
    pub blank_is_other :
        (p : Participant) (a : Attempt) → p.deployment_id ≡ "" → is_other_target c p a ≡ false → ⊥
    blank_is_other p a blank fits =
        ground (arith, eq_iff p.deployment_id c.deployment_id, eq_iff c.deployment_id "")

    check_attempt-Same :
        (o : AttemptResetOperation) (now : Time) (exam : Exam) (p : Participant)
        (r : Result Attempt)
        → p.deployment_id ≡ ""
        → Hoare Same (check_attempt c o now exam p r) (λ _. Same) Same
    unfolding check_attempt
    check_attempt-Same o now exam p (err e) blank =
        Hoare-if (is_attempt_not_found e) _ _ (λ _. finish_rejected-Same o _ _ attempt_not_found)
          (λ _. Hoare-raise e (λ d k. k))
    check_attempt-Same o now exam p (ok a) blank =
        Hoare-if (is_other_target c p a) _ _
          (λ _. finish_rejected-Same o _ _ attempt_reset_conflict)
          (λ fits. absurd (blank_is_other p a blank fits))

    find_participant-blank :
        (id : String)
        → Hoare Same (find_participant_by_id id) (λ p d. Same d × (p.deployment_id ≡ "")) Same
    unfolding find_participant_by_id
    find_participant-blank id = Hoare-query _ (λ d k. k) λ d p k e. (k, blank_entity d id p e)

    check_participant-Same :
        (o : AttemptResetOperation) (now : Time) (exam : Exam) (r : Result Participant)
        → Hoare
            (λ d. Same d × Brings (λ p. p.deployment_id ≡ "") r)
            (check_participant c o now exam r)
            (λ _. Same)
            Same
    unfolding check_participant find_attempt_by_id
    check_participant-Same o now exam (err e) =
        Hoare-if (is_participant_not_found e) _ _
          (λ _. record { at = λ w k. (finish_rejected-Same o _ _ attempt_reset_conflict).at w k.0 })
          (λ _. Hoare-raise e (λ d k. k.0))
    check_participant-Same o now exam (ok p) = record { at = λ w k. (rest k.1).at w k.0 }
      where
        rest :
            p.deployment_id ≡ ""
            → Hoare Same
                (try (find_attempt_by_id c.attempt_id) >>= λ r. check_attempt c o now exam p r)
                (λ _. Same)
                Same
        rest blank =
            Hoare-bind (λ r d. Same d × Brings (λ _. Unit) r)
              (try (find_attempt_by_id c.attempt_id)) (check_attempt c o now exam p)
              (Hoare-held (find_attempt_by_id c.attempt_id) (λ _. Unit)
                (Hoare-query (λ d. or_err (attempt_row d c.attempt_id) attempt_not_found) (λ d k. k)
                  (λ d a k e. (k, tt))))
              λ r. record { at = λ w k. (check_attempt-Same o now exam p r blank).at w k.0 }

    check_exam-Same :
        (o : AttemptResetOperation) (now : Time) (r : Result Exam)
        → Hoare Same (check_exam c o now r) (λ _. Same) Same
    unfolding check_exam
    check_exam-Same o now (err e) =
        Hoare-if (is_exam_not_loaded e) _ _ (λ _. finish_rejected-Same o _ _ attempt_reset_conflict)
          (λ _. Hoare-raise e (λ d k. k))
    check_exam-Same o now (ok exam) =
        Hoare-if (not (exam.deployment_id == c.deployment_id)) _ _
          (λ _. finish_rejected-Same o _ _ attempt_reset_conflict)
          λ _.
            Hoare-if (is_fenced exam.fenced_at) _ _
              (λ _. finish_rejected-Same o _ _ attempt_reset_fenced)
              λ _.
                Hoare-if (not (ltb now exam.ends_at)) _ _
                  (λ _. finish_rejected-Same o _ _ attempt_reset_expired)
                  λ _.
                    Hoare-bind (λ r d. Same d × Brings (λ p. p.deployment_id ≡ "") r) _ _
                      (Hoare-held (find_participant_by_id c.participant_id)
                        (λ p. p.deployment_id ≡ "") (find_participant-blank c.participant_id))
                      (check_participant-Same o now exam)

    apply_begun-Same : (b : Begun) → Hoare Same (apply_begun c b) (λ _. Same) Same
    unfolding apply_begun find_exam_by_id
    apply_begun-Same (answered outcome) = Hoare-pure outcome (λ d k. k)
    apply_begun-Same (pending_for o) =
        Hoare-bind (λ _. Same) time_now _ Hoare-time_now
          λ now.
            Hoare-if (not (ltb now c.deadline)) _ _
              (λ _. finish_rejected-Same o _ _ attempt_reset_expired)
              λ _.
                Hoare-bind (λ r d. Same d × Brings (λ _. Unit) r) _ _
                  (Hoare-held (find_exam_by_id c.exam_id) (λ _. Unit)
                    (Hoare-query _ (λ d k. k) (λ d a k e. (k, tt))))
                  λ r. record { at = λ w k. (check_exam-Same o now r).at w k.0 }

    apply_locked-Same : (hash : String) → Hoare Same (apply_locked c hash) (λ _. Same) Same
    unfolding apply_locked find_attempt_reset_operation
    apply_locked-Same hash =
        Hoare-bind (λ r d. Same d × Brings (λ _. Unit) r) _ _
          (Hoare-held (find_attempt_reset_operation c.request_id) (λ _. Unit)
            (Hoare-query _ (λ d k. k) (λ d a k e. (k, tt))))
          λ r.
            Hoare-bind (λ _. Same) _ _
              (record { at = λ w k. (begin_operation-Same c hash r).at w k.0 }) apply_begun-Same

-- A command that is valid names a deployment.
pub valid-names_deployment :
    (c : AttemptResetCommand)
    → validate_attempt_reset_command c ≡ ok tt
    → (c.deployment_id == "") ≡ false
unfolding validate_attempt_reset_command first_blank trim_space
valid-names_deployment c valid = elim (Bool-cases (c.deployment_id == "")) [
  | inr named ↦ named
  | inl blank ↦
      let same : c.deployment_id ≡ "" = (eq_iff c.deployment_id "").0 blank in
      let trimmed : (trim_space c.deployment_id == "") ≡ true = rw same refl in ground (arith)
]

-- ApplyReset never reopens an attempt: whatever the command, the tables and the failures of the
-- database are, the attempts are afterwards what they were.
pub apply_reset-changes_no_attempt :
    (attempt_reset_command_hash : AttemptResetCommand → Result String) (c : AttemptResetCommand)
    (w : World)
    → (apply_reset attempt_reset_command_hash c w).1.db.attempts ≡ w.db.attempts
unfolding apply_reset
apply_reset-changes_no_attempt attempt_reset_command_hash c w =
    go (validate_attempt_reset_command c) refl (attempt_reset_command_hash c)
  where
    go :
        (v : Result (Unit {0}))
        → validate_attempt_reset_command c ≡ v
        → (h : Result String) → (apply_valid c v h w).1.db.attempts ≡ w.db.attempts
    go (err e) valid h = refl
    go (ok u) valid (err e) = refl
    go (ok u) valid (ok hash) =
        Outcome-either (Same w.db.attempts) (atomic (apply_locked c hash) w) (
          (Hoare-atomic {P = Same w.db.attempts} {Q = λ _. Same w.db.attempts}
              {E = Same w.db.attempts} (apply_locked c hash) (Same w.db.attempts) (λ d k. k)
              (apply_locked-Same w.db.attempts c (valid-names_deployment c valid) hash)).at
            w refl)
