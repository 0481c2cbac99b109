-- ===== src/Reset/Handled.antt =====
-- What the stored operation of a command to reset holds when it is handled
-- (app/service/attempt_reset_service.go).
use bangkusekolah_exam_node.Base.{
  ℕ, ◌≡◌, refl, true, false, String, ◌==◌, eq_iff, eq_refl, Option, none, some, arith, eqb, find?,
  find?-some, find?-update_where, Option-cases, Bool-cases, inl, inr,
}
use bangkusekolah_exam_node.Entity.{
  Time, AttemptStatus, in_progress, submitted, auto_submitted, graded, AttemptResetOperation,
  AttemptResetOperationStatus, Err,
}
use bangkusekolah_exam_node.Store.{Store}
use bangkusekolah_exam_node.Exec.{ok, time_now}
use bangkusekolah_exam_node.Exec.Hoare.{Hoare, Hoare-pure, Hoare-change, Hoare-bind, Hoare-time_now}
use bangkusekolah_exam_node.Repository.Resets.{
  same_status, update_attempt_reset_operation, operation_updated, operation_written,
}
use bangkusekolah_exam_node.Reset.{
  AttemptResetCommand, AttemptResetOutcome, validate_attempt_reset_command,
}
use bangkusekolah_exam_node.Reset.Operation.{
  same_time_pointer, same_expected, same_reset_command, new_attempt_reset_operation, is_pending,
  attempt_reset_operation_outcome, finish_rejected_reset, error_text,
}

eqb_refl : (n : ℕ) → eqb n n ≡ true
eqb_refl n = ground arith

same_status_refl : (s : AttemptStatus) → same_status s s ≡ true
same_status_refl in_progress = refl
same_status_refl submitted = refl
same_status_refl auto_submitted = refl
same_status_refl graded = refl

same_expected_refl : (o : Option AttemptStatus) → same_expected o o ≡ true
same_expected_refl none = refl
same_expected_refl (some s) = same_status_refl s

same_time_pointer_refl : (o : Option Time) → same_time_pointer o o ≡ true
same_time_pointer_refl none = refl
same_time_pointer_refl (some t) = ground arith

pub valid-resets :
    (c : AttemptResetCommand)
    → validate_attempt_reset_command c ≡ ok tt
    → (c.operation == "reset") ≡ true
unfolding validate_attempt_reset_command
valid-resets c valid = elim (Bool-cases (c.operation == "reset")) [
  | inl resets ↦ resets
  | inr other ↦ absurd (ground arith)
]

-- A new operation is that of its command.
pub new-same :
    (c : AttemptResetCommand) (hash : String) (now : Time)
    → (c.operation == "reset") ≡ true
    → same_reset_command (new_attempt_reset_operation c hash now) c ≡ true
unfolding same_reset_command
new-same c hash now resets =
    let no_preview : (c.operation == "preview") ≡ false =
      rw ((eq_iff c.operation "reset").0 resets) refl in
    rw
      (
        no_preview,
        eq_refl c.request_id,
        eq_refl c.operation,
        eq_refl c.node_id,
        eq_refl c.deployment_id,
        eq_refl c.exam_id,
        eq_refl c.student_id,
        eq_refl c.participant_id,
        eqb_refl c.expected_generation,
        same_expected_refl c.expected_status,
        eqb_refl c.expected_due_at,
        same_time_pointer_refl c.expected_submitted_at,
        same_time_pointer_refl c.expected_auto_submitted_at,
        eqb_refl c.deadline,
        eq_refl c.attempt_id,
        eqb_refl c.target_generation,
      )
      refl

abbrev pub Any : Store → Type 0
Any d = Unit

module _ (c : AttemptResetCommand) (hash : String) where
  abbrev pub stored : Store → Option AttemptResetOperation
  stored d = find? (λ r. r.request_id == c.request_id) d.reset_operations

  -- An operation of this very command.
  pub record IsOwn (o : AttemptResetOperation) : Type 0 where
    pub request_id : o.request_id ≡ c.request_id
    pub same_hash : (o.command_hash == hash) ≡ true
    pub same_fields : same_reset_command o c ≡ true

  -- The operation is stored, and it is handled with this outcome.
  pub record Handled (outcome : AttemptResetOutcome) (d : Store) : Type 0 where
    pub operation : AttemptResetOperation
    pub found : stored d ≡ some operation
    pub own : IsOwn operation
    pub settled : is_pending operation.status ≡ false
    pub answers : outcome ≡ attempt_reset_operation_outcome operation

  abbrev pub Open : AttemptResetOperation → Store → Type 0
  Open o d = stored d ≡ some o

  written_row :
      (o done : AttemptResetOperation) (d : Store)
      → done.request_id ≡ c.request_id
      → stored d ≡ some o
      → (d' : Store) (u : Unit {0}) → operation_updated done d ≡ ok (u, d')
      → stored d' ≡ some (operation_written done o)
  written_row o done d same found d' u wrote =
      elim (Option-cases (find? (λ r. r.request_id == done.request_id) d.reset_operations)) [
        | inl none_there ↦ absurd (ground arith)
        | inr (x, there) ↦
            let updated =
              find?-update_where (λ r. r.request_id == done.request_id)
                (λ r. r.request_id == c.request_id) (operation_written done) d.reset_operations
                (λ r. refl) in
            ground (
              arith,
              updated,
              same,
              found,
              eq_refl c.request_id,
              find?-some (λ r. r.request_id == c.request_id) d.reset_operations found,
            )
      ]

  update-Handled :
      (o done : AttemptResetOperation)
      → IsOwn (operation_written done o)
      → done.request_id ≡ c.request_id
      → is_pending done.status ≡ false
      → Hoare
          (Open o)
          (update_attempt_reset_operation done)
          (λ _. Handled (attempt_reset_operation_outcome (operation_written done o)))
          Any
  unfolding update_attempt_reset_operation
  update-Handled o done own same settled =
      Hoare-change (operation_updated done) (λ d k. tt)
        λ d u d' found wrote. record {
          operation = operation_written done o;
          found = written_row o done d same found d' u wrote;
          own = own;
          settled = settled;
          answers = refl;
        }

  pub finish_rejected-Handled :
      (o : AttemptResetOperation) (status : AttemptResetOperationStatus) (code : String) (e : Err)
      → IsOwn o
      → is_pending status ≡ false
      → Hoare (Open o) (finish_rejected_reset o status code e) Handled Any
  unfolding finish_rejected_reset attempt_reset_operation_outcome same_reset_command
  finish_rejected-Handled o status code e own settled =
      Hoare-bind (λ _. Open o) time_now _ Hoare-time_now
        λ now.
          let done = record o {
            status = status;
            code = code;
            message = error_text e;
            updated_at = now;
          } in
          Hoare-bind (λ _. Handled (attempt_reset_operation_outcome done))
            (update_attempt_reset_operation done) _
            (update-Handled o done
              (record {
                request_id = own.request_id;
                same_hash = own.same_hash;
                same_fields = own.same_fields;
              })
              own.request_id settled)
            λ u. Hoare-pure (attempt_reset_operation_outcome done) (λ d k. k)
