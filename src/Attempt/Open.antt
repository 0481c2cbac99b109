-- ===== src/Attempt/Open.antt =====
-- Starting where no attempt is active (app/service/attempt_service.go).
use bangkusekolah_exam_node.Base.{
  ℕ, ◌+◌, ◌*◌, ◌≡◌, true, false, ◌||◌, if◌then◌else◌, String, ◌==◌, none, some, List, arith, subst,
  ltb, leb, trim_space, byte_len, find?, insert_row, update_where,
}
use bangkusekolah_exam_node.Entity.{
  Time, minute, Exam, Participant, Attempt, AttemptStatus, GradingStatus,
}
use bangkusekolah_exam_node.Store.{Store}
use bangkusekolah_exam_node.Exec.{ok, calm, atomic, query, change, time_now, new_id, AnswerColumn}
use bangkusekolah_exam_node.Repository.{
  exam_row, participant_entity, active_attempt_row, same_attempt_key, find_exam_by_id,
  find_participant_by_id, find_active_attempt_by_participant_and_exam, create_attempt,
  update_participant,
}
use bangkusekolah_exam_node.Attempt.{
  resume_active, resume_locked, return_or_open, open_attempt, return_or_create, create_next,
  new_attempt, due_time, start_attempt,
}

module _ (d : Store) (now : Time) (uuid : ℕ → String) (order : List AnswerColumn)
    (pid eid raw : String) (exam : Exam) (p : Participant) where
  -- The attempt that is to be opened, and the tables with it.
  abbrev pub opened : Attempt
  opened = record {
    id = uuid 0;
    participant_id = pid;
    student_id = p.student_id;
    exam_id = exam.id;
    device_id = trim_space raw;
    attempt_no = p.attempt_count + 1;
    status = AttemptStatus.in_progress;
    started_at = now;
    due_at =
        if ltb exam.ends_at (now + exam.duration_minutes * minute)
        then exam.ends_at
        else now + exam.duration_minutes * minute;
    submitted_at = none;
    auto_submitted_at = none;
    score = none;
    max_score = exam.max_score;
    grading_status = GradingStatus.pending;
    reset_generation = 0;
    harvested_at = none;
  }

  new_attempt-opened : new_attempt exam now (trim_space raw) pid p (uuid 0) ≡ opened
  unfolding new_attempt due_time
  new_attempt-opened = ground arith

  abbrev with_attempt : Attempt → Store
  with_attempt a = record d {
    attempts = insert_row (λ r. r.id) a d.attempts;
    participants =
        update_where (λ r. r.id == p.id)
          (λ r. record r { attempt_count = p.attempt_count + 1; latest_attempt_id = some (uuid 0) })
          d.participants;
  }

  abbrev pub with_opened : Store
  with_opened = with_attempt opened

  module _ (enrolled : participant_entity d pid ≡ some p) (its_exam : (p.exam_id == eid) ≡ true)
      (idle : active_attempt_row d pid eid ≡ none)
      (left : ltb p.attempt_count exam.max_attempts ≡ true)
      (fresh : find? (same_attempt_key opened) d.attempts ≡ none) where
    open_attempt-new :
        let a = new_attempt exam now (trim_space raw) pid p (uuid 0) in
        find? (same_attempt_key a) d.attempts ≡ none
        → open_attempt exam now (trim_space raw) pid eid (calm d now uuid order)
          ≡ (ok a, record (calm (with_attempt a) now uuid order) { issued = 1 })
    unfolding open_attempt resume_locked return_or_create create_next find_participant_by_id
        find_active_attempt_by_participant_and_exam create_attempt update_participant query change
        new_id find? trim_space update_where insert_row
    open_attempt-new unused = rw (enrolled, its_exam, idle, left, unused)

    open_attempt-calm :
        open_attempt exam now (trim_space raw) pid eid (calm d now uuid order)
        ≡ (ok opened, record (calm with_opened now uuid order) { issued = 1 })
    open_attempt-calm =
        subst
          (λ a.
            find? (same_attempt_key a) d.attempts ≡ none
            → open_attempt exam now (trim_space raw) pid eid (calm d now uuid order)
              ≡ (ok a, record (calm (with_attempt a) now uuid order) { issued = 1 }))
          new_attempt-opened open_attempt-new fresh

    -- Where no statement fails, and while the exam is open, a participant of the exam without an
    -- active attempt, who has attempts left and gives a device id of at most 128 bytes, gets a new
    -- attempt if the minted id and the next number are unused: numbered after those that were
    -- counted, bound to the device, and due after the exam's duration, or at its end where that is
    -- earlier. The attempt is then in the table, and the participant counts it and names it as the
    -- latest; nothing else changes.
    pub start_attempt-opens :
        leb (byte_len (trim_space raw)) 128 ≡ true
        → exam_row d eid ≡ some exam
        → (ltb now exam.starts_at || ltb exam.ends_at now) ≡ false
        → start_attempt pid eid raw (calm d now uuid order)
          ≡ (ok opened, record (calm with_opened now uuid order) { issued = 1 })
    unfolding start_attempt resume_active return_or_open find_exam_by_id find_participant_by_id
        find_active_attempt_by_participant_and_exam query time_now atomic
    start_attempt-opens short found in_window =
        let still : now + 0 ≡ now = ground arith in
        rw (short, found, in_window, enrolled, its_exam, idle, left, still, open_attempt-calm)
