-- ===== src/Attempt/Return.antt =====
-- Starting again on the same device (app/service/attempt_service.go).
use bangkusekolah_exam_node.Base.{
  ℕ, ◌+◌, ◌≡◌, true, false, ◌||◌, String, ◌==◌, some, List, arith, ltb, leb, trim_space, byte_len,
}
use bangkusekolah_exam_node.Entity.{Time, Exam, Participant, Attempt}
use bangkusekolah_exam_node.Store.{Store}
use bangkusekolah_exam_node.Exec.{ok, calm, query, time_now, AnswerColumn}
use bangkusekolah_exam_node.Repository.{
  exam_row, participant_entity, active_attempt_row, find_exam_by_id, find_participant_by_id,
  find_active_attempt_by_participant_and_exam,
}
use bangkusekolah_exam_node.Attempt.{
  claim_free, claim_device, expired_or, resume_active, return_or_open, start_attempt,
}

module _ (d : Store) (now : Time) (uuid : ℕ → String) (order : List AnswerColumn)
    (pid eid raw : String) (exam : Exam) (p : Participant) (held : Attempt) where
  -- Where no statement fails, and while the exam is open, a participant of the exam who starts it
  -- on the device that the active attempt is bound to (an id of at most 128 bytes) gets this
  -- attempt back until it is overdue, and nothing changes.
  pub start_attempt-resumes :
      leb (byte_len (trim_space raw)) 128 ≡ true
      → exam_row d eid ≡ some exam
      → (ltb now exam.starts_at || ltb exam.ends_at now) ≡ false
      → participant_entity d pid ≡ some p
      → (p.exam_id == eid) ≡ true
      → active_attempt_row d pid eid ≡ some held
      → (held.device_id == "") ≡ false
      → (held.device_id == trim_space raw) ≡ true
      → ltb held.due_at now ≡ false
      → start_attempt pid eid raw (calm d now uuid order) ≡ (ok held, calm d now uuid order)
  unfolding start_attempt resume_active return_or_open claim_device claim_free expired_or
      find_exam_by_id find_participant_by_id find_active_attempt_by_participant_and_exam query
      time_now
  start_attempt-resumes short found opened enrolled its_exam active bound same in_time =
      let still : now + 0 ≡ now = ground arith in
      rw (short, found, opened, enrolled, its_exam, active, bound, same, in_time, still)
