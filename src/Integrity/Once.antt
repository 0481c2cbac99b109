-- ===== src/Integrity/Once.antt =====
-- Reporting an event again (app/service/integrity_service.go).
use bangkusekolah_exam_node.Base.{ℕ, String, List, insert_row}
use bangkusekolah_exam_node.Entity.{Time, Attempt, IntegrityEvent}
use bangkusekolah_exam_node.Store.{Store}
use bangkusekolah_exam_node.Exec.{AnswerColumn}
use bangkusekolah_exam_node.Integrity.{EventReport, new_event}

module _ (d : Store) (now later : Time) (uuid next_uuid : ℕ → String) (order : List AnswerColumn)
    (attempt_id participant_id : String) (report : EventReport) (attempt : Attempt) where
  -- The event, and the tables with it.
  abbrev pub stored : IntegrityEvent
  stored = new_event attempt_id report attempt now (uuid 0)

  abbrev pub with_stored : Store
  with_stored = record d { integrity_events = insert_row (λ r. r.id) stored d.integrity_events }
