-- ===== src/Integrity.antt =====
-- Recording an integrity event of an attempt (app/service/integrity_service.go).
pub mod Limit
pub mod Once
use bangkusekolah_exam_node.Base.{
  ℕ, ◌-◌, ◌*◌, Bool, true, false, not, String, ◌==◌, Option, if◌then◌else◌, ltb,
}
use bangkusekolah_exam_node.Json.{Members}
use bangkusekolah_exam_node.Entity.{
  Time, minute, Attempt, IntegrityEvent, Err, forbidden, integrity_flood, attempt_not_found,
}
use bangkusekolah_exam_node.Exec.{
  M, Result, ok, err, pure, raise, ◌>>=◌, ◌>>◌, guard, try, atomic, time_now, new_id,
}
use bangkusekolah_exam_node.Repository.{find_attempt_by_id}
use bangkusekolah_exam_node.Repository.Integrity.{
  count_integrity_events_since, find_integrity_event_since, create_integrity_event,
}

abbrev pub integrity_rate_limit : ℕ
integrity_rate_limit = 10

abbrev pub integrity_rate_window : Time
integrity_rate_window = minute

abbrev pub integrity_dedup_win : Time
integrity_dedup_win = 5 * 1000000000

-- What the client sends of an event.
pub record EventReport : Type 0 where
  pub event_type : String
  pub description : Option String
  pub metadata : Members

abbrev pub is_attempt_not_found : Err → Bool
is_attempt_not_found attempt_not_found = true
is_attempt_not_found _ = false

abbrev pub new_event : String → EventReport → Attempt → Time → String → IntegrityEvent
new_event attempt_id report attempt now id = record {
  id = id;
  attempt_id = attempt_id;
  student_id = attempt.student_id;
  event_type = report.event_type;
  description = report.description;
  metadata_json = report.metadata;
  created_at = now;
}

unfoldable pub store_event : String → EventReport → Attempt → Time → M IntegrityEvent
store_event attempt_id report attempt now = do
  id ← new_id
  create_integrity_event (new_event attempt_id report attempt now id)
  pure (new_event attempt_id report attempt now id)

-- An event of the same type a moment ago is the answer itself.
unfoldable pub store_unless_same :
    String → EventReport → Attempt → Time → Result IntegrityEvent → M IntegrityEvent
unfolding store_event
store_unless_same attempt_id report attempt now (ok same) = pure same
store_unless_same attempt_id report attempt now (err e) =
    if is_attempt_not_found e then store_event attempt_id report attempt now else raise e

unfoldable pub record_at : String → EventReport → Attempt → Time → M IntegrityEvent
unfolding store_unless_same
record_at attempt_id report attempt now = do
  count ← count_integrity_events_since attempt_id (now - integrity_rate_window)
  guard (ltb count integrity_rate_limit) integrity_flood
  same ← try (find_integrity_event_since attempt_id report.event_type (now - integrity_dedup_win))
  store_unless_same attempt_id report attempt now same

unfoldable pub record_locked : String → String → EventReport → M IntegrityEvent
unfolding record_at
record_locked attempt_id participant_id report = do
  attempt ← find_attempt_by_id attempt_id
  guard (attempt.participant_id == participant_id) forbidden
  now ← time_now
  record_at attempt_id report attempt now

-- RecordEvent
unfoldable pub record_event : String → String → EventReport → M IntegrityEvent
unfolding record_locked
record_event attempt_id participant_id report =
    atomic (record_locked attempt_id participant_id report)
