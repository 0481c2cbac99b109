-- ===== src/Examples/Integrity.antt =====
-- Integrity events of the attempt in the example.
use bangkusekolah_exam_node.Base.{
  ◌-◌, ◌≡◌, ◌≤◌, refl, none, count_where, find?, select, insert_row, [], ◌∷◌, arith,
}
use bangkusekolah_exam_node.Json.{end}
use bangkusekolah_exam_node.Exec.{query, change, atomic, time_now, new_id}
use bangkusekolah_exam_node.Exec.Hoare.{Outcome}
use bangkusekolah_exam_node.Repository.{find_attempt_by_id}
use bangkusekolah_exam_node.Repository.Integrity.{
  events_since, count_integrity_events_since, find_integrity_event_since, create_integrity_event,
}
use bangkusekolah_exam_node.Integrity.{
  EventReport, integrity_rate_limit, integrity_rate_window, new_event, record_event,
}
use bangkusekolah_exam_node.Integrity.Limit.{record_event-limits}
use bangkusekolah_exam_node.Examples.{first, sitting, world_of}

abbrev blurred : EventReport
blurred = record { event_type = "blur"; description = none; metadata = end }

-- The event is stored.
record_event_test :
    (record_event "first" "ani" blurred (world_of sitting)).1.db.integrity_events
    ≡ new_event "first" blurred first 200 "first" ∷ []
unfolding record_event find_attempt_by_id count_integrity_events_since find_integrity_event_since
    create_integrity_event query change atomic time_now new_id count_where find? select insert_row
record_event_test = refl

record_event-limits_example :
    Outcome
      (λ _ d. events_since d "first" (200 - integrity_rate_window) ≤ integrity_rate_limit)
      (λ d. d ≡ sitting)
      (record_event "first" "ani" blurred (world_of sitting))
unfolding count_where
record_event-limits_example =
    record_event-limits "first" "ani" blurred (world_of sitting) (omega arith)
