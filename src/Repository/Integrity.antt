-- ===== src/Repository/Integrity.antt =====
-- The methods of the repository on integrity events.
use bangkusekolah_exam_node.Base.{
  ℕ, Bool, ◌&&◌, String, ◌==◌, Option, none, some, List, [], ◌∷◌, if◌then◌else◌, ltb, leb, find?,
  select, count_where, insert_row,
}
use bangkusekolah_exam_node.Entity.{Time, IntegrityEvent, attempt_not_found, duplicate_key}
use bangkusekolah_exam_node.Store.{Store}
use bangkusekolah_exam_node.Exec.{M, Result, ok, err, or_err, query, change}

abbrev pub is_event_since : String → Time → IntegrityEvent → Bool
is_event_since attempt_id since e = e.attempt_id == attempt_id && leb since e.created_at

abbrev pub events_since : Store → String → Time → ℕ
events_since d attempt_id since = count_where (is_event_since attempt_id since) d.integrity_events

unfoldable pub count_integrity_events_since : String → Time → M ℕ
count_integrity_events_since attempt_id since = query (λ d. ok (events_since d attempt_id since))

abbrev pub newer_event : IntegrityEvent → Option IntegrityEvent → Option IntegrityEvent
newer_event e none = some e
newer_event e (some f) = if ltb e.created_at f.created_at then some f else some e

-- Order("created_at DESC").First
unfoldable pub newest : List IntegrityEvent → Option IntegrityEvent
newest [] = none
newest (e ∷ rest) = newer_event e (newest rest)

abbrev pub is_same_event : String → String → Time → IntegrityEvent → Bool
is_same_event attempt_id event_type since e =
    e.attempt_id == attempt_id && e.event_type == event_type && leb since e.created_at

unfoldable pub find_integrity_event_since : String → String → Time → M IntegrityEvent
unfolding newest
find_integrity_event_since attempt_id event_type since = query (λ d.
    or_err (newest (select (is_same_event attempt_id event_type since) d.integrity_events))
      attempt_not_found)

abbrev pub event_inserted : IntegrityEvent → Store → Result (Unit {0} × Store)
event_inserted e d = elim (find? (λ r. r.id == e.id) d.integrity_events) [
  | some _ ↦ err duplicate_key
  | none ↦ ok (tt, record d { integrity_events = insert_row (λ r. r.id) e d.integrity_events })
]

unfoldable pub create_integrity_event : IntegrityEvent → M (Unit {0})
create_integrity_event e = change (event_inserted e)
