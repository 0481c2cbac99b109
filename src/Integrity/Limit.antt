-- ===== src/Integrity/Limit.antt =====
-- How many integrity events an attempt can have in a minute (app/service/integrity_service.go).
use bangkusekolah_exam_node.Base.{
  ℕ, suc, ◌-◌, ◌≤◌, ◌≡◌, subst, Bool, true, false, String, ◌==◌, if◌then◌else◌, ltb, find?,
  insert_row, count_where-insert_row, Option-cases, inl, inr, arith,
}
use bangkusekolah_exam_node.Entity.{
  Time, Attempt, IntegrityEvent, forbidden, integrity_flood, attempt_not_found,
  repository_unavailable,
}
use bangkusekolah_exam_node.Store.{Store}
use bangkusekolah_exam_node.Exec.{
  World, Result, ok, err, or_err, ◌>>=◌, continue, guard, try, query, atomic, time_now, new_id,
  head_fault, statement_sent,
}
use bangkusekolah_exam_node.Exec.Hoare.{
  Hoare, Outcome, Hoare-pure, Hoare-raise, Hoare-bind, Hoare-if, Hoare-query, Hoare-change,
  Hoare-guard, Hoare-new_id, Hoare-loose, commit-Outcome,
}
use bangkusekolah_exam_node.Exec.Keeps.{Keeps-try, Keeps-query}
use bangkusekolah_exam_node.Repository.{attempt_row, find_attempt_by_id}
use bangkusekolah_exam_node.Repository.Integrity.{
  is_event_since, events_since, count_integrity_events_since, find_integrity_event_since,
  event_inserted, create_integrity_event,
}
use bangkusekolah_exam_node.Integrity.{
  EventReport, integrity_rate_limit, integrity_rate_window, integrity_dedup_win,
  is_attempt_not_found, new_event, store_event, store_unless_same, record_at, record_locked,
  record_event,
}

module _ (attempt_id : String) (now : Time) where
  abbrev pub recent : Store → ℕ
  recent d = events_since d attempt_id (now - integrity_rate_window)

  abbrev pub Few : Store → Type 0
  Few d = recent d ≤ integrity_rate_limit

  abbrev pub Room : Store → Type 0
  Room d = suc (recent d) ≤ integrity_rate_limit

  abbrev pub Any : Store → Type 0
  Any d = Unit

  inserted-Few :
      (e : IntegrityEvent) (d d' : Store) (u : Unit {0})
      → Room d
      → event_inserted e d ≡ ok (u, d')
      → Few d'
  inserted-Few e d d' u room wrote =
      elim (Option-cases (find? (λ r. r.id == e.id) d.integrity_events)) [
        | inr (x, taken) ↦ absurd (ground arith)
        | inl free ↦
            let same : record d { integrity_events = insert_row (λ r. r.id) e d.integrity_events }
                ≡ d' =
              ground arith in
            let counted =
              count_where-insert_row (λ r. r.id)
                (is_event_since attempt_id (now - integrity_rate_window)) e d.integrity_events in
            subst Few same (ground (arith, counted))
      ]

  store_event-Few :
      (report : EventReport) (attempt : Attempt)
      → Hoare Room (store_event attempt_id report attempt now) (λ _. Few) Any
  unfolding store_event create_integrity_event
  store_event-Few report attempt =
      Hoare-bind (λ _. Room) new_id _ Hoare-new_id
        λ id.
          let event = new_event attempt_id report attempt now id in
          Hoare-bind (λ _. Few) (create_integrity_event event) _
            (Hoare-change (event_inserted event) (λ d k. tt)
              (λ d u d' room wrote. inserted-Few event d d' u room wrote))
            λ u. Hoare-pure event (λ d k. k)

  store_unless_same-Few :
      (report : EventReport) (attempt : Attempt) (r : Result IntegrityEvent)
      → Hoare Room (store_unless_same attempt_id report attempt now r) (λ _. Few) Any
  unfolding store_unless_same
  store_unless_same-Few report attempt (ok same) = Hoare-pure same (λ d room. omega arith)
  store_unless_same-Few report attempt (err e) =
      Hoare-if (is_attempt_not_found e) _ _ (λ t. store_event-Few report attempt)
        (λ f. Hoare-raise e (λ d k. tt))

  record_at-Few :
      (report : EventReport) (attempt : Attempt)
      → Hoare Few (record_at attempt_id report attempt now) (λ _. Few) Any
  unfolding record_at count_integrity_events_since find_integrity_event_since
  record_at-Few report attempt =
      Hoare-bind (λ count d. count ≡ recent d)
        (count_integrity_events_since attempt_id (now - integrity_rate_window)) _
        (Hoare-query _ (λ d k. tt) (λ d n k answer. ground (arith)))
        λ count.
          Hoare-bind (λ _. Room) (guard (ltb count integrity_rate_limit) integrity_flood) _
            (Hoare-guard (ltb count integrity_rate_limit) integrity_flood (λ d k. tt)
              (λ less d same. ground (arith)))
            λ u.
              Hoare-bind (λ _. Room)
                (try (
                  find_integrity_event_since attempt_id report.event_type
                    (now - integrity_dedup_win)))
                _ (Hoare-loose Any _ (λ d k. tt) (Keeps-try Room _ (Keeps-query Room _)))
                λ r. store_unless_same-Few report attempt r

module _ (attempt_id participant_id : String) (report : EventReport) where
  -- The clock does not move before it is read.
  record_locked-Few :
      (w : World)
      → events_since w.db attempt_id (w.clock - integrity_rate_window) ≤ integrity_rate_limit
      → Outcome
          (λ _. Few attempt_id w.clock)
          (λ _. Unit)
          (record_locked attempt_id participant_id report w)
  unfolding record_locked find_attempt_by_id query time_now
  record_locked-Few w few =
      looked_up (head_fault w.faults) (or_err (attempt_row w.db attempt_id) attempt_not_found)
    where
      owned :
          (a : Attempt) (b : Bool)
          → Outcome
              (λ _. Few attempt_id w.clock)
              (λ _. Unit)
              (continue
                (guard b forbidden (statement_sent w))
                (λ u. time_now >>= λ now. record_at attempt_id report a now))
      owned a true = (record_at-Few attempt_id w.clock report a).at _ few
      owned a false = tt

      looked_up :
          (b : Bool) (r : Result Attempt)
          → Outcome
              (λ _. Few attempt_id w.clock)
              (λ _. Unit)
              (continue
                (if b
                  then (err repository_unavailable, statement_sent w)
                  else (r, statement_sent w))
                (λ a. guard (a.participant_id == participant_id) forbidden >>= λ u.
                  time_now >>= λ now. record_at attempt_id report a now))
      looked_up true r = tt
      looked_up false (err e) = tt
      looked_up false (ok a) = owned a (a.participant_id == participant_id)

  -- Wherever the database fails: if an attempt has at most ten integrity events of the last minute
  -- when RecordEvent is called, it has at most ten of that minute afterwards, the new one included;
  -- and an error changes nothing.
  pub record_event-limits :
      (w : World)
      → events_since w.db attempt_id (w.clock - integrity_rate_window) ≤ integrity_rate_limit
      → Outcome
          (λ _ d.
            events_since d attempt_id (w.clock - integrity_rate_window) ≤ integrity_rate_limit)
          (λ d. d ≡ w.db)
          (record_event attempt_id participant_id report w)
  unfolding record_event atomic
  record_event-limits w few =
      commit-Outcome (λ _. Few attempt_id w.clock) Any_error w
        (record_locked attempt_id participant_id report w) (record_locked-Few w few)
    where
      Any_error : Store → Type 0
      Any_error d = Unit
