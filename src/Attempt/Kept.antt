-- ===== src/Attempt/Kept.antt =====
-- Starting an attempt keeps the invariant, and returns an attempt that the participant may use
-- (app/service/attempt_service.go).
use bangkusekolah_exam_node.Base.{
  ◌≡◌, refl, sym, subst, true, String, ◌==◌, eq_iff, Option, none, some, List, arith, All,
  find?-some, insert_row, inl, inr, Option-cases, trim_space, not, ◌||◌, ltb,
}
use bangkusekolah_exam_node.Entity.{
  Time, Exam, Attempt, Participant, exam_not_loaded, participant_not_found, exam_not_open,
  forbidden,
}
use bangkusekolah_exam_node.Store.{Store, ParticipantRow, to_participant_entity}
use bangkusekolah_exam_node.Exec.{
  World, ok, ◌>>=◌, ◌>>◌, try, time_now, new_id, guard, query, or_err,
}
use bangkusekolah_exam_node.Exec.Hoare.{
  Hoare, Outcome, Hoare-pure, Hoare-change, Hoare-atomic, Hoare-bind, Hoare-guard, Hoare-time_now,
  Hoare-new_id, Hoare-lookup, Hoare-loose, Hoare-query,
}
use bangkusekolah_exam_node.Repository.{
  find_exam_by_id, find_participant_by_id, find_active_attempt_by_participant_and_exam,
  create_attempt, update_participant, active_attempt_row, exam_row, participant_entity,
  attempt_inserted, participant_updated,
}
use bangkusekolah_exam_node.Invariant.{Fits, Inv, Kept, Kept-Inv, row_of}
use bangkusekolah_exam_node.Attempt.{
  resume_active, resume_locked, new_attempt, create_next, return_or_create, open_attempt,
  return_or_open, start_attempt,
}
use bangkusekolah_exam_node.Attempt.Create.{next_count, roster_after, attempts_after}
use bangkusekolah_exam_node.Attempt.Resume.{
  Serves, Resumed, Searched, find_active-Searched, resume_active-Kept, resume_locked-Kept,
}

module _ (ps : List ParticipantRow) (row : ParticipantRow) (pid eid device : String)
    (found : row_of ps pid ≡ some row) (enrolled : row.exam_id ≡ eid) (exam : Exam)
    (named : exam.id ≡ eid) (now : Time) where
  -- Between the two writes the attempts already fit the roster to come.
  Created : String → Store → Type 0
  Created id d =
      (d.participants ≡ ps) × All (Fits (roster_after ps row pid eid id found enrolled)) d.attempts

  after_create :
      (id : String) (d d' : Store)
      → Kept ps d
      → active_attempt_row d pid eid ≡ none
      → attempt_inserted (new_attempt exam now device pid (to_participant_entity row) id) d
        ≡ ok (tt, d')
      → Created id d'
  unfolding Created
  after_create id d d' k idle e =
      let new : Attempt = new_attempt exam now device pid (to_participant_entity row) id in
      let same : record d { attempts = insert_row (λ r. r.id) new d.attempts } ≡ d' =
        ground arith in
      subst (Created id) same (
        k.0,
        attempts_after ps row pid eid id found enrolled exam now device d.attempts named idle k.1,
      )

  after_update :
      (id : String) (d d' : Store)
      → Created id d
      → participant_updated (next_count (to_participant_entity row) id) d ≡ ok (tt, d')
      → Inv d'
  unfolding Created
  after_update id d d' c e =
      let after : Store = record d {
        participants = roster_after ps row pid eid id found enrolled;
      } in
      let same : after ≡ d' = ground (arith, c.0) in subst Inv same c.1

  row-id : row.id ≡ pid
  row-id = (eq_iff row.id pid).0 (find?-some (λ p. p.id == pid) ps found)

  pub create_next-Inv :
      Hoare
        (λ d. Kept ps d × (active_attempt_row d pid eid ≡ none))
        (create_next exam now device pid (to_participant_entity row))
        (λ a d. Inv d × Serves pid eid a)
        (λ _. Unit)
  unfolding create_next create_attempt update_participant new_attempt
  create_next-Inv =
      Hoare-bind (λ _ d. Kept ps d × (active_attempt_row d pid eid ≡ none)) _ _
        (Hoare-guard _ _ (λ d k. tt) (λ _ d k. k))
        λ _.
          Hoare-bind (λ _ d. Kept ps d × (active_attempt_row d pid eid ≡ none)) new_id _
            Hoare-new_id
            λ id.
              Hoare-bind (λ _. Created id) _ _
                (Hoare-change _ (λ d k. tt) (λ d _ d' k e. after_create id d d' k.0 k.1 e))
                λ _.
                  Hoare-bind (λ _. Inv) _ _
                    (Hoare-change _ (λ d k. tt) (λ d _ d' c e. after_update id d d' c e))
                    λ _.
                      Hoare-pure (new_attempt exam now device pid (to_participant_entity row) id)
                        (λ d k. (k, (refl, named, refl)))

-- The participant as the lookup finds it.
participant-row :
    (ps : List ParticipantRow) (d : Store) (pid : String) (p : Participant)
    → Kept ps d
    → participant_entity d pid ≡ some p
    → (row : ParticipantRow) × (row_of ps pid ≡ some row) × (p ≡ to_participant_entity row)
participant-row ps d pid p k e = elim (Option-cases (row_of ps pid)) [
  | inl missing ↦ ground (arith, k.0)
  | inr (row, hit) ↦ (row, hit, ground (arith, k.0))
]

module _ (ps : List ParticipantRow) (pid eid device : String) (exam : Exam) (named : exam.id ≡ eid)
    (now : Time) where
  return_or_create-Inv :
      (row : ParticipantRow)
      → row_of ps pid ≡ some row
      → row.exam_id ≡ eid
      → (o : Option Attempt)
      → Hoare
          (Resumed ps pid eid device (λ d. active_attempt_row d pid eid ≡ none) o)
          (return_or_create exam now device pid (to_participant_entity row) o)
          (λ a d. Inv d × Serves pid eid a)
          (λ _. Unit)
  unfolding return_or_create
  return_or_create-Inv row found enrolled none =
      create_next-Inv ps row pid eid device found enrolled exam named now
  return_or_create-Inv row found enrolled (some a) = Hoare-pure a (λ d k. (Kept-Inv ps d k.0, k.1))

  -- What follows once the participant is locked.
  search_again-Inv :
      (row : ParticipantRow)
      → row_of ps pid ≡ some row
      → row.exam_id ≡ eid
      → Hoare
          (Kept ps)
          (try (find_active_attempt_by_participant_and_exam pid eid) >>= λ r.
            resume_locked now device pid eid r
            >>= return_or_create exam now device pid (to_participant_entity row))
          (λ a d. Inv d × Serves pid eid a)
          (λ _. Unit)
  search_again-Inv row found enrolled =
      Hoare-bind (Searched ps pid eid device) _ _
        (Hoare-loose (λ _. Unit) _ (λ d k. tt) (find_active-Searched ps pid eid device))
        λ r.
          Hoare-bind (Resumed ps pid eid device (λ d. active_attempt_row d pid eid ≡ none)) _ _
            (Hoare-loose (λ _. Unit) _ (λ d k. tt) (resume_locked-Kept ps pid eid device now r))
            (return_or_create-Inv row found enrolled)

  open_attempt-Inv :
      Hoare
        (Kept ps)
        (open_attempt exam now device pid eid)
        (λ a d. Inv d × Serves pid eid a)
        (λ _. Unit)
  unfolding open_attempt find_participant_by_id
  open_attempt-Inv =
      Hoare-bind (λ p d. Kept ps d × (participant_entity d pid ≡ some p)) _ _
        (Hoare-loose (λ _. Unit) _ (λ d k. tt)
          (Hoare-lookup (Kept ps) (λ d. participant_entity d pid) participant_not_found))
        λ p.
          Hoare-bind
            (λ _ d. Kept ps d × (participant_entity d pid ≡ some p) × ((p.exam_id == eid) ≡ true)) _
            _ (Hoare-guard _ _ (λ d k. tt) (λ t d k. (k.0, k.1, t)))
            λ _. record {
              at = λ w k.
                  let (row, found, same) = participant-row ps w.db pid p k.0 k.1 in
                  let enrolled : row.exam_id ≡ eid =
                    ground (arith, same, k.2, eq_iff row.exam_id eid) in
                  subst
                    (λ q.
                      Outcome (λ a d. Inv d × Serves pid eid a) (λ _. Unit)
                        ((try (find_active_attempt_by_participant_and_exam pid eid) >>= λ r.
                            resume_locked now device pid eid r
                            >>= return_or_create exam now device pid q)
                          w))
                    (sym same) ((search_again-Inv row found enrolled).at w k.0);
            }

  return_or_open-Inv :
      (p : Participant) (o : Option Attempt)
      → Hoare
          (Resumed ps pid eid device (λ _. Unit) o)
          (return_or_open exam now device pid eid p o)
          (λ a d. Inv d × Serves pid eid a)
          Inv
  unfolding return_or_open
  return_or_open-Inv p (some a) = Hoare-pure a (λ d k. (Kept-Inv ps d k.0, k.1))
  return_or_open-Inv p none =
      Hoare-bind (λ _. Kept ps) _ _ (Hoare-guard _ _ (λ d k. Kept-Inv ps d k.0) (λ _ d k. k.0))
        λ _. Hoare-atomic _ (λ _. Unit) (Kept-Inv ps) open_attempt-Inv

  -- What follows the checks of the window and of the enrolment.
  search-Inv :
      (p : Participant)
      → Hoare
          (Kept ps)
          (try (find_active_attempt_by_participant_and_exam pid eid) >>= λ r.
            resume_active now device r >>= return_or_open exam now device pid eid p)
          (λ a d. Inv d × Serves pid eid a)
          Inv
  search-Inv p =
      Hoare-bind (Searched ps pid eid device) _ _
        (Hoare-loose Inv _ (Kept-Inv ps) (find_active-Searched ps pid eid device))
        λ r.
          Hoare-bind (Resumed ps pid eid device (λ _. Unit)) (resume_active now device r) _
            (Hoare-loose Inv _ (Kept-Inv ps) (resume_active-Kept ps pid eid device now r))
            (return_or_open-Inv p)

module _ (ps : List ParticipantRow) (pid eid raw : String) where
  exam-id : (d : Store) (e : Exam) → exam_row d eid ≡ some e → e.id ≡ eid
  exam-id d e found = (eq_iff e.id eid).0 (find?-some (λ x. x.id == eid) d.exams found)

  start_attempt-Inv :
      Hoare (Kept ps) (start_attempt pid eid raw) (λ a d. Inv d × Serves pid eid a) Inv
  unfolding start_attempt find_exam_by_id find_participant_by_id
  start_attempt-Inv =
      let lost = Kept-Inv ps in
      Hoare-bind (λ _. Kept ps) _ _ (Hoare-guard _ _ lost (λ _ d k. k))
        λ _.
          Hoare-bind (λ e d. Kept ps d × (exam_row d eid ≡ some e)) _ _
            (Hoare-loose Inv _ lost (Hoare-lookup (Kept ps) (λ d. exam_row d eid) exam_not_loaded))
            λ e. record { at = λ w k. (checks e (exam-id w.db e k.1)).at w k.0 }
    where
      checks :
          (e : Exam)
          → e.id ≡ eid
          → Hoare
              (Kept ps)
              (time_now >>= λ now.
                guard (not (ltb now e.starts_at || ltb e.ends_at now)) exam_not_open
                >> (query (λ d. or_err (participant_entity d pid) participant_not_found) >>= λ p.
                    guard (p.exam_id == eid) forbidden
                    >> (try (find_active_attempt_by_participant_and_exam pid eid) >>= λ r.
                        resume_active now (trim_space raw) r
                        >>= return_or_open e now (trim_space raw) pid eid p)))
              (λ a d. Inv d × Serves pid eid a)
              Inv
      checks e named =
          Hoare-bind (λ _. Kept ps) _ _ Hoare-time_now
            λ now.
              Hoare-bind (λ _. Kept ps) _ _ (Hoare-guard _ _ (Kept-Inv ps) (λ _ d k. k))
                λ _.
                  Hoare-bind (λ _. Kept ps) _ _ (Hoare-query _ (Kept-Inv ps) (λ d p k h. k))
                    λ p.
                      Hoare-bind (λ _. Kept ps) _ _ (Hoare-guard _ _ (Kept-Inv ps) (λ _ d k. k))
                        λ _. search-Inv ps pid eid (trim_space raw) e named now p

-- Where the invariant holds, it holds after StartAttempt too, whatever fails on the way, also in
-- the middle of a transaction; and an attempt that it returns is the participant's own, of that
-- exam, and in progress.
pub start_attempt-keeps_Inv :
    (pid eid raw : String) (w : World)
    → Inv w.db
    → Outcome (λ a d. Inv d × Serves pid eid a) Inv (start_attempt pid eid raw w)
start_attempt-keeps_Inv pid eid raw w inv =
    (start_attempt-Inv w.db.participants pid eid raw).at w (refl, inv)
