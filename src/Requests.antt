-- ===== src/Requests.antt =====
-- Everything that the student's requests and the sweeper do to the attempts, in any order, with
-- failures of the database anywhere (app/service/attempt_service.go, sweeper_service.go).
use bangkusekolah_exam_node.Base.{
  ℕ, ◌≡◌, refl, String, Option, List, [], ◌∷◌, ◌==◌, ◌∙◌, subst, All, arith, Bool-cases, inl, inr,
  trim_space, true, false, not, ltb, ◌||◌,
}
use bangkusekolah_exam_node.Json.{Members}
use bangkusekolah_exam_node.Entity.{
  Time, Attempt, Answer, forbidden, finished_status, is_in_progress, attempt_locked,
  attempt_expired, is_finished, result_not_available,
}
use bangkusekolah_exam_node.Store.{Store, ParticipantRow}
use bangkusekolah_exam_node.Exec.{
  M, World, Result, ok, err, pure, guard, try, change, new_id, time_now, AnswerColumn,
}
use bangkusekolah_exam_node.Exec.Hoare.{
  Hoare, Outcome, Outcome-either, Hoare-pure, Hoare-if, Hoare-query, Hoare-change, Hoare-bind,
  Hoare-guard, Hoare-time_now, Hoare-new_id,
}
use bangkusekolah_exam_node.Repository.{
  find_attempt_by_id, list_answers_by_attempt, find_item_by_id, list_expired_attempts,
  find_latest_attempt_by_participant_and_exam,
}
use bangkusekolah_exam_node.Repository.Answers.{upsert_answer, answer_upserted}
use bangkusekolah_exam_node.Invariant.{Fits, Inv, Kept, Kept-Inv}
use bangkusekolah_exam_node.Finalizer.{finalize_attempt}
use bangkusekolah_exam_node.Finalizer.Kept.{finalize_attempt-Kept}
use bangkusekolah_exam_node.Attempt.{
  start_attempt, start_attempt_with_device, get_attempt_state, refresh, autosave_answer,
  submit_attempt, submit_open, get_result, graded_answer,
}
use bangkusekolah_exam_node.Attempt.Kept.{start_attempt-keeps_Inv}
use bangkusekolah_exam_node.Attempt.Resume.{Serves}
use bangkusekolah_exam_node.Sweeper.{
  sweep_expired_attempts, sweep_listed, sweep_loop, note, SweepReport,
}

-- A request, with what it brings along.
pub data Request : Type 0 where
  starts : String → String → String → Request
  reads_state : String → String → Request
  autosaves : String → String → Members → Option String → ℕ → String → Request
  submits : String → String → Request
  asks_result : String → String → Request
  sweeps : Request

-- The world after a request, whether it was answered or failed.
unfoldable pub after_request : Request → World → World
after_request (starts pid eid device) w = (start_attempt_with_device pid eid device w).1
after_request (reads_state pid aid) w = (get_attempt_state pid aid w).1
after_request (autosaves aid item json answer_text seq pid) w =
    (autosave_answer aid item json answer_text seq pid w).1
after_request (submits aid pid) w = (submit_attempt aid pid w).1
after_request (asks_result pid eid) w = (get_result pid eid w).1
after_request sweeps w = (sweep_expired_attempts w).1

unfoldable pub after_requests : List Request → World → World
unfolding after_request
after_requests [] w = w
after_requests (r ∷ rs) w = after_requests rs (after_request r w)

module _ (ps : List ParticipantRow) where
  refresh-Kept :
      (now : Time) (a : Attempt) → Hoare (Kept ps) (refresh now a) (λ _. Kept ps) (Kept ps)
  unfolding refresh
  refresh-Kept now a =
      Hoare-if _ _ _
        (λ _.
          Hoare-bind (λ _. Kept ps) _ _ (finalize_attempt-Kept ps a.id true)
            λ r. Hoare-pure r.0 (λ d k. k))
        (λ _. Hoare-pure a (λ d k. k))

  get_attempt_state-Kept :
      (pid aid : String) → Hoare (Kept ps) (get_attempt_state pid aid) (λ _. Kept ps) (Kept ps)
  unfolding get_attempt_state find_attempt_by_id list_answers_by_attempt
  get_attempt_state-Kept pid aid =
      Hoare-bind (λ _. Kept ps) _ _ (Hoare-query _ (λ d k. k) (λ d a k e. k))
        λ a.
          Hoare-bind (λ _. Kept ps) _ _ (Hoare-guard _ _ (λ d k. k) (λ _ d k. k))
            λ _.
              Hoare-bind (λ _. Kept ps) _ _ Hoare-time_now
                λ now.
                  Hoare-bind (λ _. Kept ps) _ _ (refresh-Kept now a)
                    λ b.
                      Hoare-bind (λ _. Kept ps) _ _ (Hoare-query _ (λ d k. k) (λ d a k e. k))
                        λ answers. Hoare-pure _ (λ d k. k)

  submit_open-Kept :
      (aid : String) (a : Attempt) → Hoare (Kept ps) (submit_open aid a) (λ _. Kept ps) (Kept ps)
  unfolding submit_open
  submit_open-Kept aid a =
      Hoare-bind (λ _. Kept ps) _ _ (Hoare-guard _ _ (λ d k. k) (λ _ d k. k))
        λ _.
          Hoare-bind (λ _. Kept ps) _ _ Hoare-time_now
            λ now.
              Hoare-bind (λ _. Kept ps) _ _ (Hoare-guard _ _ (λ d k. k) (λ _ d k. k))
                λ _.
                  Hoare-bind (λ _. Kept ps) _ _ (finalize_attempt-Kept ps aid false)
                    λ r. Hoare-pure r.0 (λ d k. k)

  submit_attempt-Kept :
      (aid pid : String) → Hoare (Kept ps) (submit_attempt aid pid) (λ _. Kept ps) (Kept ps)
  unfolding submit_attempt find_attempt_by_id
  submit_attempt-Kept aid pid =
      Hoare-bind (λ _. Kept ps) _ _ (Hoare-query _ (λ d k. k) (λ d a k e. k))
        λ a.
          Hoare-bind (λ _. Kept ps) (guard (a.participant_id == pid) forbidden) _
            (Hoare-guard _ _ (λ d k. k) (λ _ d k. k))
            λ _.
              Hoare-if (finished_status a.status) (pure a) (submit_open aid a)
                (λ _. Hoare-pure a (λ d k. k)) (λ _. submit_open-Kept aid a)

  sweep_loop-Kept :
      (report : SweepReport) (l : List Attempt)
      → Hoare (Kept ps) (sweep_loop report l) (λ _. Kept ps) (Kept ps)
  unfolding sweep_loop
  sweep_loop-Kept report [] = Hoare-pure report (λ d k. k)
  sweep_loop-Kept report (a ∷ l) =
      Hoare-bind (λ _. Kept ps) (try (finalize_attempt a.id true)) _
        (record {
          at = λ w k.
              Outcome-either (Kept ps) (finalize_attempt a.id true w)
                ((finalize_attempt-Kept ps a.id true).at w k);
        })
        λ r. sweep_loop-Kept (note report a.id r) l

  sweep_listed-Kept :
      (r : Result (List Attempt)) → Hoare (Kept ps) (sweep_listed r) (λ _. Kept ps) (Kept ps)
  unfolding sweep_listed
  sweep_listed-Kept (err e) = Hoare-pure _ (λ d k. k)
  sweep_listed-Kept (ok l) = sweep_loop-Kept _ l

  list_expired_attempts-Kept :
      (now : Time) → Hoare (Kept ps) (list_expired_attempts now) (λ _. Kept ps) (Kept ps)
  unfolding list_expired_attempts
  list_expired_attempts-Kept now = Hoare-query _ (λ d k. k) (λ d l k e. k)

  sweep_expired_attempts-Kept : Hoare (Kept ps) sweep_expired_attempts (λ _. Kept ps) (Kept ps)
  unfolding sweep_expired_attempts
  sweep_expired_attempts-Kept =
      Hoare-bind (λ _. Kept ps) _ _ Hoare-time_now
        λ now.
          Hoare-bind (λ _. Kept ps) (try (list_expired_attempts now)) _
            (record {
              at = λ w k.
                  Outcome-either (Kept ps) (list_expired_attempts now w)
                    ((list_expired_attempts-Kept now).at w k);
            })
            sweep_listed-Kept

  answer_upserted-Kept :
      (order : List AnswerColumn) (a : Answer) (d d' : Store)
      → Kept ps d
      → answer_upserted order a d ≡ ok (tt, d')
      → Kept ps d'
  unfolding answer_upserted
  answer_upserted-Kept order a d d' k e =
      let roster : d'.participants ≡ d.participants = ground arith in
      let sittings : d.attempts ≡ d'.attempts = ground arith in
      (roster ∙ k.0, subst (All (Fits ps)) sittings k.1)

  upsert_answer-Kept : (a : Answer) → Hoare (Kept ps) (upsert_answer a) (λ _. Kept ps) (Kept ps)
  unfolding upsert_answer
  upsert_answer-Kept a = record {
    at = λ w k.
        (Hoare-bind {P = Kept ps} {R = λ _. Kept ps} {E = Kept ps} (λ _. Kept ps)
            (change (answer_upserted w.assignments a)) (λ _. pure a)
            (Hoare-change _ (λ d k. k)
              (λ d _ d' k e. answer_upserted-Kept w.assignments a d d' k e))
            (λ _. Hoare-pure a (λ d k. k))).at
          w k;
  }

  autosave_answer-Kept :
      (aid item : String) (json : Members) (answer_text : Option String) (seq : ℕ) (pid : String)
      → Hoare (Kept ps) (autosave_answer aid item json answer_text seq pid) (λ _. Kept ps) (Kept ps)
  unfolding autosave_answer find_attempt_by_id find_item_by_id
  autosave_answer-Kept aid item json answer_text seq pid =
      Hoare-bind (λ _. Kept ps) (find_attempt_by_id aid) _ (Hoare-query _ (λ d k. k) (λ d a k e. k))
        λ a.
          Hoare-bind (λ _. Kept ps) (guard (a.participant_id == pid) forbidden) _
            (Hoare-guard _ _ (λ d k. k) (λ _ d k. k))
            λ _.
              Hoare-bind (λ _. Kept ps) (guard (is_in_progress a.status) attempt_locked) _
                (Hoare-guard _ _ (λ d k. k) (λ _ d k. k))
                λ _.
                  Hoare-bind (λ _. Kept ps) time_now _ Hoare-time_now
                    λ now.
                      Hoare-bind (λ _. Kept ps) (guard (not (ltb a.due_at now)) attempt_expired) _
                        (Hoare-guard _ _ (λ d k. k) (λ _ d k. k))
                        λ _.
                          Hoare-bind (λ _. Kept ps) (find_item_by_id item) _
                            (Hoare-query _ (λ d k. k) (λ d i k e. k))
                            λ i.
                              Hoare-bind (λ _. Kept ps)
                                (guard (i.exam_id == "" || i.exam_id == a.exam_id) forbidden) _
                                (Hoare-guard _ _ (λ d k. k) (λ _ d k. k))
                                λ _.
                                  Hoare-bind (λ _. Kept ps) new_id _ Hoare-new_id
                                    λ id.
                                      upsert_answer-Kept
                                        (graded_answer i json answer_text id aid item now seq)

  get_result-Kept :
      (pid eid : String) → Hoare (Kept ps) (get_result pid eid) (λ _. Kept ps) (Kept ps)
  unfolding get_result find_latest_attempt_by_participant_and_exam
  get_result-Kept pid eid =
      Hoare-bind (λ _. Kept ps) _ _ (Hoare-query _ (λ d k. k) (λ d a k e. k))
        λ a.
          Hoare-bind (λ _. Kept ps) (guard (is_finished a) result_not_available) _
            (Hoare-guard _ _ (λ d k. k) (λ _ d k. k)) λ _. Hoare-pure a (λ d k. k)

-- What keeps the roster too keeps the invariant.
Kept-after :
    {A : Type 0} (m : M A) (w : World)
    → Hoare (Kept w.db.participants) m (λ _. Kept w.db.participants) (Kept w.db.participants)
    → Inv w.db
    → Inv (m w).1.db
Kept-after m w h inv =
    Kept-Inv w.db.participants (m w).1.db
      (Outcome-either (Kept w.db.participants) (m w) (h.at w (refl, inv)))

start_attempt-Inv :
    (pid eid device : String) (w : World) → Inv w.db → Inv (start_attempt pid eid device w).1.db
start_attempt-Inv pid eid device w inv =
    go (start_attempt pid eid device w) (start_attempt-keeps_Inv pid eid device w inv)
  where
    go : (r : Result Attempt × World) → Outcome (λ a d. Inv d × Serves pid eid a) Inv r → Inv r.1.db
    go (ok a, w') h = h.0
    go (err e, w') h = h

start_attempt_with_device-Inv :
    (pid eid device : String) (w : World)
    → Inv w.db
    → Inv (start_attempt_with_device pid eid device w).1.db
unfolding start_attempt_with_device
start_attempt_with_device-Inv pid eid device w inv = elim (Bool-cases (trim_space device == "")) [
  | inl blank ↦ rw blank inv
  | inr given ↦ rw given (start_attempt-Inv pid eid device w inv)
]

-- Every request keeps the invariant, answered or failed, and with failures of the database anywhere.
pub after_request-Inv : (r : Request) (w : World) → Inv w.db → Inv (after_request r w).db
unfolding after_request
after_request-Inv (starts pid eid device) w inv = start_attempt_with_device-Inv pid eid device w inv
after_request-Inv (reads_state pid aid) w inv =
    Kept-after _ w (get_attempt_state-Kept w.db.participants pid aid) inv
after_request-Inv (autosaves aid item json answer_text seq pid) w inv =
    Kept-after _ w (autosave_answer-Kept w.db.participants aid item json answer_text seq pid) inv
after_request-Inv (submits aid pid) w inv =
    Kept-after _ w (submit_attempt-Kept w.db.participants aid pid) inv
after_request-Inv (asks_result pid eid) w inv =
    Kept-after _ w (get_result-Kept w.db.participants pid eid) inv
after_request-Inv sweeps w inv = Kept-after _ w (sweep_expired_attempts-Kept w.db.participants) inv

-- The invariant survives any requests and sweeps, in any order, answered or failed, and with
-- failures of the database anywhere: every attempt belongs to the exam of its participant, has a
-- number that the participant counts, has the times and the score that go with its status, and is
-- its participant's latest while it is in progress.
pub after_requests-Inv : (rs : List Request) (w : World) → Inv w.db → Inv (after_requests rs w).db
unfolding after_requests
after_requests-Inv [] w inv = inv
after_requests-Inv (r ∷ rs) w inv =
    after_requests-Inv rs (after_request r w) (after_request-Inv r w inv)
