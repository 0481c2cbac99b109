-- ===== src/Harvest/Counts.antt =====
-- The number that drainDeployment reports (app/service/harvest_service.go).
use bangkusekolah_exam_node.Base.{
  ℕ, ◌+◌, ◌≡◌, refl, Bool, ◌&&◌, not, String, Option, none, some, List, [], ◌∷◌, eqb, length, take,
  count_where, update_where, Dict, arith,
}
use bangkusekolah_exam_node.Entity.{
  Time, Attempt, Err, nil_acknowledgement, final_rejected, ack_mismatch,
}
use bangkusekolah_exam_node.Store.{Store}
use bangkusekolah_exam_node.Exec.{M, World, Result, ok, err, try, time_now}
use bangkusekolah_exam_node.Exec.Hoare.{
  Hoare, Hoare-pure, Hoare-raise, Hoare-bind, Hoare-if, Hoare-change, Hoare-guard, Hoare-loose,
  Hoare-time_now, Outcome, Hoare-after,
}
use bangkusekolah_exam_node.Repository.Harvest.{
  is_unpushed, harvested, is_of_generation, attempts_marked, mark_attempts_harvested_for_generation,
  log_harvest_failure,
}
use bangkusekolah_exam_node.Harvest.{
  HarvestPusher, ExamNodeAttemptPayload, ExamNodeAttemptBatch, ExamNodeIngestResult, Settling,
  settled, generations_of, build_payloads, max_batch_attempts, mark_accepted, log_rejections,
  log_and_fail, first_id, settle, answered, drain_deployment,
}
use bangkusekolah_exam_node.Harvest.Log.{log_rejections-Keeps, build_payloads-Keeps}

-- How many attempts wait for the harvest.
abbrev pub waiting : Store → ℕ
waiting d = count_where is_unpushed d.attempts

count_where-marked :
    (p : Attempt → Bool) (at : Time) (xs : List Attempt)
    → count_where (λ a. p a && is_unpushed a) xs
        + count_where is_unpushed (update_where (λ a. p a && is_unpushed a) (harvested at) xs)
      ≡ count_where is_unpushed xs
unfolding count_where update_where
count_where-marked p at [] = refl
count_where-marked p at (a ∷ xs) = ground (arith, count_where-marked p at xs)

module _ (total : ℕ) where
  -- So many attempts wait, and so many are marked already.
  abbrev Left : ℕ → Store → Type 0
  Left n d = n + waiting d ≡ total

  abbrev Any : Store → Type 0
  Any d = Unit

  loosely :
      {A : Type 0} {P : Store → Type 0} {Q : A → Store → Type 0} {E : Store → Type 0} (m : M A)
      → Hoare P m Q E
      → Hoare P m Q Any
  loosely {E = E} m h = Hoare-loose Any m (λ d e. tt) h

  mark_for_generation-Left :
      (gs : Dict ℕ) (now : Time)
      → Hoare (Left 0) (mark_attempts_harvested_for_generation gs now) Left (Left 0)
  unfolding mark_attempts_harvested_for_generation
  mark_for_generation-Left [] now = Hoare-pure 0 (λ d k. k)
  mark_for_generation-Left (g ∷ gs) now =
      Hoare-change (attempts_marked (is_of_generation (g ∷ gs)) now) (λ d k. k)
        λ d n d' k wrote.
          ground (arith, count_where-marked (is_of_generation (g ∷ gs)) now d.attempts)

  mark_accepted-Left :
      (payloads : List ExamNodeAttemptPayload) (ids : List String) (now : Time)
      → Hoare (Left 0) (mark_accepted payloads ids now) (λ _. Left (length ids)) Any
  unfolding mark_accepted
  mark_accepted-Left payloads [] now = Hoare-pure tt (λ d k. k)
  mark_accepted-Left payloads (id ∷ ids) now =
      let gs = generations_of payloads (id ∷ ids) [] in
      Hoare-bind Left (mark_attempts_harvested_for_generation gs now) _
        (loosely _ (mark_for_generation-Left gs now))
        λ marked.
          Hoare-guard (eqb marked (length (id ∷ ids))) (ack_mismatch marked (length (id ∷ ids)))
            (λ d k. tt) λ all d k. ground arith

  settle-Left :
      (deployment_id : String) (batch : ExamNodeAttemptBatch) (result : ExamNodeIngestResult)
      (s : Settling)
      → Hoare (Left 0) (settle deployment_id batch result s) Left Any
  unfolding settle
  settle-Left deployment_id batch result s =
      Hoare-bind (λ _. Left 0) time_now _ Hoare-time_now
        λ now.
          Hoare-bind (λ _. Left (length s.accepted)) (mark_accepted batch.attempts s.accepted now) _
            (mark_accepted-Left batch.attempts s.accepted now)
            λ marked.
              Hoare-bind (λ _. Left (length s.accepted))
                (log_rejections deployment_id s.sent result.failures) _
                (loosely _ (
                  log_rejections-Keeps (Left (length s.accepted)) (λ d entry k. k) deployment_id
                    s.sent result.failures))
                λ logged.
                  Hoare-if (batch.final && not (eqb (length result.failures) 0)) _ _
                    (λ t. Hoare-raise (final_rejected (length result.failures)) (λ d k. tt))
                    (λ f. Hoare-pure (length s.accepted) (λ d k. k))

  failed-Left :
      (deployment_id : String) (ps : List ExamNodeAttemptPayload) (e : Err)
      → Hoare (Left 0) (log_and_fail deployment_id ps e) Left Any
  unfolding log_and_fail
  failed-Left deployment_id ps e =
      Hoare-after (try (log_harvest_failure (first_id ps) deployment_id (length ps) e))
        λ r. Hoare-raise e (λ d k. tt)

  answered-Left :
      (deployment_id : String) (batch : ExamNodeAttemptBatch)
      (r : Result (Option ExamNodeIngestResult))
      → Hoare (Left 0) (answered deployment_id batch r) Left Any
  unfolding answered
  answered-Left deployment_id batch (err e) = failed-Left deployment_id batch.attempts e
  answered-Left deployment_id batch (ok none) =
      failed-Left deployment_id batch.attempts nil_acknowledgement
  answered-Left deployment_id batch (ok (some result)) =
      settle-Left deployment_id batch result (settled batch result)

-- When drainDeployment returns a number, exactly so many attempts have left the queue of the
-- harvest, whatever Central answers and wherever the database fails before.
pub drain_deployment-counts :
    (push : HarvestPusher) (deployment_id : String) (attempts : List Attempt) (final : Bool)
    (w : World)
    → Outcome
        (λ n d. n + waiting d ≡ waiting w.db)
        (λ _. Unit)
        (drain_deployment push deployment_id attempts final w)
unfolding drain_deployment
drain_deployment-counts push deployment_id attempts final w =
    (Hoare-bind (λ _. Left (waiting w.db) 0) (build_payloads (take max_batch_attempts attempts)) _
        (loosely (waiting w.db) _
          (build_payloads-Keeps (Left (waiting w.db) 0) (take max_batch_attempts attempts)))
        λ ps.
          let batch : ExamNodeAttemptBatch = record { attempts = ps; final = final } in
          record {
            at = λ v k.
                (answered-Left (waiting w.db) deployment_id batch (push deployment_id batch v)).at v
                  k;
          }).at
      w (ground arith)
