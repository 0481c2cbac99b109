-- ===== src/Harvest/Only.antt =====
-- A drain marks what Central took and nothing else (drainDeployment and drainLocked of
-- app/service/harvest_service.go), whatever Central answers and wherever the database fails.
use bangkusekolah_exam_node.Base.{
  ℕ, ◌≡◌, refl, Bool, ◌&&◌, not, String, ◌==◌, Option, none, some, List, [], ◌∷◌, eqb, length, take,
  find?, All, Dict,
}
use bangkusekolah_exam_node.Entity.{Time, Attempt, final_rejected, nil_acknowledgement}
use bangkusekolah_exam_node.Store.{Store, HarvestLog}
use bangkusekolah_exam_node.Exec.{World, Result, ok, err, time_now}
use bangkusekolah_exam_node.Exec.Keeps.{
  Keeps, Keeps-pure, Keeps-raise, Keeps-guard, Keeps-bind, Keeps-if, Keeps-change, Keeps-time_now,
}
use bangkusekolah_exam_node.Repository.Harvest.{
  is_of_generation, attempts_marked, mark_attempts_harvested_for_generation,
}
use bangkusekolah_exam_node.Harvest.Log.{
  with_entry, log_rejections-Keeps, log_and_fail-Keeps, build_payloads-Keeps,
}
use bangkusekolah_exam_node.Harvest.Marks.{
  Acknowledged, Harvested, logged-Harvested, marked-Harvested,
}
use bangkusekolah_exam_node.Harvest.Settle.{
  All-own, settle_ids-All, generations_of-All, is_of_generation-All,
}
use bangkusekolah_exam_node.Harvest.{
  HarvestPusher, ExamNodeAttemptPayload, ExamNodeAttemptBatch, ExamNodeIngestResult, Settling,
  settled, all_sent, generations_of, build_payloads, mark_accepted, max_batch_attempts,
  log_rejections, settle, answered, drain_deployment,
}

module _ (push : HarvestPusher) (before : Store) where
  abbrev K : Store → Type 0
  K = Harvested push before

  pub logs : (d : Store) (entry : HarvestLog) → K d → K (with_entry entry d)
  logs d entry k = logged-Harvested push before d (with_entry entry d) entry tt k refl

  mark_for_generation-Keeps :
      (gs : Dict ℕ) (now : Time)
      → All (λ g. Acknowledged push g.0 g.1) gs
      → Keeps K (mark_attempts_harvested_for_generation gs now)
  unfolding mark_attempts_harvested_for_generation
  mark_for_generation-Keeps [] now acknowledged = Keeps-pure K 0
  mark_for_generation-Keeps (g ∷ gs) now acknowledged =
      Keeps-change K (attempts_marked (is_of_generation (g ∷ gs)) now) λ d n d' k wrote.
        marked-Harvested push before d d' (is_of_generation (g ∷ gs)) now n
          (λ r matched. is_of_generation-All (Acknowledged push) (g ∷ gs) r acknowledged matched) k
          wrote

  mark_accepted-Keeps :
      (payloads : List ExamNodeAttemptPayload) (ids : List String) (now : Time)
      → All
          (λ id.
            (p : ExamNodeAttemptPayload)
            → find? (λ q. q.id == id) payloads ≡ some p
            → Acknowledged push id p.reset_generation)
          ids
      → Keeps K (mark_accepted payloads ids now)
  unfolding mark_accepted
  mark_accepted-Keeps payloads [] now h = Keeps-pure K tt
  mark_accepted-Keeps payloads (id ∷ ids) now h =
      Keeps-bind K
        (mark_attempts_harvested_for_generation (generations_of payloads (id ∷ ids) []) now) _
        (mark_for_generation-Keeps (generations_of payloads (id ∷ ids) []) now
          (generations_of-All (λ g. Acknowledged push g.0 g.1) payloads (id ∷ ids) [] h tt))
        λ marked. Keeps-guard K _ _

  settled-Acknowledged :
      (deployment_id : String) (batch : ExamNodeAttemptBatch) (w : World)
      (result : ExamNodeIngestResult)
      → push deployment_id batch w ≡ ok (some result)
      → All
          (λ id.
            (p : ExamNodeAttemptPayload)
            → find? (λ q. q.id == id) batch.attempts ≡ some p
            → Acknowledged push id p.reset_generation)
          (settled batch result).accepted
  settled-Acknowledged deployment_id batch w result answer =
      settle_ids-All
        (λ id.
          (p : ExamNodeAttemptPayload)
          → find? (λ q. q.id == id) batch.attempts ≡ some p
          → Acknowledged push id p.reset_generation)
        result.failures result.accepted_attempt_ids (all_sent batch)
        (All-own _ result.accepted_attempt_ids λ id named kept p found. record {
          deployment_id = deployment_id;
          batch = batch;
          sent_in = w;
          result = result;
          payload = p;
          answer = answer;
          accepted = named;
          not_rejected = kept;
          sent = found;
          same_generation = refl;
        })
        tt

  settle-Keeps :
      (deployment_id : String) (batch : ExamNodeAttemptBatch) (w : World)
      (result : ExamNodeIngestResult)
      → push deployment_id batch w ≡ ok (some result)
      → Keeps K (settle deployment_id batch result (settled batch result))
  unfolding settle
  settle-Keeps deployment_id batch w result answer =
      let s : Settling = settled batch result in
      Keeps-bind K time_now _ (Keeps-time_now K) λ now.
        Keeps-bind K (mark_accepted batch.attempts s.accepted now) _
          (mark_accepted-Keeps batch.attempts s.accepted now
            (settled-Acknowledged deployment_id batch w result answer))
          λ marked.
            Keeps-bind K (log_rejections deployment_id s.sent result.failures) _
              (log_rejections-Keeps K logs deployment_id s.sent result.failures)
              λ logged.
                Keeps-if K (batch.final && not (eqb (length result.failures) 0)) _ _
                  (λ t. Keeps-raise K (final_rejected (length result.failures)))
                  (λ f. Keeps-pure K (length s.accepted))

  answered-Keeps :
      (deployment_id : String) (batch : ExamNodeAttemptBatch) (w : World)
      (r : Result (Option ExamNodeIngestResult))
      → push deployment_id batch w ≡ r
      → Keeps K (answered deployment_id batch r)
  unfolding answered
  answered-Keeps deployment_id batch w (err e) answer =
      log_and_fail-Keeps K logs deployment_id batch.attempts e
  answered-Keeps deployment_id batch w (ok none) answer =
      log_and_fail-Keeps K logs deployment_id batch.attempts nil_acknowledgement
  answered-Keeps deployment_id batch w (ok (some result)) answer =
      settle-Keeps deployment_id batch w result answer

  pub drain_deployment-Keeps :
      (deployment_id : String) (attempts : List Attempt) (final : Bool)
      → Keeps K (drain_deployment push deployment_id attempts final)
  unfolding drain_deployment
  drain_deployment-Keeps deployment_id attempts final =
      Keeps-bind K (build_payloads (take max_batch_attempts attempts)) _
        (build_payloads-Keeps K (take max_batch_attempts attempts))
        λ ps.
          let batch : ExamNodeAttemptBatch = record { attempts = ps; final = final } in
          record {
            at = λ w k.
                (answered-Keeps deployment_id batch w (push deployment_id batch w) refl).at w k;
          }
