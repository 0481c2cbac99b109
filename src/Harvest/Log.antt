-- ===== src/Harvest/Log.antt =====
-- What writes to the log only, or reads, keeps each predicate that does not depend on the log.
use bangkusekolah_exam_node.Base.{ℕ, subst, ◌≡◌, String, List, [], ◌∷◌, ◌++◌, length, Dict, arith}
use bangkusekolah_exam_node.Entity.{Attempt, Err, central_rejected}
use bangkusekolah_exam_node.Store.{Store, HarvestLog}
use bangkusekolah_exam_node.Exec.{try, time_now, change}
use bangkusekolah_exam_node.Exec.Keeps.{
  Keeps, Keeps-pure, Keeps-raise, Keeps-bind, Keeps-if, Keeps-try, Keeps-query, Keeps-change,
  Keeps-time_now,
}
use bangkusekolah_exam_node.Repository.Harvest.{
  is_in, logged, list_integrity_events_by_attempt, log_harvest_failure,
}
use bangkusekolah_exam_node.Repository.{list_answers_by_attempt}
use bangkusekolah_exam_node.Harvest.{
  ExamNodeAttemptPayload, without, build_payloads, attempt_payload, log_rejections, log_and_fail,
  first_id,
}

abbrev pub with_entry : HarvestLog → Store → Store
with_entry entry d = record d { harvest_log = d.harvest_log ++ (entry ∷ []) }

pub build_payloads-Keeps :
    (K : Store → Type 0) (attempts : List Attempt) → Keeps K (build_payloads attempts)
unfolding build_payloads list_answers_by_attempt list_integrity_events_by_attempt
build_payloads-Keeps K [] = Keeps-pure K []
build_payloads-Keeps K (a ∷ rest) =
    Keeps-bind K (list_answers_by_attempt a.id) _ (Keeps-query K _) λ answers.
      Keeps-bind K (list_integrity_events_by_attempt a.id) _ (Keeps-query K _) λ events.
        Keeps-bind K (build_payloads rest) _ (build_payloads-Keeps K rest)
          λ ps. Keeps-pure K (attempt_payload a answers events ∷ ps)

module _ (K : Store → Type 0)
    (logs : (d : Store) (entry : HarvestLog) → K d → K (with_entry entry d)) where
  logged-Keeps : (entry : HarvestLog) → Keeps K (change (logged entry))
  logged-Keeps entry = Keeps-change K (logged entry) λ d u d' k wrote.
      let same : with_entry entry d ≡ d' = ground arith in subst K same (logs d entry k)

  pub log_harvest_failure-Keeps :
      (attempt_id deployment_id : String) (n : ℕ) (e : Err)
      → Keeps K (log_harvest_failure attempt_id deployment_id n e)
  unfolding log_harvest_failure
  log_harvest_failure-Keeps attempt_id deployment_id n e =
      Keeps-bind K time_now _ (Keeps-time_now K) λ now. logged-Keeps (record {
        attempt_id = attempt_id;
        deployment_id = deployment_id;
        pushed_at = now;
        attempts_count = n;
        last_error = e;
      })

  pub log_rejections-Keeps :
      (deployment_id : String) (sent : List String) (failures : Dict String)
      → Keeps K (log_rejections deployment_id sent failures)
  unfolding log_rejections
  log_rejections-Keeps deployment_id sent [] = Keeps-pure K tt
  log_rejections-Keeps deployment_id sent ((id, message) ∷ rest) =
      Keeps-if K (is_in id sent) _ _
        (λ t.
          Keeps-bind K (try (log_harvest_failure id deployment_id 1 (central_rejected message))) _
            (Keeps-try K _
              (log_harvest_failure-Keeps id deployment_id 1 (central_rejected message)))
            λ r. log_rejections-Keeps deployment_id (without id sent) rest)
        (λ f. log_rejections-Keeps deployment_id sent rest)

  pub log_and_fail-Keeps :
      (deployment_id : String) (payloads : List ExamNodeAttemptPayload) (e : Err)
      → Keeps K (log_and_fail deployment_id payloads e)
  unfolding log_and_fail
  log_and_fail-Keeps deployment_id payloads e =
      Keeps-bind K (try (log_harvest_failure (first_id payloads) deployment_id (length payloads) e))
        _
        (Keeps-try K _
          (log_harvest_failure-Keeps (first_id payloads) deployment_id (length payloads) e))
        λ r. Keeps-raise K e
