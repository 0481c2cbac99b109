-- ===== src/Harvest/Batch.antt =====
-- How much one turn of the loop in drainLocked takes (app/service/harvest_service.go).
use bangkusekolah_exam_node.Base.{
  ℕ, zero, suc, ◌+◌, ◌≤◌, ◌≡◌, refl, ap, Bool, true, ◌&&◌, not, String, Option, none, some, List,
  [], ◌∷◌, ◌++◌, ltb, leb, eqb, length, take, Dict, Bool-cases, inl, inr, arith,
}
use bangkusekolah_exam_node.Entity.{Attempt, Err, final_rejected}
use bangkusekolah_exam_node.Store.{Store}
use bangkusekolah_exam_node.Exec.{World, Result, ok, err, pure, raise, try, ◌>>=◌, time_now}
use bangkusekolah_exam_node.Exec.Hoare.{
  Hoare, Outcome, Hoare-pure, Hoare-raise, Hoare-bind, Hoare-if, Hoare-weaken, Hoare-after,
}
use bangkusekolah_exam_node.Repository.{list_answers_by_attempt}
use bangkusekolah_exam_node.Repository.Harvest.{
  is_in, list_integrity_events_by_attempt, log_harvest_failure,
}
use bangkusekolah_exam_node.Harvest.{
  HarvestPusher, ExamNodeAttemptPayload, ExamNodeAttemptBatch, ExamNodeIngestResult, Settling, ask,
  max_batch_attempts, without, settle_id, settle_ids, build_payloads, payload_ids, mark_accepted,
  log_rejections, log_and_fail, settle, all_sent, settled, answered, send, drain_deployment,
  attempt_payload, first_id,
}
use bangkusekolah_exam_node.Harvest.Drain.{
  DrainReport, drop, with_issue, with_accepted, after_batch, drain_group,
}

length-append_one : {A : Type 0} (xs : List A) (x : A) → length (xs ++ (x ∷ [])) ≡ suc (length xs)
length-append_one [] x = refl
length-append_one (y ∷ xs) x = ap suc (length-append_one xs x)

length-without : (id : String) (xs : List String) → length (without id xs) ≤ length xs
unfolding without
length-without id [] = ground arith
length-without id (x ∷ xs) = ground (arith, length-without id xs)

length-without_in :
    (id : String) (xs : List String) → is_in id xs ≡ true → suc (length (without id xs)) ≤ length xs
unfolding is_in without
length-without_in id [] e = cc
length-without_in id (x ∷ xs) e = ground (arith, length-without id xs, length-without_in id xs)

settle_id-bounded :
    (failures : Dict String) (id : String) (s : Settling)
    → length (settle_id failures id s).accepted + length (settle_id failures id s).sent
      ≤ length s.accepted + length s.sent
settle_id-bounded failures id s =
    ground (arith, length-append_one s.accepted id, length-without_in id s.sent)

settle_ids-bounded :
    (failures : Dict String) (ids : List String) (s : Settling)
    → length (settle_ids failures ids s).accepted ≤ length s.accepted + length s.sent
unfolding settle_ids
settle_ids-bounded failures [] s = ground arith
settle_ids-bounded failures (id ∷ ids) s =
    let first = settle_id-bounded failures id s in
    let later = settle_ids-bounded failures ids (settle_id failures id s) in omega arith

build_payloads-length :
    (attempts : List Attempt)
    → Hoare (λ _. Unit) (build_payloads attempts) (λ ps _. length ps ≡ length attempts) (λ _. Unit)
unfolding build_payloads
build_payloads-length [] = Hoare-pure _ (λ d u. refl)
build_payloads-length (a ∷ rest) = Hoare-after (list_answers_by_attempt a.id) λ answers.
    Hoare-after (list_integrity_events_by_attempt a.id) λ events.
      Hoare-bind (λ ps _. length ps ≡ length rest) (build_payloads rest) _
        (build_payloads-length rest)
        λ ps. Hoare-pure (attempt_payload a answers events ∷ ps) (λ d same. ap suc same)

settle-bounded :
    (deployment_id : String) (batch : ExamNodeAttemptBatch) (result : ExamNodeIngestResult)
    (s : Settling)
    → Hoare
        (λ _. Unit)
        (settle deployment_id batch result s)
        (λ n _. n ≡ length s.accepted)
        (λ _. Unit)
unfolding settle
settle-bounded deployment_id batch result s = Hoare-after time_now λ now.
    Hoare-after (mark_accepted batch.attempts s.accepted now) λ marked.
      Hoare-after (log_rejections deployment_id s.sent result.failures) λ logged.
        Hoare-if (batch.final && not (eqb (length result.failures) 0))
          (raise (final_rejected (length result.failures))) (pure (length s.accepted))
          (λ _. Hoare-raise (final_rejected (length result.failures)) (λ d u. tt))
          (λ _. Hoare-pure (length s.accepted) (λ d u. refl))

length-payload_ids : (ps : List ExamNodeAttemptPayload) → length (payload_ids ps) ≡ length ps
length-payload_ids [] = refl
length-payload_ids (p ∷ ps) = ap suc (length-payload_ids ps)

log_and_fail-fails :
    (deployment_id : String) (ps : List ExamNodeAttemptPayload) (e : Err) (Q : ℕ → Store → Type 0)
    → Hoare (λ _. Unit) (log_and_fail deployment_id ps e) Q (λ _. Unit)
unfolding log_and_fail
log_and_fail-fails deployment_id ps e Q =
    Hoare-after (try (log_harvest_failure (first_id ps) deployment_id (length ps) e))
      λ logged. Hoare-raise e (λ d u. tt)

answered-bounded :
    (deployment_id : String) (batch : ExamNodeAttemptBatch)
    (r : Result (Option ExamNodeIngestResult))
    → Hoare
        (λ _. Unit)
        (answered deployment_id batch r)
        (λ n _. n ≤ length batch.attempts)
        (λ _. Unit)
unfolding answered
answered-bounded deployment_id batch (err e) = log_and_fail-fails deployment_id _ e _
answered-bounded deployment_id batch (ok none) = log_and_fail-fails deployment_id _ _ _
answered-bounded deployment_id batch (ok (some result)) =
    let few = settle_ids-bounded result.failures result.accepted_attempt_ids (all_sent batch) in
    let sent = length-payload_ids batch.attempts in
    Hoare-weaken {Q = λ n _. n ≡ length (settled batch result).accepted}
      (settle deployment_id batch result (settled batch result))
      (λ n d same. let atmost : n ≤ length batch.attempts = omega arith in atmost)
      (settle-bounded deployment_id batch result (settled batch result))

length-take : {A : Type 0} (n : ℕ) (xs : List A) → length (take n xs) ≤ n
length-take zero xs = ground arith
length-take (suc n) [] = ground arith
length-take (suc n) (x ∷ xs) = let rest = length-take n xs in omega arith

length-take_all : {A : Type 0} (n : ℕ) (xs : List A) → length (take n xs) ≤ length xs
length-take_all zero xs = ground arith
length-take_all (suc n) [] = ground arith
length-take_all (suc n) (x ∷ xs) = let rest = length-take_all n xs in omega arith

-- A batch of drainDeployment reports no more accepted attempts than it was given, and at most 500,
-- whatever Central answers: the rest of the group after it is always in range.
pub drain_deployment-bounded :
    (push : HarvestPusher) (deployment_id : String) (attempts : List Attempt) (final : Bool)
    (w : World)
    → Outcome
        (λ n _. (n ≤ length attempts) × (n ≤ max_batch_attempts))
        (λ _. Unit)
        (drain_deployment push deployment_id attempts final w)
unfolding drain_deployment
drain_deployment-bounded push deployment_id attempts final w =
    (Hoare-bind (λ ps _. length ps ≡ length (take max_batch_attempts attempts))
        (build_payloads (take max_batch_attempts attempts)) _
        (build_payloads-length (take max_batch_attempts attempts))
        λ ps. record { at = λ w same. (sent_bounded ps same).at w tt }).at
      w tt
  where
    sent_bounded :
        (ps : List ExamNodeAttemptPayload)
        → length ps ≡ length (take max_batch_attempts attempts)
        → Hoare
            (λ _. Unit)
            (send push deployment_id (record { attempts = ps; final = final }))
            (λ n _. (n ≤ length attempts) × (n ≤ max_batch_attempts))
            (λ _. Unit)
    sent_bounded ps same =
        let batch : ExamNodeAttemptBatch = record { attempts = ps; final = final } in
        let cap = length-take max_batch_attempts attempts in
        let all = length-take_all max_batch_attempts attempts in
        Hoare-after (try (ask push deployment_id batch)) λ r.
          Hoare-weaken (answered deployment_id batch r) (λ n d few. (omega arith, omega arith))
            (answered-bounded deployment_id batch r)

-- The report after the only batch that the loop sends.
abbrev pub batch_noted : DrainReport → String → Result ℕ → DrainReport
batch_noted report deployment_id (ok n) = with_accepted report n
batch_noted report deployment_id (err e) = with_issue report deployment_id e

drop-all : {A : Type 0} (n : ℕ) (xs : List A) → length xs ≤ n → drop n xs ≡ []
unfolding drop
drop-all zero [] h = refl
drop-all zero (x ∷ xs) h = absurd (omega arith)
drop-all (suc n) [] h = refl
drop-all (suc n) (x ∷ xs) h = drop-all n xs (omega arith)

drain_group-done :
    (push : HarvestPusher) (deployment_id : String) (final : Bool) (fuel : ℕ) (report : DrainReport)
    → drain_group push deployment_id final fuel [] report ≡ pure report
unfolding drain_group
drain_group-done push deployment_id final zero report = refl
drain_group-done push deployment_id final (suc fuel) report = refl

-- The loop of drainLocked over the batches of a deployment sends one batch and ends, whatever
-- Central answers and wherever the database fails: it goes on only after a batch that took the
-- whole group. Of a group of more than 500 attempts a drain sends the first 500 only, and a final
-- drain sends them without the mark that they are the last.
pub drain_group-one_batch :
    (push : HarvestPusher) (deployment_id : String) (final : Bool) (fuel : ℕ) (a : Attempt)
    (rest : List Attempt) (report : DrainReport) (w : World)
    → drain_group push deployment_id final (suc fuel) (a ∷ rest) report w
      ≡ (try (
              drain_deployment push deployment_id
                (a ∷ rest)
                (final && leb (length (a ∷ rest)) max_batch_attempts))
            >>= λ r. pure (batch_noted report deployment_id r))
          w
unfolding drain_group after_batch
drain_group-one_batch push deployment_id final fuel a rest report w = go (
    drain_deployment push deployment_id (a ∷ rest)
      (final && leb (length (a ∷ rest)) max_batch_attempts) w)
  where
    go :
        (r : Result ℕ × World)
        → after_batch
            (drain_group push deployment_id final fuel)
            deployment_id
            (a ∷ rest)
            report
            r.0
            r.1
          ≡ (ok (batch_noted report deployment_id r.0), r.1)
    go (err e, w') = refl
    go (ok n, w') = elim (Bool-cases (ltb n (length (a ∷ rest)))) [
      | inl less ↦ rw less refl
      | inr whole ↦
          let at_least : length (a ∷ rest) ≤ n = ground arith in
          let ended = drain_group-done push deployment_id final fuel (with_accepted report n) in
          rw (whole, drop-all n (a ∷ rest) at_least, ended) refl
    ]
