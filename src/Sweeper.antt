-- ===== src/Sweeper.antt =====
-- The sweeper (app/service/sweeper_service.go): it finalizes every attempt that is past its due
-- time. Its loop over the expired attempts never stops at a failure.
use bangkusekolah_exam_node.Base.{
  ℕ, ◌+◌, Bool, true, false, String, Option, none, some, List, [], ◌∷◌, if◌then◌else◌,
}
use bangkusekolah_exam_node.Entity.{Attempt, Err, attempt_locked}
use bangkusekolah_exam_node.Exec.{M, Result, ok, err, pure, ◌>>=◌, try, time_now}
use bangkusekolah_exam_node.Repository.{list_expired_attempts}
use bangkusekolah_exam_node.Finalizer.{finalize_attempt}

abbrev pub is_attempt_locked : Err → Bool
is_attempt_locked attempt_locked = true
is_attempt_locked _ = false

-- SweepError: how many attempts could not be finalized, the first of them, and why.
pub record SweepError : Type 0 where
  pub failed : ℕ
  pub attempt_id : String
  pub cause : Err

pub record SweepReport : Type 0 where
  pub swept : ℕ
  pub failure : Option SweepError

abbrev pub first_failure : Option SweepError → String → Err → SweepError
first_failure none id e = record { failed = 1; attempt_id = id; cause = e }
first_failure (some f) id e = record f { failed = f.failed + 1 }

-- One attempt of the loop.
unfoldable pub note : SweepReport → String → Result (Attempt × Bool) → SweepReport
note report id (ok (a, finalized)) =
    if finalized then record report { swept = report.swept + 1 } else report
note report id (err e) =
    if is_attempt_locked e
    then report
    else record report { failure = some (first_failure report.failure id e) }

unfoldable pub sweep_loop : SweepReport → List Attempt → M SweepReport
unfolding note
sweep_loop report [] = pure report
sweep_loop report (a ∷ rest) = do
  outcome ← try (finalize_attempt a.id true)
  sweep_loop (note report a.id outcome) rest

abbrev pub not_listed : Err → SweepReport
not_listed e = record {
  swept = 0;
  failure = some (record { failed = 0; attempt_id = ""; cause = e });
}

unfoldable pub sweep_listed : Result (List Attempt) → M SweepReport
unfolding sweep_loop
sweep_listed (err e) = pure (not_listed e)
sweep_listed (ok expired) = sweep_loop (record { swept = 0; failure = none }) expired

-- The pair that SweepExpiredAttempts returns, as a report.
unfoldable pub sweep_expired_attempts : M SweepReport
unfolding sweep_listed
sweep_expired_attempts = do
  now ← time_now
  expired ← try (list_expired_attempts now)
  sweep_listed expired
