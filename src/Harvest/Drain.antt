-- ===== src/Harvest/Drain.antt =====
-- A drain (drain, drainLocked, sortedKeys of app/service/harvest_service.go): the finished attempts
-- by the deployment of their exam, and one loop over the batches of each deployment.
use bangkusekolah_exam_node.Base.{
  ℕ, zero, suc, ◌+◌, Bool, true, false, ◌&&◌, String, ◌==◌, Option, none, some, List, [], ◌∷◌, ◌++◌,
  if◌then◌else◌, ltb, leb, length, text_lt, trim_space, Dict, at_key, put, keys,
}
use bangkusekolah_exam_node.Entity.{
  Exam, Attempt, Err, exam_without_deployment, unresolved_deployment, attempt_without_deployment,
  deployment_not_drained, sweep_before_harvest,
}
use bangkusekolah_exam_node.Exec.{M, Result, ok, err, pure, raise, try, ◌>>=◌, ◌>>◌}
use bangkusekolah_exam_node.Repository.{find_exam_by_id}
use bangkusekolah_exam_node.Repository.Harvest.{list_unpushed_attempts, log_harvest_failure}
use bangkusekolah_exam_node.Content.Rebuild.{list_exams}
use bangkusekolah_exam_node.Sweeper.{SweepReport, sweep_expired_attempts}
use bangkusekolah_exam_node.Harvest.{HarvestPusher, max_batch_attempts, drain_deployment}

-- The pair of a count and an error that a drain returns: the error is nil when there is no issue.
pub record DrainReport : Type 0 where
  pub accepted : ℕ
  pub issues : List Err

-- byDeployment, examCache and resolveFailures
pub record Grouping : Type 0 where
  pub by_deployment : Dict (List Attempt)
  pub exam_cache : Dict Exam
  pub failures : List Err

abbrev pub is_blank : String → Bool
is_blank text = trim_space text == ""

abbrev pub or_no_attempts : Option (List Attempt) → List Attempt
or_no_attempts none = []
or_no_attempts (some group) = group

abbrev pub grouped : Grouping → String → Attempt → Grouping
grouped g deployment_id a = record g {
  by_deployment =
      put deployment_id (or_no_attempts (at_key deployment_id g.by_deployment) ++ (a ∷ []))
        g.by_deployment;
}

abbrev pub with_failure : Grouping → Err → Grouping
with_failure g e = record g { failures = g.failures ++ (e ∷ []) }

-- An attempt whose deployment is not known is logged and left.
abbrev pub skip_orphan : Grouping → Attempt → Err → M Grouping
skip_orphan g a e = do logged ← try (log_harvest_failure a.id "" 1 e); pure (with_failure g e)

unfoldable pub group_under : Grouping → Attempt → Exam → M Grouping
group_under g a exam =
    if is_blank exam.deployment_id
    then skip_orphan g a (attempt_without_deployment a.id a.exam_id)
    else pure (grouped g exam.deployment_id a)

unfoldable pub group_read : Grouping → Attempt → Result Exam → M Grouping
unfolding group_under
group_read g a (err e) = skip_orphan g a (unresolved_deployment a.id a.exam_id e)
group_read g a (ok exam) =
    group_under (record g { exam_cache = put a.exam_id exam g.exam_cache }) a exam

unfoldable pub group_attempt : Grouping → Attempt → M Grouping
unfolding group_read
group_attempt g a = elim (at_key a.exam_id g.exam_cache) [
  | some exam ↦ group_under g a exam
  | none ↦ try (find_exam_by_id a.exam_id) >>= λ r. group_read g a r
]

unfoldable pub group_attempts : Grouping → List Attempt → M Grouping
unfolding group_attempt
group_attempts g [] = pure g
group_attempts g (a ∷ rest) = group_attempt g a >>= λ h. group_attempts h rest

-- A final drain sends a batch to every deployment, also where no attempt waits.
abbrev pub with_deployment : Dict (List Attempt) → String → Dict (List Attempt)
with_deployment groups id = elim (at_key id groups) [ none ↦ put id [] groups | some _ ↦ groups ]

unfoldable pub seed_groups : Dict (List Attempt) → List Exam → M (Dict (List Attempt))
seed_groups groups [] = pure groups
seed_groups groups (exam ∷ rest) =
    if is_blank exam.deployment_id
    then raise (exam_without_deployment exam.id)
    else seed_groups (with_deployment groups exam.deployment_id) rest

unfoldable pub seeded : Bool → M (Dict (List Attempt))
unfolding seed_groups
seeded false = pure []
seeded true = list_exams >>= λ exams. seed_groups [] exams

-- The inner loop of sortedKeys: the first text takes the place of each smaller one.
unfoldable pub exchange : String → List String → String × List String
exchange x [] = (x, [])
exchange x (y ∷ ys) =
    if text_lt y x
    then (let r = exchange y ys in (r.0, x ∷ r.1))
    else (let r = exchange x ys in (r.0, y ∷ r.1))

unfoldable pub sort_keys : ℕ → List String → List String
unfolding exchange
sort_keys zero ks = ks
sort_keys (suc n) [] = []
sort_keys (suc n) (k ∷ ks) = let r = exchange k ks in r.0 ∷ sort_keys n r.1

unfoldable pub sorted_keys : Dict (List Attempt) → List String
unfolding sort_keys
sorted_keys groups = sort_keys (length groups) (keys groups)

unfoldable pub drop : {A : Type 0} → ℕ → List A → List A
drop zero xs = xs
drop (suc n) [] = []
drop (suc n) (x ∷ xs) = drop n xs

abbrev pub with_issue : DrainReport → String → Err → DrainReport
with_issue report deployment_id e = record report {
  issues = report.issues ++ (deployment_not_drained deployment_id e ∷ []);
}

abbrev pub with_accepted : DrainReport → ℕ → DrainReport
with_accepted report n = record report { accepted = report.accepted + n }

-- After a batch: an error ends the loop, and so does a batch that took less than the whole group.
unfoldable pub after_batch :
    (List Attempt → DrainReport → M DrainReport)
    → String
    → List Attempt
    → DrainReport
    → Result ℕ
    → M DrainReport
unfolding drop
after_batch again deployment_id group report (err e) = pure (with_issue report deployment_id e)
after_batch again deployment_id group report (ok n) =
    if ltb n (length group)
    then pure (with_accepted report n)
    else again (drop n group) (with_accepted report n)

-- The loop over the batches of one deployment. Each turn but the last takes away the group, so any
-- fuel will do.
unfoldable pub drain_group :
    HarvestPusher → String → Bool → ℕ → List Attempt → DrainReport → M DrainReport
unfolding after_batch
drain_group push deployment_id final zero group report = pure report
drain_group push deployment_id final (suc fuel) [] report = pure report
drain_group push deployment_id final (suc fuel) (a ∷ rest) report =
    try (
      drain_deployment push deployment_id (a ∷ rest)
        (final && leb (length (a ∷ rest)) max_batch_attempts))
    >>= λ r.
        after_batch (drain_group push deployment_id final fuel) deployment_id (a ∷ rest) report r

abbrev pub empty_noted : DrainReport → String → Result ℕ → DrainReport
empty_noted report deployment_id (ok n) = report
empty_noted report deployment_id (err e) = with_issue report deployment_id e

unfoldable pub drain_key :
    HarvestPusher → Bool → String → List Attempt → DrainReport → M DrainReport
unfolding drain_group
drain_key push final deployment_id [] report =
    if final
    then (try (drain_deployment push deployment_id [] true) >>= λ r.
        pure (empty_noted report deployment_id r))
    else pure report
drain_key push final deployment_id (a ∷ rest) report =
    drain_group push deployment_id final (length (a ∷ rest)) (a ∷ rest) report

unfoldable pub drain_keys :
    HarvestPusher → Bool → Dict (List Attempt) → List String → DrainReport → M DrainReport
unfolding drain_key
drain_keys push final groups [] report = pure report
drain_keys push final groups (k ∷ ks) report =
    drain_key push final k (or_no_attempts (at_key k groups)) report >>= λ r.
    drain_keys push final groups ks r

abbrev pub nothing_drained : DrainReport
nothing_drained = record { accepted = 0; issues = [] }

abbrev pub with_failures : List Err → DrainReport → DrainReport
with_failures failures report = record report { issues = failures ++ report.issues }

unfoldable pub drain_listed : HarvestPusher → Bool → List Attempt → M DrainReport
unfolding seeded group_attempts sorted_keys drain_keys
drain_listed push final attempts = do
  groups ← seeded final
  g ← group_attempts (record { by_deployment = groups; exam_cache = []; failures = [] }) attempts
  report ← drain_keys push final g.by_deployment (sorted_keys g.by_deployment) nothing_drained
  pure (with_failures g.failures report)

unfoldable pub drain_found : HarvestPusher → Bool → List Attempt → M DrainReport
unfolding drain_listed
drain_found push final [] = if final then drain_listed push final [] else pure nothing_drained
drain_found push final (a ∷ rest) = drain_listed push final (a ∷ rest)

unfoldable pub drain_locked : HarvestPusher → Bool → M DrainReport
unfolding drain_found
drain_locked push final = list_unpushed_attempts >>= λ attempts. drain_found push final attempts

abbrev pub swept_or_fail : SweepReport → M (Unit {0})
swept_or_fail report = elim report.failure [
  | none ↦ pure tt
  | some f ↦ raise (sweep_before_harvest f.failed f.attempt_id f.cause)
]

-- A service that SetSweeper gave a sweeper sweeps before it drains.
unfoldable pub drain : HarvestPusher → Bool → Bool → M DrainReport
unfolding drain_locked
drain push has_sweeper final =
    if has_sweeper
    then (sweep_expired_attempts >>= λ report. swept_or_fail report >> drain_locked push final)
    else drain_locked push final

-- DrainOnce and DrainFinal
abbrev pub drain_once : HarvestPusher → Bool → M DrainReport
drain_once push has_sweeper = drain push has_sweeper false

abbrev pub drain_final : HarvestPusher → Bool → M DrainReport
drain_final push has_sweeper = drain push has_sweeper true
