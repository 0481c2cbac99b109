-- ===== src/Harvest/Whole.antt =====
-- A whole drain (drainLocked of app/service/harvest_service.go), batch by batch.
use bangkusekolah_exam_node.Base.{
  ℕ, zero, suc, Bool, true, false, ◌&&◌, String, Option, none, some, List, [], ◌∷◌, leb, ltb,
  length, Dict, at_key, put,
}
use bangkusekolah_exam_node.Entity.{
  Attempt, Exam, Err, attempt_without_deployment, exam_without_deployment, unresolved_deployment,
}
use bangkusekolah_exam_node.Store.{Store}
use bangkusekolah_exam_node.Exec.{World, Result, ok, err, M, try, ◌>>=◌}
use bangkusekolah_exam_node.Exec.Keeps.{
  Keeps, Keeps-pure, Keeps-raise, Keeps-bind, Keeps-if, Keeps-try, Keeps-query, Keeps-left,
}
use bangkusekolah_exam_node.Repository.{find_exam_by_id}
use bangkusekolah_exam_node.Repository.Harvest.{list_unpushed_attempts, log_harvest_failure}
use bangkusekolah_exam_node.Content.Rebuild.{list_exams}
use bangkusekolah_exam_node.Harvest.{HarvestPusher, max_batch_attempts, drain_deployment}
use bangkusekolah_exam_node.Harvest.Drain.{
  DrainReport, Grouping, is_blank, with_failure, grouped, skip_orphan, group_under, group_read,
  group_attempt, group_attempts, with_deployment, seed_groups, seeded, sorted_keys, drop,
  with_issue, with_accepted, after_batch, drain_group, empty_noted, drain_key, drain_keys,
  or_no_attempts, with_failures, drain_listed, drain_found, nothing_drained, drain_locked,
}
use bangkusekolah_exam_node.Harvest.Marks.{Harvested, Harvested-same}
use bangkusekolah_exam_node.Harvest.Log.{log_harvest_failure-Keeps}
use bangkusekolah_exam_node.Harvest.Only.{logs, drain_deployment-Keeps}

module _ (push : HarvestPusher) (before : Store) where
  abbrev K : Store → Type 0
  K = Harvested push before

  skip_orphan-Keeps : (g : Grouping) (a : Attempt) (e : Err) → Keeps K (skip_orphan g a e)
  skip_orphan-Keeps g a e =
      Keeps-bind K (try (log_harvest_failure a.id "" 1 e)) _
        (Keeps-try K _ (log_harvest_failure-Keeps K (logs push before) a.id "" 1 e))
        λ logged. Keeps-pure K (with_failure g e)

  group_under-Keeps : (g : Grouping) (a : Attempt) (exam : Exam) → Keeps K (group_under g a exam)
  unfolding group_under
  group_under-Keeps g a exam =
      Keeps-if K (is_blank exam.deployment_id) _ _
        (λ t. skip_orphan-Keeps g a (attempt_without_deployment a.id a.exam_id))
        (λ f. Keeps-pure K (grouped g exam.deployment_id a))

  group_read-Keeps : (g : Grouping) (a : Attempt) (r : Result Exam) → Keeps K (group_read g a r)
  unfolding group_read
  group_read-Keeps g a (err e) = skip_orphan-Keeps g a (unresolved_deployment a.id a.exam_id e)
  group_read-Keeps g a (ok exam) =
      group_under-Keeps (record g { exam_cache = put a.exam_id exam g.exam_cache }) a exam

  group_attempt-Keeps : (g : Grouping) (a : Attempt) → Keeps K (group_attempt g a)
  unfolding group_attempt find_exam_by_id
  group_attempt-Keeps g a = go (at_key a.exam_id g.exam_cache)
    where
      go :
          (o : Option Exam)
          → Keeps K (elim o [
            | some exam ↦ group_under g a exam
            | none ↦ try (find_exam_by_id a.exam_id) >>= λ r. group_read g a r
          ])
      go (some exam) = group_under-Keeps g a exam
      go none =
          Keeps-bind K (try (find_exam_by_id a.exam_id)) _ (Keeps-try K _ (Keeps-query K _))
            λ r. group_read-Keeps g a r

  group_attempts-Keeps :
      (g : Grouping) (attempts : List Attempt) → Keeps K (group_attempts g attempts)
  unfolding group_attempts
  group_attempts-Keeps g [] = Keeps-pure K g
  group_attempts-Keeps g (a ∷ rest) =
      Keeps-bind K (group_attempt g a) _ (group_attempt-Keeps g a) λ h. group_attempts-Keeps h rest

  seed_groups-Keeps :
      (groups : Dict (List Attempt)) (exams : List Exam) → Keeps K (seed_groups groups exams)
  unfolding seed_groups
  seed_groups-Keeps groups [] = Keeps-pure K groups
  seed_groups-Keeps groups (exam ∷ rest) =
      Keeps-if K (is_blank exam.deployment_id) _ _
        (λ t. Keeps-raise K (exam_without_deployment exam.id))
        (λ f. seed_groups-Keeps (with_deployment groups exam.deployment_id) rest)

  seeded-Keeps : (final : Bool) → Keeps K (seeded final)
  unfolding seeded list_exams
  seeded-Keeps false = Keeps-pure K []
  seeded-Keeps true =
      Keeps-bind K list_exams _ (Keeps-query K _) λ exams. seed_groups-Keeps [] exams

  after_batch-Keeps :
      (again : List Attempt → DrainReport → M DrainReport) (deployment_id : String)
      (group : List Attempt) (report : DrainReport) (r : Result ℕ)
      → ((g : List Attempt) (s : DrainReport) → Keeps K (again g s))
      → Keeps K (after_batch again deployment_id group report r)
  unfolding after_batch
  after_batch-Keeps again deployment_id group report (err e) h =
      Keeps-pure K (with_issue report deployment_id e)
  after_batch-Keeps again deployment_id group report (ok n) h =
      Keeps-if K (ltb n (length group)) _ _ (λ t. Keeps-pure K (with_accepted report n))
        (λ f. h (drop n group) (with_accepted report n))

  drain_group-Keeps :
      (deployment_id : String) (final : Bool) (fuel : ℕ) (group : List Attempt)
      (report : DrainReport)
      → Keeps K (drain_group push deployment_id final fuel group report)
  unfolding drain_group
  drain_group-Keeps deployment_id final zero group report = Keeps-pure K report
  drain_group-Keeps deployment_id final (suc fuel) [] report = Keeps-pure K report
  drain_group-Keeps deployment_id final (suc fuel) (a ∷ rest) report =
      let last : Bool = final && leb (length (a ∷ rest)) max_batch_attempts in
      Keeps-bind K (try (drain_deployment push deployment_id (a ∷ rest) last)) _
        (Keeps-try K _ (drain_deployment-Keeps push before deployment_id (a ∷ rest) last))
        λ r.
          after_batch-Keeps _ deployment_id (a ∷ rest) report r
            (λ g s. drain_group-Keeps deployment_id final fuel g s)

  drain_key-Keeps :
      (final : Bool) (deployment_id : String) (group : List Attempt) (report : DrainReport)
      → Keeps K (drain_key push final deployment_id group report)
  unfolding drain_key
  drain_key-Keeps final deployment_id [] report =
      Keeps-if K final _ _
        (λ t.
          Keeps-bind K (try (drain_deployment push deployment_id [] true)) _
            (Keeps-try K _ (drain_deployment-Keeps push before deployment_id [] true))
            λ r. Keeps-pure K (empty_noted report deployment_id r))
        (λ f. Keeps-pure K report)
  drain_key-Keeps final deployment_id (a ∷ rest) report =
      drain_group-Keeps deployment_id final (length (a ∷ rest)) (a ∷ rest) report

  drain_keys-Keeps :
      (final : Bool) (groups : Dict (List Attempt)) (ks : List String) (report : DrainReport)
      → Keeps K (drain_keys push final groups ks report)
  unfolding drain_keys
  drain_keys-Keeps final groups [] report = Keeps-pure K report
  drain_keys-Keeps final groups (k ∷ ks) report =
      Keeps-bind K (drain_key push final k (or_no_attempts (at_key k groups)) report) _
        (drain_key-Keeps final k (or_no_attempts (at_key k groups)) report)
        λ r. drain_keys-Keeps final groups ks r

  drain_listed-Keeps :
      (final : Bool) (attempts : List Attempt) → Keeps K (drain_listed push final attempts)
  unfolding drain_listed
  drain_listed-Keeps final attempts = Keeps-bind K (seeded final) _ (seeded-Keeps final) λ groups.
      Keeps-bind K (group_attempts (start groups) attempts) _
        (group_attempts-Keeps (start groups) attempts)
        λ g.
          Keeps-bind K
            (drain_keys push final g.by_deployment (sorted_keys g.by_deployment) nothing_drained) _
            (drain_keys-Keeps final g.by_deployment (sorted_keys g.by_deployment) nothing_drained)
            λ report. Keeps-pure K (with_failures g.failures report)
    where
      start : Dict (List Attempt) → Grouping
      start groups = record { by_deployment = groups; exam_cache = []; failures = [] }

  drain_found-Keeps :
      (final : Bool) (attempts : List Attempt) → Keeps K (drain_found push final attempts)
  unfolding drain_found
  drain_found-Keeps final [] =
      Keeps-if K final _ _ (λ t. drain_listed-Keeps final []) (λ f. Keeps-pure K nothing_drained)
  drain_found-Keeps final (a ∷ rest) = drain_listed-Keeps final (a ∷ rest)

-- A drain touches no attempt but those that Central took, and nothing else of the tables but the
-- log: whatever Central answers and wherever the database fails, each row of the attempts is
-- afterwards as it was, or it waited for the harvest and is marked now, and Central accepted its id
-- without rejecting it, in answer to a batch that held the id with the generation of the row.
pub drain_locked-marks_acknowledged :
    (push : HarvestPusher) (final : Bool) (w : World)
    → Harvested push w.db (drain_locked push final w).1.db
unfolding drain_locked list_unpushed_attempts
drain_locked-marks_acknowledged push final w =
    Keeps-left (Harvested push w.db) (drain_locked push final) w
      (Keeps-bind (Harvested push w.db) list_unpushed_attempts _
        (Keeps-query (Harvested push w.db) _)
        λ attempts. drain_found-Keeps push w.db final attempts)
      (Harvested-same push w.db)
