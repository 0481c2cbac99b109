-- ===== src/Repository/Harvest.antt =====
-- The methods of the repository that the harvest calls: which attempts wait for it, marking those
-- that Central took, and the log of what went wrong.
use bangkusekolah_exam_node.Base.{
  ℕ, Bool, true, false, ◌&&◌, ◌||◌, String, ◌==◌, Option, none, some, List, [], ◌∷◌, ◌++◌, sort_by,
  ltb, eqb, select, count_where, update_where, Dict,
}
use bangkusekolah_exam_node.Entity.{Time, Attempt, AttemptStatus, IntegrityEvent, Err}
use bangkusekolah_exam_node.Store.{Store, HarvestLog}
use bangkusekolah_exam_node.Exec.{M, Result, ok, pure, ◌>>=◌, query, change, time_now}

abbrev pub is_none : {A : Type 0} → Option A → Bool
is_none none = true
is_none (some a) = false

abbrev pub waits_status : AttemptStatus → Bool
waits_status AttemptStatus.submitted = true
waits_status AttemptStatus.auto_submitted = true
waits_status AttemptStatus.graded = false
waits_status AttemptStatus.in_progress = false

-- status IN (submitted, auto_submitted) AND harvested_at IS NULL
abbrev pub is_unpushed : Attempt → Bool
is_unpushed a = waits_status a.status && is_none a.harvested_at

-- Order("submitted_at ASC"), in which NULL comes first. Rows that share it stay in the order of the
-- table.
abbrev pub submitted_before : Option Time → Option Time → Bool
submitted_before none none = false
submitted_before none (some t) = true
submitted_before (some s) none = false
submitted_before (some s) (some t) = ltb s t

abbrev pub sort_by_submission : List Attempt → List Attempt
sort_by_submission = sort_by (λ a b. submitted_before a.submitted_at b.submitted_at)

unfoldable pub list_unpushed_attempts : M (List Attempt)
list_unpushed_attempts = query (λ d. ok (sort_by_submission (select is_unpushed d.attempts)))

abbrev pub harvested : Time → Attempt → Attempt
harvested at a = record a { harvested_at = some at }

abbrev pub attempts_marked : (Attempt → Bool) → Time → Store → Result (ℕ × Store)
attempts_marked p at d = ok (
  count_where (λ a. p a && is_unpushed a) d.attempts,
  record d { attempts = update_where (λ a. p a && is_unpushed a) (harvested at) d.attempts },
)

unfoldable pub is_in : String → List String → Bool
is_in id [] = false
is_in id (x ∷ xs) = x == id || is_in id xs

unfoldable pub mark_attempts_harvested : List String → Time → M ℕ
unfolding is_in
mark_attempts_harvested [] at = pure 0
mark_attempts_harvested (id ∷ ids) at = change (attempts_marked (λ a. is_in a.id (id ∷ ids)) at)

-- id = ? AND reset_generation = ? OR ..., one pair for each accepted attempt
unfoldable pub is_of_generation : Dict ℕ → Attempt → Bool
is_of_generation [] a = false
is_of_generation ((id, generation) ∷ rest) a =
    a.id == id && eqb a.reset_generation generation || is_of_generation rest a

unfoldable pub mark_attempts_harvested_for_generation : Dict ℕ → Time → M ℕ
unfolding is_of_generation
mark_attempts_harvested_for_generation [] at = pure 0
mark_attempts_harvested_for_generation (g ∷ gs) at =
    change (attempts_marked (is_of_generation (g ∷ gs)) at)

abbrev pub logged : HarvestLog → Store → Result (Unit {0} × Store)
logged entry d = ok (tt, record d { harvest_log = d.harvest_log ++ (entry ∷ []) })

unfoldable pub log_harvest_failure : String → String → ℕ → Err → M (Unit {0})
log_harvest_failure attempt_id deployment_id attempts_count message = do
  now ← time_now
  change (
      logged (record {
        attempt_id = attempt_id;
        deployment_id = deployment_id;
        pushed_at = now;
        attempts_count = attempts_count;
        last_error = message;
      }))

unfoldable pub list_integrity_events_by_attempt : String → M (List IntegrityEvent)
list_integrity_events_by_attempt attempt_id =
    query (λ d. ok (select (λ e. e.attempt_id == attempt_id) d.integrity_events))
