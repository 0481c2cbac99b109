-- ===== src/Attempt/Resume.antt =====
-- Resuming the active attempt keeps the invariant, and yields an attempt that the participant may
-- use (app/service/attempt_service.go).
use bangkusekolah_exam_node.Base.{
  ◌≡◌, refl, true, String, eq_iff, Option, none, some, List, arith, ltb, find?-some, if◌then◌else◌,
}
use bangkusekolah_exam_node.Entity.{
  Time, Attempt, in_progress, Err, attempt_not_found, attempt_device_mismatch,
}
use bangkusekolah_exam_node.Store.{Store, ParticipantRow}
use bangkusekolah_exam_node.Exec.{M, World, Result, ok, err, pure, raise, ◌>>=◌, try, or_err}
use bangkusekolah_exam_node.Exec.Hoare.{
  Hoare, Settled, Hoare-pure, Hoare-raise, Hoare-if, Hoare-query, Hoare-change, Hoare-bind,
  Hoare-guard, Hoare-try, query-Settled,
}
use bangkusekolah_exam_node.Repository.{
  find_active_attempt_by_participant_and_exam, find_attempt_by_id, bind_attempt_device, is_active,
  active_attempt_row, device_bound,
}
use bangkusekolah_exam_node.Invariant.{Kept, device_bound-Kept}
use bangkusekolah_exam_node.Finalizer.{finalize_attempt, finalize_attempt_locked}
use bangkusekolah_exam_node.Finalizer.Kept.{finalize_attempt-Kept, finalize_attempt_locked-Kept}
use bangkusekolah_exam_node.Attempt.{
  claim_free, claim_device, expired_or, resume_active, found_or_none, resume_locked,
  is_attempt_not_found,
}

-- The attempt is the participant's, of this exam, and in progress.
abbrev pub Serves : String → String → Attempt → Type 0
Serves pid eid a = (a.participant_id ≡ pid) × (a.exam_id ≡ eid) × (a.status ≡ in_progress)

pub active-Serves :
    (pid eid : String) (d : Store) (a : Attempt)
    → active_attempt_row d pid eid ≡ some a
    → Serves pid eid a
active-Serves pid eid d a e =
    let test = find?-some (is_active pid eid) d.attempts e in
    ground (arith, test, eq_iff a.participant_id pid, eq_iff a.exam_id eid)

bind_attempt_device-Kept :
    (ps : List ParticipantRow) (id device : String)
    → Hoare (Kept ps) (bind_attempt_device id device) (λ _. Kept ps) (Kept ps)
unfolding bind_attempt_device find_attempt_by_id
bind_attempt_device-Kept ps id device =
    Hoare-bind (λ _. Kept ps) _ _
      (Hoare-change (device_bound id device) (λ d k. k)
        λ d b d' k e. device_bound-Kept ps id device b d d' k e)
      λ b.
        Hoare-if b _ _ (λ _. Hoare-pure tt (λ d k. k))
          λ _.
            Hoare-bind (λ _. Kept ps) _ _ (Hoare-query _ (λ d k. k) (λ d a k e. k))
              λ a. Hoare-guard _ _ (λ d k. k) (λ _ d k. k)

module _ (ps : List ParticipantRow) (pid eid device : String) where
  -- An attempt to return, or `R`.
  abbrev pub Resumed : (Store → Type 0) → Option Attempt → Store → Type 0
  Resumed R none d = Kept ps d × R d
  Resumed R (some a) d = Kept ps d × Serves pid eid a

  claim_free-Kept :
      (a : Attempt)
      → Serves pid eid a
      → Hoare (Kept ps) (claim_free device a) (λ a' d. Kept ps d × Serves pid eid a') (Kept ps)
  unfolding claim_free
  claim_free-Kept a serves =
      Hoare-if _ _ (pure a)
        (λ _.
          Hoare-bind (λ _. Kept ps) (bind_attempt_device a.id device) _
            (bind_attempt_device-Kept ps a.id device)
            λ _. Hoare-pure (record a { device_id = device }) (λ d k. (k, serves)))
        (λ _. Hoare-pure a (λ d k. (k, serves)))

  claim_device-Kept :
      (a : Attempt)
      → Serves pid eid a
      → Hoare (Kept ps) (claim_device device a) (λ a' d. Kept ps d × Serves pid eid a') (Kept ps)
  unfolding claim_device
  claim_device-Kept a serves =
      Hoare-if _ (raise attempt_device_mismatch) (claim_free device a)
        (λ _. Hoare-raise attempt_device_mismatch (λ d k. k)) (λ _. claim_free-Kept a serves)

  expired_or-Kept :
      (now : Time) (a : Attempt) (expire : M (Option Attempt)) (R : Store → Type 0)
      → Serves pid eid a
      → Hoare (Kept ps) expire (Resumed R) (Kept ps)
      → Hoare (Kept ps) (expired_or now a expire) (Resumed R) (Kept ps)
  unfolding expired_or
  expired_or-Kept now a expire R serves h =
      Hoare-if (ltb a.due_at now) expire (pure (some a)) (λ _. h)
        (λ _. Hoare-pure (some a) (λ d k. (k, serves)))

  -- What the lookup of the active attempt says, also where it finds none.
  abbrev pub Searched : Result Attempt → Store → Type 0
  Searched =
      Settled (λ a d. Kept ps d × Serves pid eid a)
        (λ e d. Kept ps d × (is_attempt_not_found e ≡ true → active_attempt_row d pid eid ≡ none))

  pub resume_active-Kept :
      (now : Time) (r : Result Attempt)
      → Hoare (Searched r) (resume_active now device r) (Resumed (λ _. Unit)) (Kept ps)
  unfolding resume_active
  resume_active-Kept now (err e) =
      Hoare-if _ _ _ (λ _. Hoare-pure none (λ d k. (k.0, tt))) (λ _. Hoare-raise e (λ d k. k.0))
  resume_active-Kept now (ok a) = record { at = λ w p. (rest p.1).at w p.0 }
    where
      rest :
          Serves pid eid a
          → Hoare
              (Kept ps)
              (claim_device device a >>= λ b.
                expired_or now b (finalize_attempt b.id true >>= λ _. pure none))
              (Resumed (λ _. Unit))
              (Kept ps)
      rest found =
          Hoare-bind (λ b d. Kept ps d × Serves pid eid b) _ _ (claim_device-Kept a found)
            λ b. record {
              at = λ w p.
                  (expired_or-Kept now b _ (λ _. Unit) p.1
                      (Hoare-bind (λ _. Kept ps) _ _ (finalize_attempt-Kept ps b.id true)
                        λ _. Hoare-pure none (λ d k. (k, tt)))).at
                    w p.0;
            }

  pub find_active-Searched :
      Hoare (Kept ps) (try (find_active_attempt_by_participant_and_exam pid eid)) Searched (Kept ps)
  unfolding find_active_attempt_by_participant_and_exam
  find_active-Searched = Hoare-try _ _ _ λ w k.
      query-Settled _ (λ a d. Kept ps d × Serves pid eid a)
        (λ e d. Kept ps d × (is_attempt_not_found e ≡ true → active_attempt_row d pid eid ≡ none)) w
        (k, λ h. cc) (go w k (active_attempt_row w.db pid eid) refl)
    where
      go :
          (w : World)
          → Kept ps w.db
          → (o : Option Attempt) → active_attempt_row w.db pid eid ≡ o
          → Searched (or_err o attempt_not_found) w.db
      go w k none e = (k, λ h. e)
      go w k (some a) e = (k, active-Serves pid eid w.db a e)

  none-Searched :
      (e : Err)
      → Hoare
          (Searched (err e))
          (if is_attempt_not_found e then pure none else raise e)
          (Resumed (λ d. active_attempt_row d pid eid ≡ none))
          (Kept ps)
  none-Searched e =
      Hoare-if _ _ _ (λ t. Hoare-pure none (λ d k. (k.0, k.1 t))) (λ _. Hoare-raise e (λ d k. k.0))

  found_or_none-Kept :
      (r : Result Attempt)
      → Hoare
          (Searched r)
          (found_or_none r)
          (Resumed (λ d. active_attempt_row d pid eid ≡ none))
          (Kept ps)
  unfolding found_or_none
  found_or_none-Kept (ok a) = Hoare-pure (some a) (λ d k. k)
  found_or_none-Kept (err e) = none-Searched e

  pub resume_locked-Kept :
      (now : Time) (r : Result Attempt)
      → Hoare
          (Searched r)
          (resume_locked now device pid eid r)
          (Resumed (λ d. active_attempt_row d pid eid ≡ none))
          (Kept ps)
  unfolding resume_locked
  resume_locked-Kept now (err e) = none-Searched e
  resume_locked-Kept now (ok a) = record { at = λ w p. (rest p.1).at w p.0 }
    where
      again :
          (id : String)
          → Hoare
              (Kept ps)
              (finalize_attempt_locked id true >>= λ _.
                try (find_active_attempt_by_participant_and_exam pid eid) >>= found_or_none)
              (Resumed (λ d. active_attempt_row d pid eid ≡ none))
              (Kept ps)
      again id =
          Hoare-bind (λ _. Kept ps) _ _ (finalize_attempt_locked-Kept ps id true)
            λ _. Hoare-bind Searched _ _ find_active-Searched found_or_none-Kept

      rest :
          Serves pid eid a
          → Hoare
              (Kept ps)
              (claim_device device a >>= λ b. expired_or now b (
                finalize_attempt_locked b.id true >>= λ _.
                try (find_active_attempt_by_participant_and_exam pid eid) >>= found_or_none))
              (Resumed (λ d. active_attempt_row d pid eid ≡ none))
              (Kept ps)
      rest serves =
          Hoare-bind (λ b d. Kept ps d × Serves pid eid b) _ _ (claim_device-Kept a serves)
            λ b. record {
              at = λ w p.
                  (expired_or-Kept now b _ (λ d. active_attempt_row d pid eid ≡ none) p.1
                      (again b.id)).at
                    w p.0;
            }
