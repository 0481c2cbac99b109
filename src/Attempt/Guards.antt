-- ===== src/Attempt/Guards.antt =====
-- What the student's requests refuse, and that a refusal writes nothing
-- (app/service/attempt_service.go).
use bangkusekolah_exam_node.Base.{
  ℕ, ◌≡◌, refl, true, false, ◌||◌, not, String, ◌==◌, eq_iff, Option, some, arith, ltb, trim_space,
  subst, sym,
}
use bangkusekolah_exam_node.Json.{Members}
use bangkusekolah_exam_node.Entity.{
  Time, Attempt, Answer, Item, item_not_found, exam_not_open, is_in_progress, attempt_not_found,
  attempt_locked, attempt_expired, forbidden, attempt_device_mismatch,
}
use bangkusekolah_exam_node.Store.{Store}
use bangkusekolah_exam_node.Exec.{
  World, Result, ok, err, pure, guard, try, new_id, time_now, change,
}
use bangkusekolah_exam_node.Exec.Hoare.{
  Hoare, Outcome, Settled, Hoare-pure, Hoare-query, Hoare-change, Hoare-bind, Hoare-guard,
  Hoare-try, Hoare-time_now, Hoare-new_id, Hoare-lookup, Hoare-loose, query-Settled,
}
use bangkusekolah_exam_node.Repository.{
  attempt_row, item_row, active_attempt_row, find_attempt_by_id, find_item_by_id, find_exam_by_id,
  find_participant_by_id, find_active_attempt_by_participant_and_exam,
}
use bangkusekolah_exam_node.Repository.Answers.{upsert_answer, answer_upserted}
use bangkusekolah_exam_node.Attempt.{
  autosave_answer, start_attempt, resume_active, return_or_open, claim_device, is_attempt_not_found,
}

-- The attempt that an answer may be saved to.
abbrev pub Writable : Store → String → String → String → Type 0
Writable d attempt_id item_id pid =
    (a : Attempt) × (i : Item) × (attempt_row d attempt_id ≡ some a)
    × (item_row d item_id ≡ some i)
    × (a.participant_id ≡ pid)
    × (is_in_progress a.status ≡ true)
    × ((i.exam_id == "" || i.exam_id == a.exam_id) ≡ true)

-- The tables but the answers are as they were.
abbrev pub OnlyAnswers : Store → Store → Type 0
OnlyAnswers d d' = d' ≡ record d { answers = d'.answers }

answer_upserted-OnlyAnswers :
    (order : _) (a : Answer) (d d' : Store) (u : Unit {0})
    → answer_upserted order a d ≡ ok (u, d')
    → OnlyAnswers d d'
unfolding answer_upserted
answer_upserted-OnlyAnswers order a d d' u e = ground arith

module _ (d : Store) (attempt_id item_id pid : String) where
  upsert_answer-OnlyAnswers :
      (a : Answer) (X : Type 0)
      → Hoare (λ d'. (d' ≡ d) × X) (upsert_answer a) (λ _ d'. OnlyAnswers d d' × X) (λ d'. d' ≡ d)
  unfolding upsert_answer
  upsert_answer-OnlyAnswers a X = record {
    at = λ w k.
        (Hoare-bind {P = λ d'. (d' ≡ d) × X} {R = λ _ d'. OnlyAnswers d d' × X} {E = λ d'. d' ≡ d}
            (λ _ d'. OnlyAnswers d d' × X) (change (answer_upserted w.assignments a)) (λ _. pure a)
            (Hoare-change _ (λ d k. k.0)
              (λ d1 u d2 k e. (
                subst (λ x. OnlyAnswers x d2) k.0
                    (answer_upserted-OnlyAnswers w.assignments a d1 d2 u e),
                k.1,
              )))
            (λ _. Hoare-pure a (λ d k. k))).at
          w k;
  }

  autosave_answer-guarded :
      (json : Members) (answer_text : Option String) (seq : ℕ)
      → Hoare
          (λ d'. d' ≡ d)
          (autosave_answer attempt_id item_id json answer_text seq pid)
          (λ _ d'. OnlyAnswers d d' × Writable d attempt_id item_id pid)
          (λ d'. d' ≡ d)
  unfolding autosave_answer find_attempt_by_id find_item_by_id
  autosave_answer-guarded json answer_text seq =
      Hoare-bind (λ a d'. (d' ≡ d) × (attempt_row d' attempt_id ≡ some a)) _ _
        (Hoare-lookup (λ d'. d' ≡ d) (λ d'. attempt_row d' attempt_id) attempt_not_found)
        λ a.
          Hoare-bind
            (λ _ d'. (d' ≡ d) × (attempt_row d' attempt_id ≡ some a) × (a.participant_id ≡ pid))
            (guard (a.participant_id == pid) forbidden) _
            (Hoare-guard _ _ (λ d' k. k.0)
              (λ own d' k. (k.0, k.1, (eq_iff a.participant_id pid).0 own)))
            λ _.
              Hoare-bind (λ _ d'. (d' ≡ d) × Mine d' a)
                (guard (is_in_progress a.status) attempt_locked) _
                (Hoare-guard _ _ (λ d' k. k.0) (λ live d' k. (k.0, (k.1, k.2, live))))
                λ _.
                  Hoare-bind (λ _ d'. (d' ≡ d) × Mine d' a) time_now _ Hoare-time_now
                    λ now.
                      Hoare-bind (λ _ d'. (d' ≡ d) × Mine d' a)
                        (guard (not (ltb a.due_at now)) attempt_expired) _
                        (Hoare-guard _ _ (λ d' k. k.0) (λ _ d' k. k))
                        λ _.
                          Hoare-bind
                            (λ i d'. ((d' ≡ d) × Mine d' a) × (item_row d' item_id ≡ some i))
                            (find_item_by_id item_id) _
                            (Hoare-loose _ _ (λ d' k. k.0)
                              (Hoare-lookup (λ d'. (d' ≡ d) × Mine d' a) (λ d'. item_row d' item_id)
                                item_not_found))
                            λ i.
                              Hoare-bind (λ _ d'. (d' ≡ d) × Writable d attempt_id item_id pid)
                                (guard (i.exam_id == "" || i.exam_id == a.exam_id) forbidden) _
                                (Hoare-guard _ _ (λ d' k. k.0.0)
                                  (λ fits d' k. (
                                    k.0.0,
                                    subst (λ x. Writable x attempt_id item_id pid) k.0.0
                                        (a, i, k.0.1.0, k.1, k.0.1.1, k.0.1.2, fits),
                                  )))
                                λ _.
                                  Hoare-bind (λ _ d'. (d' ≡ d) × Writable d attempt_id item_id pid)
                                    new_id _ Hoare-new_id
                                    λ id.
                                      upsert_answer-OnlyAnswers _
                                        (Writable d attempt_id item_id pid)
    where
      Mine : Store → Attempt → Type 0
      Mine d' a =
          (attempt_row d' attempt_id ≡ some a)
          × (a.participant_id ≡ pid)
          × (is_in_progress a.status ≡ true)

-- Whatever the database does, an autosave that succeeds found an attempt of this participant that
-- is in progress and an item that belongs to its exam (or to none), and it changed no table but
-- the answers; and an autosave that is refused or fails changed nothing.
pub autosave_answer-guards :
    (attempt_id item_id : String) (json : Members) (answer_text : Option String) (seq : ℕ)
    (pid : String) (w : World)
    → Outcome
        (λ _ d. OnlyAnswers w.db d × Writable w.db attempt_id item_id pid)
        (λ d. d ≡ w.db)
        (autosave_answer attempt_id item_id json answer_text seq pid w)
autosave_answer-guards attempt_id item_id json answer_text seq pid w =
    (autosave_answer-guarded w.db attempt_id item_id pid json answer_text seq).at w refl

-- The start, where another device holds the attempt.
module _ (d : Store) (pid eid raw : String) (held : Attempt)
    (active : active_attempt_row d pid eid ≡ some held) (bound : (held.device_id == "") ≡ false)
    (other : (held.device_id == trim_space raw) ≡ false) where
  Refused : Result Attempt → Store → Type 0
  Refused =
      Settled (λ a d'. (d' ≡ d) × (a ≡ held)) (λ e d'. (d' ≡ d) × (is_attempt_not_found e ≡ false))

  look-Refused :
      Hoare
        (λ d'. d' ≡ d)
        (try (find_active_attempt_by_participant_and_exam pid eid))
        Refused
        (λ d'. d' ≡ d)
  unfolding find_active_attempt_by_participant_and_exam Refused
  look-Refused = Hoare-try _ _ _ λ w k.
      query-Settled _ (λ a d'. (d' ≡ d) × (a ≡ held))
        (λ e d'. (d' ≡ d) × (is_attempt_not_found e ≡ false)) w (k, refl)
        (rw (subst (λ x. active_attempt_row x pid eid ≡ some held) (sym k) active) (k, refl))

  claim_device-refuses :
      (w : World) → claim_device (trim_space raw) held w ≡ (err attempt_device_mismatch, w)
  unfolding claim_device
  claim_device-refuses w = rw (bound, other)

  held-Refused :
      (now : Time) (w : World)
      → w.db ≡ d
      → Outcome (λ _ _. ⊥) (λ d'. d' ≡ d) (resume_active now (trim_space raw) (ok held) w)
  unfolding resume_active
  held-Refused now w same = rw (claim_device-refuses w) same

  resume_active-Refused :
      (now : Time) (r : Result Attempt)
      → Hoare (Refused r) (resume_active now (trim_space raw) r) (λ _ _. ⊥) (λ d'. d' ≡ d)
  unfolding resume_active Refused
  resume_active-Refused now (err e) = record { at = λ w k. rw k.1 k.0 }
  resume_active-Refused now (ok a) = record {
    at = λ w k.
        subst (λ b. Outcome (λ _ _. ⊥) (λ d'. d' ≡ d) (resume_active now (trim_space raw) (ok b) w))
          (sym k.1) (held-Refused now w k.0);
  }

  start_attempt-Refused : Hoare (λ d'. d' ≡ d) (start_attempt pid eid raw) (λ _ _. ⊥) (λ d'. d' ≡ d)
  unfolding start_attempt find_exam_by_id find_participant_by_id
  start_attempt-Refused =
      Hoare-bind (λ _ d'. d' ≡ d) _ _ (Hoare-guard _ _ (λ d' k. k) (λ _ d' k. k))
        λ _.
          Hoare-bind (λ _ d'. d' ≡ d) _ _ (Hoare-query _ (λ d' k. k) (λ d' a k e. k))
            λ exam.
              Hoare-bind (λ _ d'. d' ≡ d) _ _ Hoare-time_now
                λ now.
                  Hoare-bind (λ _ d'. d' ≡ d)
                    (guard (not (ltb now exam.starts_at || ltb exam.ends_at now)) exam_not_open) _
                    (Hoare-guard _ _ (λ d' k. k) (λ _ d' k. k))
                    λ _.
                      Hoare-bind (λ _ d'. d' ≡ d) _ _ (Hoare-query _ (λ d' k. k) (λ d' a k e. k))
                        λ p.
                          Hoare-bind (λ _ d'. d' ≡ d) (guard (p.exam_id == eid) forbidden) _
                            (Hoare-guard _ _ (λ d' k. k) (λ _ d' k. k))
                            λ _. Hoare-bind Refused _ _ look-Refused λ r.
                              Hoare-bind (λ _ _. ⊥) (resume_active now (trim_space raw) r)
                                (return_or_open exam now (trim_space raw) pid eid p)
                                (resume_active-Refused now r) λ o. record { at = λ w k. absurd k }

-- While the active attempt of a participant is bound to another device, no start succeeds,
-- whatever the database does, and it changes nothing.
pub start_attempt-refuses_device :
    (pid eid raw : String) (held : Attempt) (w : World)
    → active_attempt_row w.db pid eid ≡ some held
    → (held.device_id == "") ≡ false
    → (held.device_id == trim_space raw) ≡ false
    → Outcome (λ _ _. ⊥) (λ d. d ≡ w.db) (start_attempt pid eid raw w)
start_attempt-refuses_device pid eid raw held w active bound other =
    (start_attempt-Refused w.db pid eid raw held active bound other).at w refl
