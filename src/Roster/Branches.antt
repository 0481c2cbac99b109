-- ===== src/Roster/Branches.antt =====
-- Every branch of RosterService.Apply (app/service/roster_service.go), wherever the database fails.
use bangkusekolah_exam_node.Base.{
  ◌+◌, ◌≡◌, refl, insert_row, subst, ap, inl, inr, true, ◌&&◌, ◌||◌, not, String, ◌==◌, eq_iff,
  Option, none, some, List, eqb, ltb, find?, Option-cases, arith,
}
use bangkusekolah_exam_node.Entity.{
  Time, Exam, Participant, RosterEventReceipt, roster_exam_fenced, roster_expired,
  roster_code_conflict, roster_deployment_mismatch, roster_revision_gap, roster_invalid,
  roster_payload_conflict, roster_receipt_not_found, exam_not_loaded, Err,
}
use bangkusekolah_exam_node.Store.{Store, ParticipantRow}
use bangkusekolah_exam_node.Exec.{World, Result, ok, err, or_err, try, change, ◌>>=◌, time_now}
use bangkusekolah_exam_node.Exec.Hoare.{
  Hoare, Outcome, Settled, Hoare-pure, Hoare-raise, Hoare-bind, Hoare-if, Hoare-time_now,
  Hoare-loose, Hoare-weaken, Hoare-atomic, Hoare-try, Hoare-lookup, query-Settled,
}
use bangkusekolah_exam_node.Exec.Keeps.{
  Keeps, Keeps-pure, Keeps-raise, Keeps-bind, Keeps-if, Keeps-try, Keeps-query, Keeps-change,
}
use bangkusekolah_exam_node.Repository.{exam_row, find_exam_by_id}
use bangkusekolah_exam_node.Repository.Roster.{
  Enrolment, receipt_row, find_receipt, insert_participant_if_absent, insert_if_absent,
  insert_outcome, enrolled_meanwhile, find_enrolled, participant_inserted, same_participant_key,
  to_participant_model, is_no_row, is_duplicate_key,
}
use bangkusekolah_exam_node.Roster.{
  RosterEvent, Hashes, roster_payload_hash, reject_event, reject_and_advance, roster_error_text,
  settled_code, is_settled, is_pending, is_applied, is_fenced, roster_participant,
  is_other_identity, is_code_conflict, admit_enrolled, enrol, apply_open, apply_new,
  is_receipt_not_found, apply_once, apply_locked, apply_valid, validate_roster_event, apply,
}
use bangkusekolah_exam_node.Roster.Advance.{
  Applied, Any, At, reject_event-Written, reject_and_advance-Applied, admit-Applied,
}

module _ (K : Store → Type 0)
    (inserts : (d : Store) (rows : List ParticipantRow)
      → K d
      → K (record d { participants = rows })) where
  participant_inserted-Keeps : (a : ParticipantRow) → Keeps K (change (participant_inserted a))
  participant_inserted-Keeps a = Keeps-change K (participant_inserted a) λ d u d' k wrote.
      elim (Option-cases (find? (same_participant_key a) d.participants)) [
        | inl free ↦
            let same : record d { participants = insert_row (λ r. r.id) a d.participants } ≡ d' =
              ground arith in
            subst K same (inserts d (insert_row (λ r. r.id) a d.participants) k)
        | inr (b, taken) ↦ ground arith
      ]

  insert_outcome-Keeps :
      (row : ParticipantRow) (r : Result (Unit {0})) → Keeps K (insert_outcome row r)
  insert_outcome-Keeps row (ok u) = Keeps-pure K _
  insert_outcome-Keeps row (err x) =
      Keeps-if K (is_duplicate_key x) _ _
        (λ t.
          Keeps-bind K (try (find_enrolled row.exam_id row.student_id)) _
            (Keeps-try K _ (Keeps-query K _)) meanwhile)
        (λ f. Keeps-raise K x)
    where
      meanwhile : (r : Result ParticipantRow) → Keeps K (enrolled_meanwhile r)
      meanwhile (ok row) = Keeps-pure K _
      meanwhile (err x) = Keeps-raise K roster_code_conflict

  insert_if_absent-Keeps :
      (p : Participant) (r : Result ParticipantRow) → Keeps K (insert_if_absent p r)
  insert_if_absent-Keeps p (ok row) = Keeps-pure K _
  insert_if_absent-Keeps p (err x) =
      Keeps-if K (is_no_row x) _ _
        (λ t.
          Keeps-bind K (try (change (participant_inserted (to_participant_model p)))) _
            (Keeps-try K _ (participant_inserted-Keeps (to_participant_model p)))
            λ r. insert_outcome-Keeps (to_participant_model p) r)
        (λ f. Keeps-raise K x)

  insert_participant_if_absent-Keeps : (p : Participant) → Keeps K (insert_participant_if_absent p)
  unfolding insert_participant_if_absent
  insert_participant_if_absent-Keeps p =
      Keeps-bind K (try (find_enrolled p.exam_id p.student_id)) _ (Keeps-try K _ (Keeps-query K _))
        λ r. insert_if_absent-Keeps p r

module _ (hashes : Hashes) (e : RosterEvent) (d0 : Store) where
  module _ (absent : receipt_row d0 e.event_id ≡ none) (exam : Exam)
      (found : exam_row d0 e.exam_id ≡ some exam) where
    module _ (same_deployment : e.deployment_id ≡ exam.deployment_id)
        (next : e.revision ≡ exam.roster_revision + 1) where
      rejects :
          (code : String)
          → Hoare
              (At e d0 absent d0.exams)
              (reject_and_advance e (roster_payload_hash hashes e) code exam)
              (λ _. Applied e d0)
              Any
      rejects code =
          reject_and_advance-Applied e d0 absent exam found same_deployment next
            (roster_payload_hash hashes e) code

      admit_enrolled-Applied :
          (now : Time) (r : Result Enrolment)
          → Hoare
              (At e d0 absent d0.exams)
              (admit_enrolled hashes e now exam r)
              (λ _. Applied e d0)
              Any
      unfolding admit_enrolled
      admit_enrolled-Applied now (err x) =
          Hoare-if (is_code_conflict x) _ _ (λ t. rejects (roster_error_text roster_code_conflict))
            (λ f. Hoare-raise x (λ d k. tt))
      admit_enrolled-Applied now (ok (existing, inserted)) =
          Hoare-if (not inserted && is_other_identity e existing) _ _
            (λ t. rejects "participant_identity_conflict")
            (λ f. admit-Applied e d0 absent exam found same_deployment next hashes now)

      enrol-Applied :
          (now : Time)
          → Hoare (At e d0 absent d0.exams) (enrol hashes e now exam) (λ _. Applied e d0) Any
      unfolding enrol
      enrol-Applied now =
          Hoare-bind (λ _. At e d0 absent d0.exams)
            (try (insert_participant_if_absent (roster_participant e))) _
            (Hoare-loose Any _ (λ d k. tt)
              (Keeps-try (At e d0 absent d0.exams) _ (
                insert_participant_if_absent-Keeps (At e d0 absent d0.exams) (λ d rows k. k)
                  (roster_participant e))))
            λ r. admit_enrolled-Applied now r

      apply_open-Applied :
          (now : Time)
          → Hoare (At e d0 absent d0.exams) (apply_open hashes e exam now) (λ _. Applied e d0) Any
      unfolding apply_open
      apply_open-Applied now =
          Hoare-if (is_pending e.status && is_fenced exam.fenced_at) _ _
            (λ t. rejects (roster_error_text roster_exam_fenced))
            λ f.
              Hoare-if
                (is_pending e.status && (not (ltb now e.deadline) || not (ltb now exam.ends_at))) _
                _ (λ t. rejects (roster_error_text roster_expired))
                λ f.
                  Hoare-if (is_pending e.status || is_applied e.status) _ _ (λ t. enrol-Applied now)
                    (λ f. Hoare-raise roster_invalid (λ d k. tt))

    apply_new-Applied :
        Hoare (At e d0 absent d0.exams) (apply_new hashes e exam) (λ _. Applied e d0) Any
    unfolding apply_new
    apply_new-Applied =
        Hoare-if (not (e.deployment_id == exam.deployment_id)) _ _
          (λ t.
            Hoare-weaken
              (reject_event e (roster_payload_hash hashes e)
                (roster_error_text roster_deployment_mismatch))
              (λ o d k. (inl k.0, k.2))
              (reject_event-Written e d0 absent d0.exams (roster_payload_hash hashes e)
                (roster_error_text roster_deployment_mismatch)))
          λ same.
            Hoare-if (not (eqb e.revision (exam.roster_revision + 1))) _ _
              (λ t. Hoare-raise roster_revision_gap (λ d k. tt))
              λ next.
                let same_deployment : e.deployment_id ≡ exam.deployment_id =
                  (eq_iff e.deployment_id exam.deployment_id).0 (ground arith) in
                let is_next : e.revision ≡ exam.roster_revision + 1 = ground arith in
                Hoare-if (is_settled e.status) _ _
                  (λ t. rejects same_deployment is_next (settled_code e))
                  λ f.
                    Hoare-bind (λ _. At e d0 absent d0.exams) time_now _ Hoare-time_now
                      λ now. apply_open-Applied same_deployment is_next now

  abbrev Found : RosterEventReceipt → Store → Type 0
  Found receipt d = d ≡ d0

  abbrev NotFound : Err → Store → Type 0
  NotFound x d = (d ≡ d0) × (is_receipt_not_found x ≡ true → receipt_row d0 e.event_id ≡ none)

  apply_once-Applied :
      (exam : Exam) (r : Result RosterEventReceipt)
      → exam_row d0 e.exam_id ≡ some exam
      → Hoare (Settled Found NotFound r) (apply_once hashes e exam r) (λ _. Applied e d0) Any
  unfolding apply_once
  apply_once-Applied exam (ok receipt) found =
      Hoare-if (receipt.payload_hash == roster_payload_hash hashes e) _ _
        (λ t. Hoare-pure _ (λ d k. rw k (inl refl, λ dep n had. had)))
        (λ f. Hoare-raise roster_payload_conflict (λ d k. tt))
  apply_once-Applied exam (err x) found =
      Hoare-if (is_receipt_not_found x) _ _
        (λ t. record {
          at = λ w k.
              (apply_new-Applied (k.1 t) exam found).at w
                (ap (λ d. d.exams) k.0, ap (λ d. d.roster_receipts) k.0);
        })
        (λ f. Hoare-raise x (λ d k. tt))

  receipt_read :
      (w : World)
      → w.db ≡ d0
      → Settled Found NotFound (find_receipt e.event_id w).0 (find_receipt e.event_id w).1.db
  unfolding find_receipt
  receipt_read w same =
      query-Settled (λ d. or_err (receipt_row d e.event_id) roster_receipt_not_found) Found NotFound
        w (same, λ t. absurd (ground arith)) (read (receipt_row w.db e.event_id) refl)
    where
      read :
          (o : Option RosterEventReceipt)
          → receipt_row w.db e.event_id ≡ o
          → Settled Found NotFound (or_err o roster_receipt_not_found) w.db
      read none missing = (same, λ t. subst (λ d. receipt_row d e.event_id ≡ none) same missing)
      read (some receipt) there = same

  apply_locked-Applied : Hoare (λ d. d ≡ d0) (apply_locked hashes e) (λ _. Applied e d0) Any
  unfolding apply_locked find_exam_by_id
  apply_locked-Applied =
      Hoare-bind (λ exam d. (d ≡ d0) × (exam_row d e.exam_id ≡ some exam))
        (find_exam_by_id e.exam_id) _
        (Hoare-loose Any _ (λ d k. tt)
          (Hoare-lookup (λ d. d ≡ d0) (λ d. exam_row d e.exam_id) exam_not_loaded))
        λ exam. record {
          at = λ w k.
              (after_exam exam (subst (λ d. exam_row d e.exam_id ≡ some exam) k.0 k.1)).at w k.0;
        }
    where
      after_exam :
          (exam : Exam)
          → exam_row d0 e.exam_id ≡ some exam
          → Hoare
              (λ d. d ≡ d0)
              (try (find_receipt e.event_id) >>= λ r. apply_once hashes e exam r)
              (λ _. Applied e d0)
              Any
      after_exam exam found =
          Hoare-bind (Settled Found NotFound) (try (find_receipt e.event_id)) _
            (Hoare-try (find_receipt e.event_id) Found NotFound receipt_read)
            λ r. apply_once-Applied exam r found

pub apply-advances_by_one :
    (hashes : Hashes) (e : RosterEvent) (w : World)
    → Outcome (λ _ d. Applied e w.db d) (λ d. d ≡ w.db) (apply hashes e w)
unfolding apply
apply-advances_by_one hashes e w = go (validate_roster_event e)
  where
    go :
        (v : Result (Unit {0}))
        → Outcome (λ _ d. Applied e w.db d) (λ d. d ≡ w.db) (apply_valid hashes e v w)
    go (err x) = refl
    go (ok u) =
        (Hoare-atomic {P = λ d. d ≡ w.db} {Q = λ _. Applied e w.db} {E = λ d. d ≡ w.db}
            (apply_locked hashes e) Any (λ d k. k) (apply_locked-Applied hashes e w.db)).at
          w refl
