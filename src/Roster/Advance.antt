-- ===== src/Roster/Advance.antt =====
-- What an event of the roster does to the exam and to the receipts (RosterService.Apply of
-- app/service/roster_service.go), wherever the database fails.
use bangkusekolah_exam_node.Base.{
  ℕ, ◌+◌, ◌≡◌, ◌∙◌, subst, ap, ◌⊎◌, inl, inr, true, String, ◌==◌, eq_iff, none, some, List, find?,
  find?-some, update_where, Option-cases, arith,
}
use bangkusekolah_exam_node.Entity.{Time, Exam, RosterEventStatus}
use bangkusekolah_exam_node.Store.{Store}
use bangkusekolah_exam_node.Exec.{ok, time_now}
use bangkusekolah_exam_node.Exec.Hoare.{
  Hoare, Hoare-pure, Hoare-bind, Hoare-change, Hoare-query, Hoare-time_now, Hoare-weaken,
}
use bangkusekolah_exam_node.Repository.{exam_row}
use bangkusekolah_exam_node.Repository.Roster.{
  receipt_row, receipt_inserted, insert_receipt, with_roster_state, update_exam_roster_state,
  roster_state_updated, list_participants_by_exam,
}
use bangkusekolah_exam_node.Content.Rebuild.{list_items_by_exam_id}
use bangkusekolah_exam_node.ContentHash.{content_hash}
use bangkusekolah_exam_node.Roster.{
  RosterEvent, Hashes, roster_payload_hash, receipt_of, rejected_status, reject_event,
  reject_and_advance, roster_outcome_from_receipt, admit,
}
use bangkusekolah_exam_node.Roster.Receipts.{has_receipt, receipt_inserted-Recorded}

abbrev pub advanced_exams : RosterEvent → String → List Exam → List Exam
advanced_exams e hash exams =
    update_where (λ x. x.id == e.exam_id) (with_roster_state e.revision hash) exams

abbrev pub Grows : Store → Store → Type 0
Grows d0 d = (dep : String) (n : ℕ) → has_receipt d0 dep n ≡ true → has_receipt d dep n ≡ true

-- The exam takes the event's revision, which is the next one, and there is a receipt for it.
pub record Advanced (e : RosterEvent) (d0 d : Store) : Type 0 where
  pub exam : Exam
  pub hash : String
  pub found : exam_row d0 e.exam_id ≡ some exam
  pub same_deployment : e.deployment_id ≡ exam.deployment_id
  pub next : e.revision ≡ exam.roster_revision + 1
  pub exams : d.exams ≡ advanced_exams e hash d0.exams
  pub recorded : has_receipt d exam.deployment_id e.revision ≡ true

-- The exams stay as they were, or one of them advances; no receipt is lost.
abbrev pub Applied : RosterEvent → Store → Store → Type 0
Applied e d0 d = ((d.exams ≡ d0.exams) ⊎ Advanced e d0 d) × Grows d0 d

abbrev pub Any : Store → Type 0
Any d = Unit

roster_state_updated-writes :
    (id : String) (revision : ℕ) (hash : String) (d d' : Store) (u : Unit {0})
    → roster_state_updated id revision hash d ≡ ok (u, d')
    → record d { exams = update_where (λ x. x.id == id) (with_roster_state revision hash) d.exams }
      ≡ d'
roster_state_updated-writes id revision hash d d' u wrote =
    elim (Option-cases (find? (λ x. x.id == id) d.exams)) [
      | inl missing ↦ ground arith
      | inr (x, there) ↦ ground arith
    ]

module _ (e : RosterEvent) (d0 : Store) (absent : receipt_row d0 e.event_id ≡ none) where
  -- Before the receipt, with these exams, and after it.
  abbrev pub At : List Exam → Store → Type 0
  At exams d = (d.exams ≡ exams) × (d.roster_receipts ≡ d0.roster_receipts)

  abbrev pub Written : List Exam → Store → Type 0
  Written exams d =
      (d.exams ≡ exams) × (has_receipt d e.deployment_id e.revision ≡ true) × Grows d0 d

  insert_receipt-Written :
      (exams : List Exam) (hash : String) (status : RosterEventStatus) (code : String) (now : Time)
      → Hoare
          (At exams)
          (insert_receipt (receipt_of e hash status code now))
          (λ _. Written exams)
          Any
  unfolding insert_receipt
  insert_receipt-Written exams hash status code now =
      Hoare-change (receipt_inserted (receipt_of e hash status code now)) (λ d k. tt)
        λ d u d' k wrote.
          let none_yet : receipt_row d e.event_id ≡ none = rw k.1 absent in
          let r =
            receipt_inserted-Recorded (receipt_of e hash status code now) d d' u none_yet wrote in
          (r.exams ∙ k.0, r.recorded, λ dep n had. r.kept dep n (rw k.1 had))

  pub reject_event-Written :
      (exams : List Exam) (hash code : String)
      → Hoare (At exams) (reject_event e hash code) (λ _. Written exams) Any
  unfolding reject_event
  reject_event-Written exams hash code =
      Hoare-bind (λ _. At exams) time_now _ Hoare-time_now
        λ now.
          let receipt = receipt_of e hash (rejected_status e.status) code now in
          Hoare-bind (λ _. Written exams) (insert_receipt receipt) _
            (insert_receipt-Written exams hash (rejected_status e.status) code now)
            λ u. Hoare-pure (roster_outcome_from_receipt receipt) (λ d k. k)

  module _ (exam : Exam) (found : exam_row d0 e.exam_id ≡ some exam)
      (same_deployment : e.deployment_id ≡ exam.deployment_id)
      (next : e.revision ≡ exam.roster_revision + 1) where
    exam_id_same : exam.id ≡ e.exam_id
    exam_id_same = (eq_iff exam.id e.exam_id).0 (find?-some (λ x. x.id == e.exam_id) d0.exams found)

    Written-Applied :
        (hash : String) (d : Store) → Written (advanced_exams e hash d0.exams) d → Applied e d0 d
    Written-Applied hash d k = (
      inr (record {
        exam = exam;
        hash = hash;
        found = found;
        same_deployment = same_deployment;
        next = next;
        exams = k.0;
        recorded = subst (λ dep. has_receipt d dep e.revision ≡ true) same_deployment k.1;
      }),
      k.2,
    )

    written_At :
        (hash : String) (d d' : Store) (u : Unit {0})
        → At d0.exams d
        → roster_state_updated exam.id e.revision hash d ≡ ok (u, d')
        → At (advanced_exams e hash d0.exams) d'
    written_At hash d d' u k wrote =
        let changes : List Exam → List Exam =
          λ xs. update_where (λ x. x.id == exam.id) (with_roster_state e.revision hash) xs in
        let same_id : changes d0.exams ≡ advanced_exams e hash d0.exams =
          ap (λ id. update_where (λ x. x.id == id) (with_roster_state e.revision hash) d0.exams)
            exam_id_same in
        let wrote_exams : record d { exams = changes d.exams } ≡ d' =
          roster_state_updated-writes exam.id e.revision hash d d' u wrote in
        subst (At (advanced_exams e hash d0.exams)) wrote_exams (ap changes k.0 ∙ same_id, k.1)

    update_exam-At :
        (hash : String)
        → Hoare
            (At d0.exams)
            (update_exam_roster_state exam.id e.revision hash)
            (λ _. At (advanced_exams e hash d0.exams))
            Any
    unfolding update_exam_roster_state
    update_exam-At hash =
        Hoare-change (roster_state_updated exam.id e.revision hash) (λ d k. tt)
          λ d u d' k wrote. written_At hash d d' u k wrote

    pub reject_and_advance-Applied :
        (hash code : String)
        → Hoare (At d0.exams) (reject_and_advance e hash code exam) (λ _. Applied e d0) Any
    unfolding reject_and_advance
    reject_and_advance-Applied hash code =
        Hoare-bind (λ _. At (advanced_exams e exam.content_hash d0.exams))
          (update_exam_roster_state exam.id e.revision exam.content_hash) _
          (update_exam-At exam.content_hash)
          λ u.
            Hoare-weaken (reject_event e hash code) (λ o d k. Written-Applied exam.content_hash d k)
              (reject_event-Written (advanced_exams e exam.content_hash d0.exams) hash code)

    pub admit-Applied :
        (hashes : Hashes) (now : Time)
        → Hoare (At d0.exams) (admit hashes e now exam) (λ _. Applied e d0) Any
    unfolding admit list_items_by_exam_id list_participants_by_exam
    admit-Applied hashes now =
        Hoare-bind (λ _. At d0.exams) (list_items_by_exam_id e.exam_id) _
          (Hoare-query _ (λ d k. tt) (λ d a k answer. k))
          λ items.
            Hoare-bind (λ _. At d0.exams) (list_participants_by_exam e.exam_id) _
              (Hoare-query _ (λ d k. tt) (λ d a k answer. k))
              λ participants.
                let hash = content_hash hashes.content items participants exam in
                Hoare-bind (λ _. At (advanced_exams e hash d0.exams))
                  (update_exam_roster_state exam.id e.revision hash) _ (update_exam-At hash)
                  λ u.
                    Hoare-bind (λ _. Written (advanced_exams e hash d0.exams))
                      (insert_receipt (
                        receipt_of e (roster_payload_hash hashes e) RosterEventStatus.applied ""
                          now))
                      _
                      (insert_receipt-Written (advanced_exams e hash d0.exams)
                        (roster_payload_hash hashes e) RosterEventStatus.applied "" now)
                      λ v. Hoare-pure _ (λ d k. Written-Applied hash d k)
