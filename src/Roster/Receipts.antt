-- ===== src/Roster/Receipts.antt =====
-- Receipts of events: each revision that is used up has one.
use bangkusekolah_exam_node.Base.{
  ℕ, ◌≡◌, refl, subst, inl, inr, Bool, true, false, ◌&&◌, ◌||◌, String, ◌==◌, eq_refl, none, eqb,
  find?, insert_row, any_where, any_where-insert_row, find?-any_where, find?-some, find?-none,
  All-find?, Option-cases, arith,
}
use bangkusekolah_exam_node.Entity.{RosterEventReceipt}
use bangkusekolah_exam_node.Store.{Store}
use bangkusekolah_exam_node.Exec.{ok}
use bangkusekolah_exam_node.Repository.Roster.{receipt_row, same_receipt_key, receipt_inserted}

abbrev pub is_receipt_for : String → ℕ → RosterEventReceipt → Bool
is_receipt_for deployment_id revision r =
    r.deployment_id == deployment_id && eqb r.revision revision

-- There is a receipt for the revision of the deployment.
abbrev pub has_receipt : Store → String → ℕ → Bool
has_receipt d deployment_id revision =
    any_where (is_receipt_for deployment_id revision) d.roster_receipts

-- What inserting a receipt comes to, for an event that has none: nothing but the receipts changes,
-- none is lost, and there is one for the event's revision.
pub record Recorded (deployment_id : String) (revision : ℕ) (d d' : Store) : Type 0 where
  pub exams : d'.exams ≡ d.exams
  pub recorded : has_receipt d' deployment_id revision ≡ true
  pub kept : (dep : String) (n : ℕ) → has_receipt d dep n ≡ true → has_receipt d' dep n ≡ true

pub receipt_inserted-Recorded :
    (a : RosterEventReceipt) (d d' : Store) (u : Unit {0})
    → receipt_row d a.event_id ≡ none
    → receipt_inserted a d ≡ ok (u, d')
    → Recorded a.deployment_id a.revision d d'
receipt_inserted-Recorded a d d' u absent wrote =
    elim (Option-cases (find? (same_receipt_key a) d.roster_receipts)) [
      | inl free ↦
          let same : after ≡ d' = ground arith in
          subst (Recorded a.deployment_id a.revision d) same (record {
            exams = refl;
            recorded = ground (arith, grown a.deployment_id a.revision, eq_refl a.deployment_id);
            kept = λ dep n had. ground (arith, grown dep n);
          })
      | inr (b, taken) ↦
          let same : d ≡ d' = ground arith in
          let clash = find?-some (same_receipt_key a) d.roster_receipts taken in
          let other =
            All-find? (λ r. (r.event_id == a.event_id) ≡ false) (same_receipt_key a)
              d.roster_receipts
              (find?-none (λ r. r.event_id == a.event_id) d.roster_receipts absent) taken in
          subst (Recorded a.deployment_id a.revision d) same (record {
            exams = refl;
            recorded =
                find?-any_where (same_receipt_key a) (is_receipt_for a.deployment_id a.revision)
                  d.roster_receipts taken (ground (arith, clash, other));
            kept = λ dep n had. had;
          })
    ]
  where
    after : Store
    after = record d { roster_receipts = insert_row (λ r. r.event_id) a d.roster_receipts }

    grown :
        (dep : String) (n : ℕ)
        → has_receipt after dep n ≡ (is_receipt_for dep n a || has_receipt d dep n)
    grown dep n = any_where-insert_row (λ r. r.event_id) (is_receipt_for dep n) a d.roster_receipts
