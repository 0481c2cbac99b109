-- ===== src/Roster/Covered.antt =====
-- The receipts cover the revisions of the exams, as BundleService.PreflightRoster asks (it counts
-- them, app/service/bundle_service.go), through any sequence of events.
use mathlib.Core.Option
use bangkusekolah_exam_node.Base.{
  ℕ, ◌+◌, ◌≤◌, ◌≡◌, refl, sym, ◌∙◌, subst, ap, inl, inr, true, String, ◌==◌, eq_iff, Option, none,
  some, List, [], ◌∷◌, find?, find?-some, find?-update_where, leb, change_if, Bool-cases, arith,
}
use bangkusekolah_exam_node.Entity.{Exam}
use bangkusekolah_exam_node.Store.{Store}
use bangkusekolah_exam_node.Exec.{World, Result, ok, err}
use bangkusekolah_exam_node.Exec.Hoare.{Outcome}
use bangkusekolah_exam_node.Repository.{exam_row}
use bangkusekolah_exam_node.Repository.Roster.{with_roster_state}
use bangkusekolah_exam_node.Roster.{RosterEvent, RosterOutcome, Hashes, apply}
use bangkusekolah_exam_node.Roster.Receipts.{has_receipt}
use bangkusekolah_exam_node.Roster.Advance.{Applied, Advanced, Grows}
use bangkusekolah_exam_node.Roster.Branches.{apply-advances_by_one}

-- For each revision that an exam has used up there is a receipt of its deployment.
pub record Covered (d : Store) : Type 0 where
  pub at :
      (id : String) (exam : Exam) (n : ℕ)
      → exam_row d id ≡ some exam
      → 1 ≤ n
      → n ≤ exam.roster_revision
      → has_receipt d exam.deployment_id n ≡ true

-- Events one after another, each in the world that the ones before it left.
unfoldable pub after_events : Hashes → List RosterEvent → World → World
after_events hashes [] w = w
after_events hashes (e ∷ es) w = after_events hashes es (apply hashes e w).1

some_is : {A : Type 0} {a b : A} → some a ≡ some b → a ≡ b
some_is e = cc

Advanced-Covered :
    (e : RosterEvent) (d0 d : Store) → Covered d0 → Grows d0 d → Advanced e d0 d → Covered d
Advanced-Covered e d0 d before grows a = record {
  at = λ id exam n there low high. go id exam n (exam_row d0 id) refl there low high;
}
  where
    looked_up :
        (id : String)
        → exam_row d id
          ≡ Option.map
              (change_if (λ x. x.id == e.exam_id) (with_roster_state e.revision a.hash))
              (exam_row d0 id)
    looked_up id =
        ap (find? (λ x. x.id == id)) a.exams
        ∙ find?-update_where (λ x. x.id == e.exam_id) (λ x. x.id == id)
            (with_roster_state e.revision a.hash) d0.exams (λ x. refl)

    go :
        (id : String) (exam : Exam) (n : ℕ) (o : Option Exam)
        → exam_row d0 id ≡ o
        → exam_row d id ≡ some exam
        → 1 ≤ n
        → n ≤ exam.roster_revision
        → has_receipt d exam.deployment_id n ≡ true
    go id exam n none was there low high = absurd (ground (arith, looked_up id))
    go id exam n (some x) was there low high = elim (Bool-cases (x.id == e.exam_id)) [
      | inl hit ↦
          let same : with_roster_state e.revision a.hash x ≡ exam = ground (arith, looked_up id) in
          let x_id : x.id ≡ e.exam_id = (eq_iff x.id e.exam_id).0 hit in
          let own_id : x.id ≡ id = (eq_iff x.id id).0 (find?-some (λ y. y.id == id) d0.exams was) in
          let moved : exam_row d0 e.exam_id ≡ some x =
            subst (λ i. exam_row d0 i ≡ some x) (sym own_id ∙ x_id) was in
          let own : a.exam ≡ x = some_is (sym a.found ∙ moved) in
          let dep : x.deployment_id ≡ exam.deployment_id = ap (λ y. y.deployment_id) same in
          let top : e.revision ≡ exam.roster_revision = ap (λ y. y.roster_revision) same in
          let next : e.revision ≡ x.roster_revision + 1 =
            subst (λ y. e.revision ≡ y.roster_revision + 1) own a.next in
          subst (λ i. has_receipt d i n ≡ true) dep
            (elim (Bool-cases (leb n x.roster_revision)) [
              | inl old ↦ grows x.deployment_id n (before.at id x n was low (ground arith))
              | inr new ↦
                  let last : e.revision ≡ n = ground arith in
                  subst (λ m. has_receipt d x.deployment_id m ≡ true) last
                    (subst (λ y. has_receipt d y.deployment_id e.revision ≡ true) own a.recorded)
            ])
      | inr miss ↦
          let same : x ≡ exam = ground (arith, looked_up id) in
          grows exam.deployment_id n
            (before.at id exam n (subst (λ y. exam_row d0 id ≡ some y) same was) low high)
    ]

Applied-Covered : (e : RosterEvent) (d0 d : Store) → Covered d0 → Applied e d0 d → Covered d
Applied-Covered e d0 d before (inr a, grows) = Advanced-Covered e d0 d before grows a
Applied-Covered e d0 d before (inl same, grows) = record {
  at = λ id exam n there low high. grows exam.deployment_id n (
      before.at id exam n (subst (λ xs. find? (λ x. x.id == id) xs ≡ some exam) same there) low
        high);
}

apply-Covered :
    (hashes : Hashes) (e : RosterEvent) (w : World) → Covered w.db → Covered (apply hashes e w).1.db
apply-Covered hashes e w before = go (apply hashes e w) (apply-advances_by_one hashes e w)
  where
    go :
        (r : Result RosterOutcome × World)
        → Outcome (λ _ d. Applied e w.db d) (λ d. d ≡ w.db) r
        → Covered r.1.db
    go (ok o, w') h = Applied-Covered e w.db w'.db before h
    go (err x, w') h = subst Covered (sym h) before

-- Through any sequence of events of the roster, valid or not, repeated or out of order, and wherever
-- the database fails: if each revision that an exam has used up has a receipt, then it still does.
pub after_events-Covered :
    (hashes : Hashes) (es : List RosterEvent) (w : World)
    → Covered w.db
    → Covered (after_events hashes es w).db
unfolding after_events
after_events-Covered hashes [] w before = before
after_events-Covered hashes (e ∷ es) w before =
    after_events-Covered hashes es (apply hashes e w).1 (apply-Covered hashes e w before)
