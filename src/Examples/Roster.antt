-- ===== src/Examples/Roster.antt =====
-- A second student joins the exam while it runs.
use bangkusekolah_exam_node.Base.{
  ◌*◌, ◌≡◌, refl, ◌≤◌, ◌==◌, true, [], ◌∷◌, ap, subst, All, sym, find?, any_where, Bool-cases, inl,
  inr, arith,
}
use bangkusekolah_exam_node.Entity.{minute, RosterEventReceipt, RosterEventStatus}
use bangkusekolah_exam_node.Store.{Store}
use bangkusekolah_exam_node.Exec.{ok}
use bangkusekolah_exam_node.Roster.{RosterEvent, Hashes}
use bangkusekolah_exam_node.Roster.Receipts.{has_receipt}
use bangkusekolah_exam_node.Roster.Covered.{Covered, after_events, after_events-Covered}
use bangkusekolah_exam_node.Roster.Worker.{RosterClient, replay_deployment}
use bangkusekolah_exam_node.Roster.Replay.{Bounded, replay_deployment-ends}
use bangkusekolah_exam_node.Examples.{math, idle, world_of}

abbrev hashes : Hashes
hashes = record { payload = λ view. view.access_code; content = λ view. view.exam.title }

abbrev budi_joins : RosterEvent
budi_joins = record {
  event_id = "ev-2";
  deployment_id = "dep";
  exam_id = "math";
  participant_id = "budi";
  student_id = "s2";
  student_name = "Budi";
  access_code = "M-2";
  revision = 2;
  deadline = 400 * minute;
  created_at = 150;
  status = RosterEventStatus.pending;
  outcome_code = "";
}

abbrev first_receipt : RosterEventReceipt
first_receipt = record {
  event_id = "ev-1";
  deployment_id = "dep";
  exam_id = "math";
  revision = 1;
  participant_id = "ani";
  payload_hash = "M-1";
  status = RosterEventStatus.applied;
  outcome_code = "";
  created_at = 120;
  updated_at = 120;
}

abbrev synced : Store
synced = record idle { roster_receipts = first_receipt ∷ [] }

synced-Covered : Covered synced
unfolding find? any_where
synced-Covered = record {
  at = λ id exam n there low high. elim (Bool-cases (math.id == id)) [
    | inl hit ↦
        let same : math ≡ exam = ground (arith) in
        let revision : exam.roster_revision ≡ 1 = ap (λ x. x.roster_revision) (sym same) in
        let one : 1 ≡ n = omega arith in
        subst (λ x. has_receipt synced x.deployment_id n ≡ true) same
          (subst (λ m. has_receipt synced "dep" m ≡ true) one refl)
    | inr miss ↦ absurd (ground (arith))
  ];
}

after_events-Covered_example :
    Covered (after_events hashes (budi_joins ∷ budi_joins ∷ []) (world_of synced)).db
after_events-Covered_example =
    after_events-Covered hashes (budi_joins ∷ budi_joins ∷ []) (world_of synced) synced-Covered

-- A Central that has the one event, and takes every acknowledgement.
abbrev central : RosterClient
central = record {
  pull_pending = λ w. ok (budi_joins ∷ []);
  replay = λ deployment_id after_revision w. ok (budi_joins ∷ []);
  acknowledge = λ o w. ok tt;
}

central-Bounded : Bounded hashes central 2
central-Bounded deployment_id after_revision w es answer =
    let same : budi_joins ∷ [] ≡ es = ok_is answer in
    subst (All (λ e. e.revision ≤ 2)) same (omega arith, tt)
  where
    ok_is : {A : Type 0} {a b : A} → ok a ≡ ok b → a ≡ b
    ok_is e = cc

replay_deployment-ends_example :
    replay_deployment hashes central 2 "dep" 1 [] (world_of synced)
    ≡ replay_deployment hashes central 40 "dep" 1 [] (world_of synced)
replay_deployment-ends_example =
    replay_deployment-ends hashes central 2 central-Bounded 2 40 "dep" 1 [] (world_of synced)
      (omega arith) (omega arith) (omega arith)
