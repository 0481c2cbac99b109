-- ===== src/Bundle/Whole.antt =====
-- LoadBundle as a whole (app/service/bundle_service.go).
use bangkusekolah_exam_node.Base.{
  ℕ, ◌≡◌, refl, sym, subst, ◌⊎◌, inl, inr, true, false, String, ◌==◌, eq_iff, eq_refl, arith, All,
  List, [], ◌∷◌, map, Option, some, Bool-cases,
}
use bangkusekolah_exam_node.Entity.{Exam}
use bangkusekolah_exam_node.Store.{Store}
use bangkusekolah_exam_node.Exec.{M, World, Result, ok, err}
use bangkusekolah_exam_node.Exec.Hoare.{Outcome, Hoare-atomic}
use bangkusekolah_exam_node.Exec.Keeps.{Keeps, Keeps-pure, Keeps-bind, Keeps-query, Keeps-left}
use bangkusekolah_exam_node.Repository.{find_exam_by_id}
use bangkusekolah_exam_node.Repository.Bundle.{replace_bundle}
use bangkusekolah_exam_node.Content.{ContentService, is_current, begin_rebuild}
use bangkusekolah_exam_node.Content.Rebuild.{list_items_by_exam_id, read_content, rebuild_exam}
use bangkusekolah_exam_node.Bundle.{
  ExamNodeBundle, ExamNodeBundleParticipant, BundleTools, bundle_participant, has_file_upload,
  check_bundle, check_existing, compute_bundle_checksum, bundle_items, bundle_participants,
  hashed_exam, publish_replaced, Loading, replaced_in_transaction, load_checked, load_if,
  check_both, load_bundle,
}
use bangkusekolah_exam_node.Bundle.Stored.{Stored}
use bangkusekolah_exam_node.Bundle.Load.{replace_bundle-Stored}
use bangkusekolah_exam_node.Bundle.Enrolled.{Enrolled, replace_bundle-Enrolled}

module _ (d0 : Store) where
  abbrev Same : Store → Type 0
  Same d = d ≡ d0

  read_content-Same : (exam_id : String) → Keeps Same (read_content exam_id)
  unfolding read_content find_exam_by_id list_items_by_exam_id
  read_content-Same exam_id =
      Keeps-bind Same (find_exam_by_id exam_id) _ (Keeps-query Same _) λ exam.
        Keeps-bind Same (list_items_by_exam_id exam_id) _ (Keeps-query Same _)
          λ items. Keeps-pure Same _

-- A rebuild only reads.
rebuild_exam-reads :
    (tools : BundleTools) (exam_id : String) (token : Option ℕ) (s : ContentService) (w : World)
    → (rebuild_exam tools.render exam_id token s w).1.db ≡ w.db
unfolding rebuild_exam
rebuild_exam-reads tools exam_id token s w = elim (Bool-cases (is_current exam_id token s)) [
  | inl current ↦
      rw current
        (Keeps-left (Same w.db) (read_content exam_id) w (read_content-Same w.db exam_id) refl)
  | inr stale ↦ rw stale refl
]

exam_read : (w : World) (id : String) → (find_exam_by_id id w).1.db ≡ w.db
unfolding find_exam_by_id
exam_read w id = Keeps-left (Same w.db) (find_exam_by_id id) w (Keeps-query (Same w.db) _) refl

-- The bundle is in the tables, and passed the checks: its checksum is the one that is computed, and it
-- has no item for files.
pub record Loaded (tools : BundleTools) (b : ExamNodeBundle) (d : Store) : Type 0 where
  pub stored : Stored tools b d
  pub enrolled : Enrolled b.exam.id (bundle_participants b) d
  pub checksum : b.checksum ≡ tools.checksum (record b { checksum = "" })
  pub no_upload : has_file_upload b.items ≡ false

-- What a load comes to: its result, and the tables it leaves.
abbrev pub Loads : BundleTools → ExamNodeBundle → Store → Loading → Type 0
Loads tools b d0 r =
    Outcome (λ _ d. Loaded tools b d) (λ d. (d ≡ d0) ⊎ Loaded tools b d) (r.0.0, r.1)

either_way :
    (tools : BundleTools) (b : ExamNodeBundle) (d0 : Store) (r : Loading)
    → Loaded tools b r.1.db
    → Loads tools b d0 r
either_way tools b d0 ((ok u, s), w) loaded = loaded
either_way tools b d0 ((err e, s), w) loaded = inr loaded

published :
    (tools : BundleTools) (b : ExamNodeBundle) (token : ℕ) (s : ContentService) (d0 : Store)
    (r : Result (Unit {0}) × World)
    → Outcome (λ _. Loaded tools b) (λ d. d ≡ d0) r
    → Loads tools b d0 (publish_replaced tools b.exam.id token s r)
published tools b token s d0 (err e, w) same = inl same
published tools b token s d0 (ok u, w) loaded =
    either_way tools b d0 (rebuild_exam tools.render b.exam.id (some token) s w)
      (subst (Loaded tools b) (sym (rebuild_exam-reads tools b.exam.id (some token) s w)) loaded)

bundled-own :
    (b : ExamNodeBundle) (ps : List ExamNodeBundleParticipant)
    → All (λ p. (p.exam_id == b.exam.id) ≡ true) (map (bundle_participant b) ps)
bundled-own b [] = tt
bundled-own b (p ∷ ps) = (eq_refl b.exam.id, bundled-own b ps)

accepted :
    (tools : BundleTools) (b : ExamNodeBundle) (r : Result Exam) (u : Unit {0})
    → check_both tools b r ≡ ok u
    → (b.checksum ≡ tools.checksum (record b { checksum = "" })) × (has_file_upload b.items ≡ false)
unfolding check_bundle
accepted tools b r u passed = go (check_existing b r) passed
  where
    go :
        (v : Result (Unit {0}))
        → elim v [ err e ↦ err e | ok u ↦ check_bundle tools b ] ≡ ok u
        → (b.checksum ≡ tools.checksum (record b { checksum = "" }))
          × (has_file_upload b.items ≡ false)
    go (err e) passed = absurd (ground arith)
    go (ok v) passed = elim (Bool-cases (has_file_upload b.items)) [
      | inl upload ↦ absurd (ground arith)
      | inr none_such ↦ elim (Bool-cases (b.checksum == compute_bundle_checksum tools b)) [
        | inl same ↦ ((eq_iff b.checksum (compute_bundle_checksum tools b)).0 same, none_such)
        | inr other ↦ absurd (ground arith)
      ]
    ]

replaced-Loaded :
    (tools : BundleTools) (b : ExamNodeBundle) (w : World)
    → (b.checksum ≡ tools.checksum (record b { checksum = "" })) × (has_file_upload b.items ≡ false)
    → Outcome (λ _. Loaded tools b) (λ d. d ≡ w.db) (replaced_in_transaction tools b w)
replaced-Loaded tools b w checks =
    (Hoare-atomic {P = λ d. d ≡ w.db} {Q = λ _. Loaded tools b} {E = λ d. d ≡ w.db} replacing
        (λ _. Unit) (λ d k. k)
        (record {
          at = λ v k. both (replacing v) ((replace_bundle-Stored b tools).at v tt) (
              (replace_bundle-Enrolled (hashed_exam tools b) (bundle_items b)
                  (bundle_participants b) (bundled-own b b.participants)).at
                v tt);
        })).at
      w refl
  where
    replacing : M (Unit {0})
    replacing = replace_bundle (hashed_exam tools b) (bundle_items b) (bundle_participants b)

    both :
        (r : Result (Unit {0}) × World)
        → Outcome (λ _. Stored tools b) (λ _. Unit) r
        → Outcome (λ _. Enrolled b.exam.id (bundle_participants b)) (λ _. Unit) r
        → Outcome (λ _. Loaded tools b) (λ _. Unit) r
    both (err e, v) s e' = tt
    both (ok u, v) s e' = record {
      stored = s;
      enrolled = e';
      checksum = checks.0;
      no_upload = checks.1;
    }

-- A bundle is loaded as a whole or not at all, wherever the database fails and whatever was loaded
-- before. When LoadBundle succeeds, the bundle's checksum is the one that is computed, and no item
-- is a file upload; the exam is in the tables with the fields of the bundle, the deployment, the
-- checksum, the sum of the points, whether an item is graded by hand, and the hash of its content;
-- every item of the bundle is there under its id, and the exam has no others; and the ids of the
-- exam's participants are those of the bundle's. When it fails, either the tables are as they were,
-- or all this is so and only the publication failed.
pub load_bundle-all_or_nothing :
    (tools : BundleTools) (b : ExamNodeBundle) (s : ContentService) (w : World)
    → Loads tools b w.db (load_bundle tools b s w)
unfolding load_bundle load_checked
load_bundle-all_or_nothing tools b s w =
    go (check_both tools b (find_exam_by_id b.exam.id w).0) refl
  where
    looked : (find_exam_by_id b.exam.id w).1.db ≡ w.db
    looked = exam_read w b.exam.id

    go :
        (v : Result (Unit {0}))
        → check_both tools b (find_exam_by_id b.exam.id w).0 ≡ v
        → Loads tools b w.db (load_if tools b s (find_exam_by_id b.exam.id w).1 v)
    go (err e) checks = inl looked
    go (ok u) checks =
        published tools b (begin_rebuild b.exam.id s).0 (begin_rebuild b.exam.id s).1 w.db
          (replaced_in_transaction tools b (find_exam_by_id b.exam.id w).1)
          (subst
            (λ d0.
              Outcome (λ _. Loaded tools b) (λ d. d ≡ d0)
                (replaced_in_transaction tools b (find_exam_by_id b.exam.id w).1))
            looked
            (replaced-Loaded tools b (find_exam_by_id b.exam.id w).1
              (accepted tools b (find_exam_by_id b.exam.id w).0 u checks)))
