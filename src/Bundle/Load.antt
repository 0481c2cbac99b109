-- ===== src/Bundle/Load.antt =====
-- A bundle is loaded as a whole or not at all (LoadBundle of app/service/bundle_service.go and
-- ReplaceBundle of app/adapter/persistence/repository/node_repository.go).
use bangkusekolah_exam_node.Base.{
  ℕ, ◌≡◌, refl, sym, ◌∙◌, subst, ap, inl, inr, not, String, ◌==◌, eq_refl, some, List, [], ◌∷◌, map,
  find?, select, insert_row, count_where, count_where-select-not, find?-insert_row_hit,
  Option-cases, arith,
}
use bangkusekolah_exam_node.Entity.{Time, Exam, Item, Participant}
use bangkusekolah_exam_node.Store.{Store, ParticipantRow}
use bangkusekolah_exam_node.Repository.Roster.{to_participant_model}
use bangkusekolah_exam_node.Exec.{M, Result, ok, err, change, time_now}
use bangkusekolah_exam_node.Exec.Hoare.{
  Hoare, Hoare-pure, Hoare-bind, Hoare-change, Hoare-query, Hoare-time_now, Hoare-loose,
}
use bangkusekolah_exam_node.Exec.Keeps.{Keeps, Keeps-pure, Keeps-bind, Keeps-if, Keeps-change}
use bangkusekolah_exam_node.Repository.Harvest.{is_in}
use bangkusekolah_exam_node.Repository.Bundle.{
  items_cleared, exam_cleared, items_added, with_items, items_inserted, insert_items,
  participant_replaced, is_rival, is_rival, rewrite_participants, participant_deleted, delete_stale,
  participants_added, with_participants, participants_inserted, insert_participants, exam_inserted,
  participant_ids, to_exam_model, replace_bundle,
}
use bangkusekolah_exam_node.Bundle.{
  ExamNodeBundle, ExamNodeBundleItem, BundleTools, bundle_item, bundle_items, bundle_participants,
  hashed_exam,
}
use bangkusekolah_exam_node.Bundle.Stored.{of_exam, item_count, Whole, Stored, hashed_exam-exam_of}
use bangkusekolah_exam_node.Bundle.Items.{items_added-present, items_added-counts}

module _ (b : ExamNodeBundle) where
  abbrev Any : Store → Type 0
  Any d = Unit

  abbrev Count : ℕ → Store → Type 0
  Count n d = item_count b.exam.id d ≡ n

  abbrev On : (List Item → Type 0) → Store → Type 0
  On P d = P d.items

  participants-Keeps :
      (P : List Item → Type 0) (f : Store → Result (Unit {0} × Store))
      → ((d d' : Store) (u : Unit {0}) → f d ≡ ok (u, d') → d'.items ≡ d.items)
      → Keeps (On P) (change f)
  participants-Keeps P f same =
      Keeps-change (On P) f λ d u d' k wrote. subst P (sym (same d d' u wrote)) k

  replaced-Keeps :
      (P : List Item → Type 0) (p : Participant) → Keeps (On P) (change (participant_replaced p))
  replaced-Keeps P p = participants-Keeps P (participant_replaced p) λ d d' u wrote.
      elim (Option-cases
        (find? (is_rival p (find? (λ r. r.id == p.id) d.participants)) d.participants)) [
          | inl free ↦ ground arith
          | inr (x, taken) ↦ absurd (ground arith)
        ]

  rewrite-Keeps :
      (P : List Item → Type 0) (existing : List String) (ps : List Participant)
      → Keeps (On P) (rewrite_participants existing ps)
  unfolding rewrite_participants
  rewrite-Keeps P existing [] = Keeps-pure (On P) []
  rewrite-Keeps P existing (p ∷ ps) =
      Keeps-if (On P) (is_in p.id existing) _ _
        (λ t.
          Keeps-bind (On P) (change (participant_replaced p)) _ (replaced-Keeps P p)
            λ u. rewrite-Keeps P existing ps)
        (λ f.
          Keeps-bind (On P) (rewrite_participants existing ps) _ (rewrite-Keeps P existing ps)
            λ rest. Keeps-pure (On P) (to_participant_model p ∷ rest))

  stale-Keeps :
      (P : List Item → Type 0) (keep ids : List String)
      → Keeps (On P) (delete_stale b.exam.id keep ids)
  unfolding delete_stale
  stale-Keeps P keep [] = Keeps-pure (On P) tt
  stale-Keeps P keep (id ∷ ids) =
      Keeps-if (On P) (is_in id keep) _ _ (λ t. stale-Keeps P keep ids)
        (λ f.
          Keeps-bind (On P) (change (participant_deleted b.exam.id id)) _
            (participants-Keeps P (participant_deleted b.exam.id id) λ d d' u wrote. ground arith)
            λ u. stale-Keeps P keep ids)

  with_participants-items :
      (d d' : Store) (u : Unit {0}) (r : Result (List ParticipantRow))
      → with_participants d r ≡ ok (u, d')
      → d'.items ≡ d.items
  with_participants-items d d' u (ok rows) wrote = ground arith
  with_participants-items d d' u (err e) wrote = absurd (ground arith)

  insert_participants-Keeps :
      (P : List Item → Type 0) (ps : List ParticipantRow) → Keeps (On P) (insert_participants ps)
  unfolding insert_participants
  insert_participants-Keeps P [] = Keeps-pure (On P) tt
  insert_participants-Keeps P (p ∷ ps) =
      participants-Keeps P (participants_inserted (p ∷ ps)) λ d d' u wrote.
        with_participants-items d d' u (participants_added (p ∷ ps) d.participants) wrote

  insert_items-Whole :
      (bs : List ExamNodeBundleItem)
      → Hoare (Count 0) (insert_items (map (bundle_item b) bs)) (λ _. On (Whole b bs)) Any
  unfolding insert_items
  insert_items-Whole [] = Hoare-pure tt (λ d k. (k, tt))
  insert_items-Whole (i ∷ bs) =
      Hoare-change (items_inserted (map (bundle_item b) (i ∷ bs))) (λ d k. tt)
        λ d u d' k wrote.
          go d d' u k (items_added (map (bundle_item b) (i ∷ bs)) d.items) refl wrote
    where
      go :
          (d d' : Store) (u : Unit {0})
          → Count 0 d
          → (r : Result (List Item)) → items_added (map (bundle_item b) (i ∷ bs)) d.items ≡ r
          → with_items d r ≡ ok (u, d')
          → On (Whole b (i ∷ bs)) d'
      go d d' u k (err e) added wrote = absurd (ground arith)
      go d d' u k (ok rows) added wrote =
          let same : record d { items = rows } ≡ d' = ground arith in
          let counted = items_added-counts b (i ∷ bs) d.items rows added in
          subst (On (Whole b (i ∷ bs))) same
            (omega arith, items_added-present b (i ∷ bs) d.items rows added)

  module _ (tools : BundleTools) where
    exam_inserted-Stored :
        (now : Time)
        → Hoare
            (On (Whole b b.items))
            (change (exam_inserted (to_exam_model (hashed_exam tools b) now)))
            (λ _. Stored tools b)
            Any
    exam_inserted-Stored now =
        Hoare-change (exam_inserted row) (λ d k. tt)
          λ d u d' k wrote. elim (Option-cases (find? (λ r. r.id == row.id) d.exams)) [
            | inr (x, taken) ↦ absurd (ground arith)
            | inl free ↦
                let same : record d { exams = insert_row (λ r. r.id) row d.exams } ≡ d' =
                  ground arith in
                subst (Stored tools b) same (record {
                  loaded_at = now;
                  exam =
                      find?-insert_row_hit (λ r. r.id) (λ r. r.id == b.exam.id) row d.exams
                        (eq_refl b.exam.id) free
                      ∙ ap some (hashed_exam-exam_of tools b now);
                  items = k;
                })
          ]
      where
        row : Exam
        row = to_exam_model (hashed_exam tools b) now

    pub replace_bundle-Stored :
        Hoare Any
          (replace_bundle (hashed_exam tools b) (bundle_items b) (bundle_participants b))
          (λ _. Stored tools b)
          Any
    unfolding replace_bundle participant_ids
    replace_bundle-Stored =
        let all = On (Whole b b.items) in
        Hoare-bind (λ _. Any) time_now _ Hoare-time_now
          λ now.
            Hoare-bind (λ _. Count 0) (change (items_cleared b.exam.id)) _
              (Hoare-change (items_cleared b.exam.id) (λ d k. tt) cleared)
              λ u1.
                Hoare-bind (λ _. Count 0) (change (exam_cleared b.exam.id)) _
                  (Hoare-change (exam_cleared b.exam.id) (λ d k. tt)
                    λ d u d' k wrote. kept_items d d' u k wrote)
                  λ u2.
                    Hoare-bind (λ _. all) (insert_items (bundle_items b)) _
                      (insert_items-Whole b.items)
                      λ u3.
                        Hoare-bind (λ _. all) (participant_ids b.exam.id) _
                          (Hoare-query _ (λ d k. tt) (λ d a k e. k))
                          λ existing.
                            Hoare-bind (λ _. all)
                              (rewrite_participants existing (bundle_participants b)) _
                              (loose _
                                (rewrite-Keeps (Whole b b.items) existing (bundle_participants b)))
                              λ new_ones.
                                Hoare-bind (λ _. all)
                                  (delete_stale b.exam.id (map (λ p. p.id) (bundle_participants b))
                                    existing)
                                  _
                                  (loose _ (
                                    stale-Keeps (Whole b b.items)
                                      (map (λ p. p.id) (bundle_participants b)) existing))
                                  λ u4.
                                    Hoare-bind (λ _. all) (insert_participants new_ones) _
                                      (loose _
                                        (insert_participants-Keeps (Whole b b.items) new_ones))
                                      λ u5. exam_inserted-Stored now
      where
        loose :
            {A : Type 0} (m : M A)
            → Keeps (On (Whole b b.items)) m
            → Hoare (On (Whole b b.items)) m (λ _. On (Whole b b.items)) Any
        loose m h = Hoare-loose Any m (λ d k. tt) h

        cleared :
            (d : Store) (u : Unit {0}) (d' : Store)
            → Any d
            → items_cleared b.exam.id d ≡ ok (u, d')
            → Count 0 d'
        cleared d u d' k wrote =
            let same : record d { items = select (λ i. not (i.exam_id == b.exam.id)) d.items }
                ≡ d' =
              ground arith in
            subst (Count 0) same (count_where-select-not (of_exam b.exam.id) d.items)

        kept_items :
            (d d' : Store) (u : Unit {0})
            → Count 0 d
            → exam_cleared b.exam.id d ≡ ok (u, d')
            → Count 0 d'
        kept_items d d' u k wrote =
            let same : d.items ≡ d'.items = ground arith in
            subst (λ xs. count_where (of_exam b.exam.id) xs ≡ 0) same k
