-- ===== src/Bundle/Items.antt =====
-- The insertion of a bundle's items in one statement (ReplaceBundle of
-- app/adapter/persistence/repository/node_repository.go).
use bangkusekolah_exam_node.Base.{
  ◌+◌, ◌≡◌, ◌∙◌, subst, inl, inr, false, none, eq_iff, All, Bool-cases, find?-insert_row_miss,
  String, ◌==◌, eq_refl, some, List, [], ◌∷◌, map, length, find?, insert_row, count_where,
  count_where-insert_row, find?-insert_row_hit, Option-cases, arith,
}
use bangkusekolah_exam_node.Entity.{Item}
use bangkusekolah_exam_node.Exec.{ok}
use bangkusekolah_exam_node.Repository.Bundle.{items_added}
use bangkusekolah_exam_node.Bundle.{ExamNodeBundle, ExamNodeBundleItem, bundle_item}
use bangkusekolah_exam_node.Bundle.Stored.{of_exam}

module _ (b : ExamNodeBundle) where
  -- A row that is there stays when others are added.
  items_added-keeps :
      (is : List Item) (rows rows' : List Item) (x : String) (r : Item)
      → find? (λ r. r.id == x) rows ≡ some r
      → items_added is rows ≡ ok rows'
      → find? (λ r. r.id == x) rows' ≡ some r
  unfolding items_added
  items_added-keeps [] rows rows' x r there added = ground (arith, there)
  items_added-keeps (i ∷ is) rows rows' x r there added =
      elim (Option-cases (find? (λ r. r.id == i.id) rows)) [
        | inr (y, taken) ↦ absurd (ground arith)
        | inl free ↦
            items_added-keeps is (insert_row (λ r. r.id) i rows) rows' x r
              (find?-insert_row_miss (λ r. r.id) (λ r. r.id == x) i rows (apart free) ∙ there)
              (rw (free, items_added) at added)
      ]
    where
      apart : find? (λ r. r.id == i.id) rows ≡ none → (i.id == x) ≡ false
      apart free = elim (Bool-cases (i.id == x)) [
        | inr other ↦ other
        | inl same ↦
            absurd (
              clash (subst (λ k. find? (λ r. r.id == k) rows ≡ none) ((eq_iff i.id x).0 same) free))
      ]
        where
          clash : find? (λ r. r.id == x) rows ≡ none → ⊥
          clash gone = ground (arith, there)

  pub items_added-present :
      (bs : List ExamNodeBundleItem) (rows rows' : List Item)
      → items_added (map (bundle_item b) bs) rows ≡ ok rows'
      → All (λ i. find? (λ r. r.id == i.id) rows' ≡ some (bundle_item b i)) bs
  unfolding items_added
  items_added-present [] rows rows' added = tt
  items_added-present (i ∷ bs) rows rows' added =
      elim (Option-cases (find? (λ r. r.id == i.id) rows)) [
        | inr (x, taken) ↦ absurd (ground arith)
        | inl free ↦
            let more : List Item = insert_row (λ r. r.id) (bundle_item b i) rows in
            let after : items_added (map (bundle_item b) bs) more ≡ ok rows' =
              rw (free, items_added) at added in
            (
              items_added-keeps (map (bundle_item b) bs) more rows' i.id (bundle_item b i)
                  (find?-insert_row_hit (λ r. r.id) (λ r. r.id == i.id) (bundle_item b i) rows
                    (eq_refl i.id) free)
                  after,
              items_added-present bs more rows' after,
            )
      ]

  pub items_added-counts :
      (bs : List ExamNodeBundleItem) (rows rows' : List Item)
      → items_added (map (bundle_item b) bs) rows ≡ ok rows'
      → count_where (of_exam b.exam.id) rows' ≡ length bs + count_where (of_exam b.exam.id) rows
  unfolding items_added
  items_added-counts [] rows rows' added = ground arith
  items_added-counts (i ∷ bs) rows rows' added =
      elim (Option-cases (find? (λ r. r.id == i.id) rows)) [
        | inr (x, taken) ↦ absurd (ground arith)
        | inl free ↦
            let more : List Item = insert_row (λ r. r.id) (bundle_item b i) rows in
            let rest = items_added-counts bs more rows' (rw (free, items_added) at added) in
            let one =
              count_where-insert_row (λ r. r.id) (of_exam b.exam.id) (bundle_item b i) rows in
            ground (arith, rest, one, eq_refl b.exam.id)
      ]
