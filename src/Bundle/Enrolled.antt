-- ===== src/Bundle/Enrolled.antt =====
-- The participants of an exam after a load (ReplaceBundle of
-- app/adapter/persistence/repository/node_repository.go).
use bangkusekolah_exam_node.Base.{
  ◌≡◌, refl, sym, subst, ap, ◌∙◌, eq_iff, inl, inr, Bool, true, ◌&&◌, ◌||◌, not, String, ◌==◌, List,
  [], ◌∷◌, map, find?, select, update_where, Option-cases, All, arith,
}
use bangkusekolah_exam_node.Entity.{Time, Exam, Item, Participant}
use bangkusekolah_exam_node.Store.{Store, ParticipantRow}
use bangkusekolah_exam_node.Exec.{Result, ok, err, ◌>>=◌, change, time_now}
use bangkusekolah_exam_node.Exec.Hoare.{
  Hoare, Hoare-pure, Hoare-bind, Hoare-if, Hoare-change, Hoare-query, Hoare-after, Hoare-weaken,
}
use bangkusekolah_exam_node.Repository.Harvest.{is_in}
use bangkusekolah_exam_node.Repository.Roster.{to_participant_model}
use bangkusekolah_exam_node.Repository.Bundle.{
  participant_rewritten, participant_replaced, is_rival, rewrite_participants, participant_deleted,
  delete_stale, participants_added, with_participants, participants_inserted, insert_participants,
  insert_items, items_cleared, exam_cleared, exam_inserted, to_exam_model, participant_ids,
  replace_bundle,
}
use bangkusekolah_exam_node.Bundle.Ids.{
  ids_of, ids_of-update, is_in-delete, is_in-added, new_rows, is_in-new_rows, All-new_rows,
}

module _ (exam_id : String) where
  abbrev Nothing : Store → Type 0
  Nothing d = Unit

  abbrev Ids : List String → Store → Type 0
  Ids existing d = ids_of exam_id d.participants ≡ existing

  -- An id is in the exam exactly if the test says so.
  abbrev Has : (String → Bool) → Store → Type 0
  Has test d = (z : String) → is_in z (ids_of exam_id d.participants) ≡ test z

  replaced-Ids :
      (existing : List String) (p : Participant)
      → Hoare (Ids existing) (change (participant_replaced p)) (λ _. Ids existing) Nothing
  replaced-Ids existing p =
      Hoare-change (participant_replaced p) (λ d k. tt)
        λ d u d' k wrote.
          elim (Option-cases
            (find? (is_rival p (find? (λ r. r.id == p.id) d.participants)) d.participants)) [
              | inr (x, taken) ↦ absurd (ground arith)
              | inl free ↦
                  let same : update_where (λ r. r.id == p.id) (participant_rewritten p)
                        d.participants
                      ≡ d'.participants =
                    ground arith in
                  subst (λ rows. ids_of exam_id rows ≡ existing) same
                    (ids_of-update exam_id p d.participants ∙ k)
            ]

  rewrite-Ids :
      (existing : List String) (ps : List Participant)
      → Hoare
          (Ids existing)
          (rewrite_participants existing ps)
          (λ rows d. Ids existing d × (rows ≡ new_rows exam_id existing ps))
          Nothing
  unfolding rewrite_participants select
  rewrite-Ids existing [] = Hoare-pure [] (λ d k. (k, refl))
  rewrite-Ids existing (p ∷ ps) =
      Hoare-if (is_in p.id existing) _ _
        (λ there.
          Hoare-bind (λ _. Ids existing) (change (participant_replaced p)) _
            (replaced-Ids existing p)
            λ u.
              Hoare-weaken (rewrite_participants existing ps) (λ rows d q. (q.0, rw there (q.1)))
                (rewrite-Ids existing ps))
        (λ missing.
          Hoare-bind (λ rows d. Ids existing d × (rows ≡ new_rows exam_id existing ps))
            (rewrite_participants existing ps) _ (rewrite-Ids existing ps)
            λ rows.
              Hoare-pure (to_participant_model p ∷ rows)
                (λ d q. (q.0, rw missing (ap (λ rest. to_participant_model p ∷ rest) q.1))))

  abbrev without : (String → Bool) → List String → List String → String → Bool
  without test keep ids z = test z && not (is_in z ids && not (is_in z keep))

  stale-Has :
      (keep ids : List String) (test : String → Bool)
      → Hoare (Has test) (delete_stale exam_id keep ids) (λ _. Has (without test keep ids)) Nothing
  unfolding delete_stale is_in
  stale-Has keep [] test = Hoare-pure tt (λ d k z. ground (arith, k z))
  stale-Has keep (id ∷ ids) test =
      Hoare-if (is_in id keep) _ _
        (λ kept.
          Hoare-weaken (delete_stale exam_id keep ids)
            (λ u d k z. ground (arith, k z, kept, eq_iff id z, ap (λ i. is_in i keep)))
            (stale-Has keep ids test))
        (λ stale.
          Hoare-bind (λ _. Has (λ z. test z && not (id == z)))
            (change (participant_deleted exam_id id)) _
            (Hoare-change (participant_deleted exam_id id) (λ d k. tt)
              λ d u d' k wrote z.
                let same : select (λ r. not (r.id == id && r.exam_id == exam_id)) d.participants
                    ≡ d'.participants =
                  ground arith in
                subst (λ rows. is_in z (ids_of exam_id rows) ≡ (test z && not (id == z))) same
                  (ground (arith, is_in-delete exam_id id z d.participants, k z)))
            λ u.
              Hoare-weaken (delete_stale exam_id keep ids)
                (λ v d k z. ground (arith, k z, stale, eq_iff id z, ap (λ i. is_in i keep)))
                (stale-Has keep ids (λ z. test z && not (id == z))))

  insert-Has :
      (rows : List ParticipantRow) (test : String → Bool)
      → All (λ p. (p.exam_id == exam_id) ≡ true) rows
      → Hoare
          (Has test)
          (insert_participants rows)
          (λ _. Has (λ z. is_in z (map (λ p. p.id) rows) || test z))
          Nothing
  unfolding insert_participants is_in
  insert-Has [] test own = Hoare-pure tt (λ d k z. k z)
  insert-Has (p ∷ ps) test own =
      Hoare-change (participants_inserted (p ∷ ps)) (λ d k. tt)
        λ d u d' k wrote z. go d d' u k z (participants_added (p ∷ ps) d.participants) refl wrote
    where
      go :
          (d d' : Store) (u : Unit {0})
          → Has test d
          → (z : String) (r : Result (List ParticipantRow))
          → participants_added (p ∷ ps) d.participants ≡ r
          → with_participants d r ≡ ok (u, d')
          → is_in z (ids_of exam_id d'.participants)
            ≡ (is_in z (map (λ q. q.id) (p ∷ ps)) || test z)
      go d d' u k z (err e) added wrote = absurd (ground arith)
      go d d' u k z (ok rows) added wrote =
          let same : rows ≡ d'.participants = ground arith in
          subst (λ xs. is_in z (ids_of exam_id xs) ≡ (is_in z (map (λ q. q.id) (p ∷ ps)) || test z))
            same (ground (arith, is_in-added exam_id z (p ∷ ps) d.participants rows own added, k z))

-- The participants of the exam are those of the list: the same ids, whatever was there before.
abbrev pub Enrolled : String → List Participant → Store → Type 0
Enrolled exam_id ps d =
    (id : String) → is_in id (ids_of exam_id d.participants) ≡ is_in id (map (λ p. p.id) ps)

-- Those that were there and are wanted, and the new ones, are all that are wanted.
reconciled :
    (exam_id : String) (existing : List String) (ps : List Participant) (z : String)
    → (is_in z (map (λ p. p.id) (new_rows exam_id existing ps))
        || without exam_id (λ i. is_in i existing) (map (λ p. p.id) ps) existing z)
      ≡ is_in z (map (λ p. p.id) ps)
reconciled exam_id existing ps z = ground (arith, is_in-new_rows exam_id z existing ps)

exam_inserted-participants :
    (e : Exam) (d d' : Store) (u : Unit {0})
    → exam_inserted e d ≡ ok (u, d')
    → d'.participants ≡ d.participants
exam_inserted-participants e d d' u wrote =
    elim (Option-cases (find? (λ r. r.id == e.id) d.exams)) [
      | inr (x, taken) ↦ absurd (ground arith)
      | inl free ↦ ground arith
    ]

pub replace_bundle-Enrolled :
    (exam : Exam) (items : List Item) (ps : List Participant)
    → All (λ p. (p.exam_id == exam.id) ≡ true) ps
    → Hoare (λ _. Unit) (replace_bundle exam items ps) (λ _. Enrolled exam.id ps) (λ _. Unit)
unfolding replace_bundle participant_ids
replace_bundle-Enrolled exam items ps own = Hoare-after time_now λ now.
    Hoare-after (change (items_cleared exam.id)) λ u1.
      Hoare-after (change (exam_cleared exam.id)) λ u2. Hoare-after (insert_items items) λ u3.
        Hoare-bind (λ existing. Ids exam.id existing) (participant_ids exam.id) _
          (Hoare-query _ (λ d k. tt) (λ d existing k read. ground arith))
          λ existing.
            Hoare-bind (λ rows d. Ids exam.id existing d × (rows ≡ new_rows exam.id existing ps))
              (rewrite_participants existing ps) _ (rewrite-Ids exam.id existing ps)
              λ rows. rest now existing rows
  where
    inserted :
        (now : Time)
        → Hoare
            (Enrolled exam.id ps)
            (change (exam_inserted (to_exam_model exam now)))
            (λ _. Enrolled exam.id ps)
            (λ _. Unit)
    inserted now =
        Hoare-change (exam_inserted (to_exam_model exam now)) (λ d k. tt)
          λ d u d' k wrote id.
            ap (λ r. is_in id (ids_of exam.id r))
              (exam_inserted-participants (to_exam_model exam now) d d' u wrote)
            ∙ k id

    kept_first :
        (now : Time) (existing : List String)
        → Hoare
            (Has exam.id (λ i. is_in i existing))
            (delete_stale exam.id (map (λ p. p.id) ps) existing >>= λ u4.
              insert_participants (new_rows exam.id existing ps) >>= λ u5.
              change (exam_inserted (to_exam_model exam now)))
            (λ _. Enrolled exam.id ps)
            (λ _. Unit)
    kept_first now existing =
        Hoare-bind
          (λ _. Has exam.id (without exam.id (λ i. is_in i existing) (map (λ p. p.id) ps) existing))
          (delete_stale exam.id (map (λ p. p.id) ps) existing) _
          (stale-Has exam.id (map (λ p. p.id) ps) existing (λ i. is_in i existing))
          λ u4.
            Hoare-bind (λ _. Enrolled exam.id ps)
              (insert_participants (new_rows exam.id existing ps)) _
              (Hoare-weaken (insert_participants (new_rows exam.id existing ps))
                (λ u d k z. k z ∙ reconciled exam.id existing ps z)
                (insert-Has exam.id (new_rows exam.id existing ps)
                  (without exam.id (λ i. is_in i existing) (map (λ p. p.id) ps) existing)
                  (All-new_rows exam.id existing ps own)))
              λ u5. inserted now

    rest :
        (now : Time) (existing : List String) (rows : List ParticipantRow)
        → Hoare
            (λ d. Ids exam.id existing d × (rows ≡ new_rows exam.id existing ps))
            (delete_stale exam.id (map (λ p. p.id) ps) existing >>= λ u4.
              insert_participants rows >>= λ u5. change (exam_inserted (to_exam_model exam now)))
            (λ _. Enrolled exam.id ps)
            (λ _. Unit)
    rest now existing rows = record {
      at = λ w k.
          (subst
              (λ xs.
                Hoare (Has exam.id (λ i. is_in i existing))
                  (delete_stale exam.id (map (λ p. p.id) ps) existing >>= λ u4.
                    insert_participants xs >>= λ u5.
                    change (exam_inserted (to_exam_model exam now)))
                  (λ _. Enrolled exam.id ps) (λ _. Unit))
              (sym k.1) (kept_first now existing)).at
            w (λ z. ap (is_in z) k.0);
    }
