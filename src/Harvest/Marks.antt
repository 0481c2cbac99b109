-- ===== src/Harvest/Marks.antt =====
-- Which attempts a drain marks as harvested (drainDeployment and drainLocked of
-- app/service/harvest_service.go), whatever Central answers and wherever the database fails.
use bangkusekolah_exam_node.Base.{
  ℕ, ◌≡◌, refl, ap, subst, ◌⊎◌, inl, inr, Bool, true, false, ◌&&◌, String, ◌==◌, some, List, [],
  ◌∷◌, ◌++◌, if◌then◌else◌, find?, update_where, Bool-cases, arith,
}
use bangkusekolah_exam_node.Entity.{Time, Attempt}
use bangkusekolah_exam_node.Store.{Store, HarvestLog}
use bangkusekolah_exam_node.Exec.{World, ok}
use bangkusekolah_exam_node.Repository.Harvest.{
  is_unpushed, harvested, is_in, attempts_marked, logged,
}
use bangkusekolah_exam_node.Harvest.{
  HarvestPusher, ExamNodeAttemptPayload, ExamNodeAttemptBatch, ExamNodeIngestResult, is_failure,
}

-- Central took the attempt of that id and generation: it was in a batch that was sent, and the
-- answer to that batch accepts the id and does not reject it too.
pub record Acknowledged (push : HarvestPusher) (id : String) (generation : ℕ) : Type 0 where
  pub deployment_id : String
  pub batch : ExamNodeAttemptBatch
  pub sent_in : World
  pub result : ExamNodeIngestResult
  pub payload : ExamNodeAttemptPayload
  pub answer : push deployment_id batch sent_in ≡ ok (some result)
  pub accepted : is_in id result.accepted_attempt_ids ≡ true
  pub not_rejected : is_failure result.failures id ≡ false
  pub sent : find? (λ p. p.id == id) batch.attempts ≡ some payload
  pub same_generation : payload.reset_generation ≡ generation

-- A row that a drain leaves as it was, or marks.
abbrev pub Row : HarvestPusher → Attempt → Attempt → Type 0
Row push a b =
    (b ≡ a)
    ⊎ (at : Time) × (b ≡ harvested at a)
      × (is_unpushed a ≡ true)
      × Acknowledged push a.id a.reset_generation

abbrev pub Rows : HarvestPusher → List Attempt → List Attempt → Type 0
Rows push [] [] = Unit
Rows push [] (b ∷ ys) = ⊥
Rows push (a ∷ xs) [] = ⊥
Rows push (a ∷ xs) (b ∷ ys) = Row push a b × Rows push xs ys

-- Nothing else changes but the log.
pub record Harvested (push : HarvestPusher) (before after : Store) : Type 0 where
  pub rows : Rows push before.attempts after.attempts
  pub elsewhere :
      after ≡ record before { attempts = after.attempts; harvest_log = after.harvest_log }

Rows-same : (push : HarvestPusher) (xs : List Attempt) → Rows push xs xs
Rows-same push [] = tt
Rows-same push (a ∷ xs) = (inl refl, Rows-same push xs)

Row-marked :
    (push : HarvestPusher) (p : Attempt → Bool) (at : Time) (a b : Attempt)
    → ((r : Attempt) → p r ≡ true → Acknowledged push r.id r.reset_generation)
    → Row push a b
    → Row push a (if p b && is_unpushed b then harvested at b else b)
Row-marked push p at a b acknowledged (inr (t, e, waits, taken)) =
    let marked_once : is_unpushed b ≡ false = rw e (ground arith) in
    let unmatched : (p b && is_unpushed b) ≡ false = ground arith in
    rw unmatched (inr (t, e, waits, taken))
Row-marked push p at a b acknowledged (inl same) = elim (Bool-cases (p b && is_unpushed b)) [
  | inl hit ↦
      let waits : is_unpushed b ≡ true = ground arith in
      let taken = acknowledged b (ground arith) in
      rw hit (
        inr (
          at,
          ap (harvested at) same,
          subst (λ r. is_unpushed r ≡ true) same waits,
          subst (λ r. Acknowledged push r.id r.reset_generation) same taken,
        ))
  | inr miss ↦ rw miss (inl same)
]

Rows-marked :
    (push : HarvestPusher) (p : Attempt → Bool) (at : Time) (xs ys : List Attempt)
    → ((r : Attempt) → p r ≡ true → Acknowledged push r.id r.reset_generation)
    → Rows push xs ys
    → Rows push xs (update_where (λ r. p r && is_unpushed r) (harvested at) ys)
unfolding update_where
Rows-marked push p at [] [] acknowledged h = tt
Rows-marked push p at [] (b ∷ ys) acknowledged h = absurd h
Rows-marked push p at (a ∷ xs) [] acknowledged h = absurd h
Rows-marked push p at (a ∷ xs) (b ∷ ys) acknowledged h =
    (Row-marked push p at a b acknowledged h.0, Rows-marked push p at xs ys acknowledged h.1)

abbrev with_attempts : List Attempt → Store → Store
with_attempts rows d = record d { attempts = rows }

abbrev with_log : List HarvestLog → Store → Store
with_log entries d = record d { harvest_log = entries }

pub Harvested-same : (push : HarvestPusher) (d : Store) → Harvested push d d
Harvested-same push d = record { rows = Rows-same push d.attempts; elsewhere = refl }

-- The store after an entry of the log.
pub logged-Harvested :
    (push : HarvestPusher) (before d d' : Store) (entry : HarvestLog) (u : Unit {0})
    → Harvested push before d
    → logged entry d ≡ ok (u, d')
    → Harvested push before d'
logged-Harvested push before d d' entry u h e =
    let entries : List HarvestLog = d.harvest_log ++ (entry ∷ []) in
    let same : record d { harvest_log = entries } ≡ d' = ground arith in
    subst (Harvested push before) same
      (record { rows = h.rows; elsewhere = ap (with_log entries) h.elsewhere })

-- The store after the marking.
pub marked-Harvested :
    (push : HarvestPusher) (before d d' : Store) (p : Attempt → Bool) (at : Time) (n : ℕ)
    → ((r : Attempt) → p r ≡ true → Acknowledged push r.id r.reset_generation)
    → Harvested push before d
    → attempts_marked p at d ≡ ok (n, d')
    → Harvested push before d'
marked-Harvested push before d d' p at n acknowledged h e =
    let marks : List Attempt = update_where (λ r. p r && is_unpushed r) (harvested at) d.attempts in
    let same : record d { attempts = marks } ≡ d' = ground arith in
    subst (Harvested push before) same (record {
      rows = Rows-marked push p at before.attempts d.attempts acknowledged h.rows;
      elsewhere = ap (with_attempts marks) h.elsewhere;
    })
