-- ===== src/Invariant.antt =====
-- What holds of the attempts and the roster between two statements
-- (app/adapter/persistence/repository/node_repository.go, app/service/attempt_service.go).
use bangkusekolah_exam_node.Base.{
  ◌≤◌, ◌≡◌, ◌≢◌, sym, subst, inl, inr, Bool, true, String, ◌==◌, Option, none, some, List, arith,
  find?, All, All-update_where, update_where, Option-cases,
}
use bangkusekolah_exam_node.Entity.{
  Time, Score, Attempt, AttemptStatus, in_progress, submitted, auto_submitted, graded,
}
use bangkusekolah_exam_node.Store.{Store, ParticipantRow}
use bangkusekolah_exam_node.Exec.{ok}
use bangkusekolah_exam_node.Exec.Hoare.{Hoare, Hoare-change}
use bangkusekolah_exam_node.Repository.{
  update_attempt, is_open_row, attempt_written, attempt_updated, is_unbound_row, device_bound,
}

abbrev pub row_of : List ParticipantRow → String → Option ParticipantRow
row_of ps id = find? (λ p. p.id == id) ps

-- The times and the score go with the status.
abbrev pub Consistent : AttemptStatus → Option Time → Option Time → Option Score → Type 0
Consistent in_progress submitted_at auto_at score =
    (submitted_at ≡ none) × (auto_at ≡ none) × (score ≡ none)
Consistent submitted submitted_at auto_at score =
    (submitted_at ≢ none) × (auto_at ≡ none) × (score ≢ none)
Consistent auto_submitted submitted_at auto_at score =
    (submitted_at ≢ none) × (auto_at ≡ submitted_at) × (score ≢ none)
Consistent graded submitted_at auto_at score = (submitted_at ≢ none) × (score ≢ none)

-- An attempt belongs to its participant's exam, its number is counted, and while it is in progress
-- it is the participant's latest attempt.
pub record Fits (ps : List ParticipantRow) (a : Attempt) : Type 0 where
  pub belongs : (p : ParticipantRow) → row_of ps a.participant_id ≡ some p → a.exam_id ≡ p.exam_id
  pub counted :
      (p : ParticipantRow) → row_of ps a.participant_id ≡ some p → a.attempt_no ≤ p.attempt_count
  pub is_latest :
      a.status ≡ in_progress
      → (p : ParticipantRow) → row_of ps a.participant_id ≡ some p
      → p.latest_attempt_id ≡ some a.id
  pub consistent : Consistent a.status a.submitted_at a.auto_submitted_at a.score

abbrev pub Inv : Store → Type 0
Inv d = All (Fits d.participants) d.attempts

-- The invariant, with the roster as it is.
abbrev pub Kept : List ParticipantRow → Store → Type 0
Kept ps d = (d.participants ≡ ps) × All (Fits ps) d.attempts

pub Kept-Inv : (ps : List ParticipantRow) (d : Store) → Kept ps d → Inv d
Kept-Inv ps d k = subst (λ qs. All (Fits qs) d.attempts) (sym k.0) k.1

-- A finished attempt as UpdateAttempt may write it.
abbrev pub IsFinal : Attempt → Type 0
IsFinal a =
    (a.status ≢ in_progress) × Consistent a.status a.submitted_at a.auto_submitted_at a.score

attempt_written-Fits :
    (ps : List ParticipantRow) (a r : Attempt)
    → IsFinal a
    → Fits ps r
    → Fits ps (attempt_written a r)
attempt_written-Fits ps a r final fits = record {
  belongs = fits.belongs;
  counted = fits.counted;
  is_latest = λ live p e. absurd (final.0 live);
  consistent = final.1;
}

update_where-Kept :
    (ps : List ParticipantRow) (p : Attempt → Bool) (f : Attempt → Attempt) (d d' : Store)
    → ((r : Attempt) → p r ≡ true → Fits ps r → Fits ps (f r))
    → Kept ps d
    → record d { attempts = update_where p f d.attempts } ≡ d'
    → Kept ps d'
update_where-Kept ps p f d d' step k e = subst (Kept ps) e (
  k.0,
  All-update_where (Fits ps) (Fits ps) p f d.attempts (λ r h t. step r t h) (λ r h t. h) k.1,
)

pub update_attempt-Kept :
    (ps : List ParticipantRow) (a : Attempt)
    → IsFinal a
    → Hoare (Kept ps) (update_attempt a) (λ _. Kept ps) (Kept ps)
unfolding update_attempt
update_attempt-Kept ps a final =
    Hoare-change (attempt_updated a) (λ d k. k)
      λ d u d' k e.
        update_where-Kept ps (is_open_row a.id) (attempt_written a) d d'
          (λ r t fits. attempt_written-Fits ps a r final fits) k (ground arith)

bound-Fits :
    (ps : List ParticipantRow) (device : String) (r : Attempt)
    → Fits ps r
    → Fits ps (record r { device_id = device })
bound-Fits ps device r fits = record {
  belongs = fits.belongs;
  counted = fits.counted;
  is_latest = fits.is_latest;
  consistent = fits.consistent;
}

pub device_bound-Kept :
    (ps : List ParticipantRow) (id device : String) (b : Bool) (d d' : Store)
    → Kept ps d
    → device_bound id device d ≡ ok (b, d')
    → Kept ps d'
device_bound-Kept ps id device b d d' k e =
    elim (Option-cases (find? (is_unbound_row id) d.attempts)) [
      | inl missing ↦ let same : d ≡ d' = ground arith in subst (Kept ps) same k
      | inr (r, hit) ↦
          update_where-Kept ps (is_unbound_row id) (λ r. record r { device_id = device }) d d'
            (λ r t fits. bound-Fits ps device r fits) k (ground arith)
    ]
