-- ===== src/Auth/Login.antt =====
-- Who is logged in (login of app/service/auth_service.go).
use bangkusekolah_exam_node.Base.{
  ◌≡◌, refl, sym, subst, Bool, true, false, String, ◌==◌, eq_iff, Option, none, some,
}
use bangkusekolah_exam_node.Entity.{Exam, Err, exam_not_loaded, invalid_access_code}
use bangkusekolah_exam_node.Store.{Store, ParticipantRow}
use bangkusekolah_exam_node.Exec.{
  M, World, Result, ok, err, or_err, pure, ◌>>=◌, guard, try, query, time_now,
}
use bangkusekolah_exam_node.Exec.Hoare.{
  Hoare, Outcome, Settled, Hoare-pure, Hoare-raise, Hoare-bind, Hoare-guard, Hoare-time_now,
  Hoare-try, Hoare-lookup, Hoare-weaken,
}
use bangkusekolah_exam_node.Repository.{exam_row, find_exam_by_id}
use bangkusekolah_exam_node.Auth.{
  Limits, Hits, Issuer, LoginResult, code_row, find_participant_by_access_code, or_invalid,
  issue_token, log_in, expiry_of, LoggedIn, beside, admitted, allow, login_with, login_as,
  normal_code, shape,
}

-- The result names a participant who has the code, and the loaded exam of the participant, whose
-- codes begin with the prefix; the tables are as they were.
pub record Authenticated (code prefix : String) (d0 : Store) (r : LoginResult) (d : Store)
    : Type 0 where
  pub participant : ParticipantRow
  pub exam : Exam
  pub has_code : code_row d0 code ≡ some participant
  pub its_exam : exam_row d0 participant.exam_id ≡ some exam
  pub prefix_fits : exam.access_code_prefix ≡ prefix
  pub participant_id : r.participant_id ≡ participant.id
  pub student_id : r.student_id ≡ participant.student_id
  pub exam_id : r.exam_id ≡ exam.id
  pub unchanged : d ≡ d0

module _ (d0 : Store) where
  abbrev Same : Store → Type 0
  Same d = d ≡ d0

  -- A lookup of which every error is that of an invalid code.
  looked_up :
      {A : Type 0} (m : M A) (X : A → Store → Type 0)
      → Hoare Same m (λ a d. Same d × X a d) Same
      → Hoare Same (try m >>= λ r. or_invalid r) (λ a d. Same d × X a d) Same
  looked_up {A} m X h =
      Hoare-bind (Settled (λ a d. Same d × X a d) (λ e. Same)) (try m) _
        (Hoare-try m (λ a d. Same d × X a d) (λ e. Same) λ w k. held (m w) (h.at w k)) settled
    where
      held :
          (r : Result A × World)
          → Outcome (λ a d. Same d × X a d) Same r
          → Settled (λ a d. Same d × X a d) (λ e. Same) r.0 r.1.db
      held (ok a, w) q = q
      held (err e, w) q = q

      settled :
          (r : Result A)
          → Hoare
              (Settled (λ a d. Same d × X a d) (λ e. Same) r)
              (or_invalid r)
              (λ a d. Same d × X a d)
              Same
      settled (ok a) = Hoare-pure a (λ d k. k)
      settled (err e) = Hoare-raise invalid_access_code (λ d k. k)

  row_read :
      {A : Type 0} (f : Store → Option A) (e : Err)
      → Hoare Same (query (λ d. or_err (f d) e)) (λ a d. Same d × (f d0 ≡ some a)) Same
  row_read f e =
      Hoare-weaken (query (λ d. or_err (f d) e)) (λ a d k. (k.0, subst (λ x. f x ≡ some a) k.0 k.1))
        (Hoare-lookup Same f e)

  issued :
      (issuer : Issuer) (p : ParticipantRow) (exam : Exam)
      → Hoare Same (issue_token issuer p exam) (λ _. Same) Same
  issued issuer p exam = record {
    at = λ w k. go w (issuer.issue p.id p.student_id exam.id exam.deployment_id w) k;
  }
    where
      go : (w : World) (r : Result String) → Same w.db → Outcome (λ _. Same) Same (r, w)
      go w (ok t) k = k
      go w (err e) k = k

  log_in-Authenticated :
      (issuer : Issuer) (code prefix : String)
      → Hoare Same (log_in issuer code prefix) (λ r d. Authenticated code prefix d0 r d) Same
  unfolding log_in find_participant_by_access_code find_exam_by_id
  log_in-Authenticated issuer code prefix =
      Hoare-bind (λ p d. Same d × (code_row d0 code ≡ some p))
        (try (find_participant_by_access_code code) >>= λ r. or_invalid r) _
        (looked_up (find_participant_by_access_code code) (λ p d. code_row d0 code ≡ some p)
          (row_read (λ d. code_row d code) invalid_access_code))
        λ p.
          Hoare-bind (λ _ d. Same d × (code_row d0 code ≡ some p))
            (guard (p.access_code == code) invalid_access_code) _
            (Hoare-guard (p.access_code == code) invalid_access_code (λ d k. k.0) (λ t d k. k))
            λ u. record { at = λ w k. (with_row p k.1).at w k.0 }
    where
      with_exam :
          (p : ParticipantRow)
          → code_row d0 code ≡ some p
          → (exam : Exam) → exam_row d0 p.exam_id ≡ some exam
          → prefix ≡ exam.access_code_prefix
          → Hoare Same
              (issue_token issuer p exam >>= λ token. time_now >>= λ now. pure (record {
                participant_id = p.id;
                student_id = p.student_id;
                exam_id = exam.id;
                deployment_id = exam.deployment_id;
                token = token;
                expires_at = expiry_of issuer token now;
              }))
              (λ r d. Authenticated code prefix d0 r d)
              Same
      with_exam p has exam its fits =
          Hoare-bind (λ _. Same) (issue_token issuer p exam) _ (issued issuer p exam)
            λ token.
              Hoare-bind (λ _. Same) time_now _ Hoare-time_now
                λ now. Hoare-pure _ (λ d k. record {
                  participant = p;
                  exam = exam;
                  has_code = has;
                  its_exam = its;
                  prefix_fits = sym fits;
                  participant_id = refl;
                  student_id = refl;
                  exam_id = refl;
                  unchanged = k;
                })

      with_row :
          (p : ParticipantRow)
          → code_row d0 code ≡ some p
          → Hoare Same
              (try (find_exam_by_id p.exam_id) >>= λ r. or_invalid r >>= λ exam.
                guard (prefix == exam.access_code_prefix) invalid_access_code >>= λ u.
                issue_token issuer p exam >>= λ token. time_now >>= λ now. pure (record {
                  participant_id = p.id;
                  student_id = p.student_id;
                  exam_id = exam.id;
                  deployment_id = exam.deployment_id;
                  token = token;
                  expires_at = expiry_of issuer token now;
                }))
              (λ r d. Authenticated code prefix d0 r d)
              Same
      with_row p has =
          Hoare-bind (λ exam d. Same d × (exam_row d0 p.exam_id ≡ some exam))
            (try (find_exam_by_id p.exam_id) >>= λ r. or_invalid r) _
            (looked_up (find_exam_by_id p.exam_id) (λ exam d. exam_row d0 p.exam_id ≡ some exam)
              (row_read (λ d. exam_row d p.exam_id) exam_not_loaded))
            λ exam.
              Hoare-bind
                (λ _ d.
                  Same d × (exam_row d0 p.exam_id ≡ some exam) × (prefix ≡ exam.access_code_prefix))
                (guard (prefix == exam.access_code_prefix) invalid_access_code) _
                (Hoare-guard (prefix == exam.access_code_prefix) invalid_access_code (λ d k. k.0)
                  (λ t d k. (k.0, k.1, (eq_iff prefix exam.access_code_prefix).0 t)))
                λ u. record { at = λ w k. (with_exam p has exam k.1 k.2).at w k.0 }

-- A login that succeeds is that of the code as typed, without the blanks around it and in capitals:
-- the code has the shape of two parts of six, a participant has exactly this code, the exam of that
-- participant is loaded and its codes begin with the first part, and the result names both. However
-- it ends, wherever the database fails and whatever the issuer answers, the tables stay the same.
pub login_as-authenticates :
    (limits : Limits) (issuer : Issuer) (raw key : String) (hits : Hits) (w : World)
    → let r = login_as limits issuer raw key hits w in
      Outcome
        (λ l d.
          (prefix : String) × (shape (normal_code raw) ≡ some prefix)
          × Authenticated (normal_code raw) prefix w.db l d)
        (λ d. d ≡ w.db)
        (r.0.0, r.1)
unfolding login_with time_now
login_as-authenticates limits issuer raw key hits w = go (shape (normal_code raw)) refl
  where
    Goal : LoggedIn → Type 0
    Goal r =
        Outcome
          (λ l d.
            (prefix : String) × (shape (normal_code raw) ≡ some prefix)
            × Authenticated (normal_code raw) prefix w.db l d)
          (λ d. d ≡ w.db) (r.0.0, r.1)

    named :
        (prefix : String) (h : Hits) (r : Result LoginResult × World)
        → shape (normal_code raw) ≡ some prefix
        → Outcome (λ l d. Authenticated (normal_code raw) prefix w.db l d) (λ d. d ≡ w.db) r
        → Goal (beside h r)
    named prefix h (ok l, w') shaped q = (prefix, shaped, q)
    named prefix h (err e, w') shaped q = q

    counted :
        (prefix : String)
        → shape (normal_code raw) ≡ some prefix
        → (c : Bool × Hits) (v : World) → v.db ≡ w.db
        → Goal (admitted issuer (normal_code raw) prefix c v)
    counted prefix shaped (false, h) v same = same
    counted prefix shaped (true, h) v same =
        named prefix h (log_in issuer (normal_code raw) prefix v) shaped
          ((log_in-Authenticated w.db issuer (normal_code raw) prefix).at v same)

    go :
        (o : Option String)
        → shape (normal_code raw) ≡ o
        → Goal (login_with limits issuer (normal_code raw) o key hits w)
    go none shaped = refl
    go (some prefix) shaped =
        counted prefix shaped (allow limits w.clock key hits) (time_now w).1 refl
