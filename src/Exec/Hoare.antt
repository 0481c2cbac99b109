-- ===== src/Exec/Hoare.antt =====
-- What an action guarantees, with a rule for each way to build one.
use bangkusekolah_exam_node.Base.{◌≡◌, refl, Bool, true, false, Option, none, some, if◌then◌else◌}
use bangkusekolah_exam_node.Entity.{Err, repository_unavailable}
use bangkusekolah_exam_node.Store.{Store}
use bangkusekolah_exam_node.Exec.{
  World, M, Result, ok, err, pure, raise, continue, ◌>>=◌, try, query, change, atomic, time_now,
  new_id, head_fault, commit, guard, written, statement_sent, or_err,
}

-- A result `a` comes with `Q a` of the tables, an error with `E`.
abbrev pub Outcome :
    {A : Type 0} → (A → Store → Type 0) → (Store → Type 0) → Result A × World → Type 0
Outcome Q E (ok a, w) = Q a w.db
Outcome Q E (err e, w) = E w.db

pub record Hoare {A : Type 0} (P : Store → Type 0) (m : M A) (Q : A → Store → Type 0)
    (E : Store → Type 0) : Type 0 where
  pub at : (w : World) → P w.db → Outcome Q E (m w)

-- What `try` learns of a result that it holds as a value.
abbrev pub Settled :
    {A : Type 0} → (A → Store → Type 0) → (Err → Store → Type 0) → Result A → Store → Type 0
Settled Q E (ok a) d = Q a d
Settled Q E (err e) d = E e d

module _ {A : Type 0} {P : Store → Type 0} {Q : A → Store → Type 0} {E : Store → Type 0} where
  pub Hoare-pure : (a : A) → ((d : Store) → P d → Q a d) → Hoare P (pure a) Q E
  Hoare-pure a h = record { at = λ w. h w.db }

  pub Hoare-raise : (e : Err) → ((d : Store) → P d → E d) → Hoare P (raise e) Q E
  Hoare-raise e h = record { at = λ w. h w.db }

  pub Hoare-if :
      (b : Bool) (m n : M A)
      → (b ≡ true → Hoare P m Q E)
      → (b ≡ false → Hoare P n Q E)
      → Hoare P (if b then m else n) Q E
  Hoare-if true m n yes_case no_case = yes_case refl
  Hoare-if false m n yes_case no_case = no_case refl

  pub Hoare-query :
      (f : Store → Result A)
      → ((d : Store) → P d → E d)
      → ((d : Store) (a : A) → P d → f d ≡ ok a → Q a d)
      → Hoare P (query f) Q E
  unfolding query
  Hoare-query f bad good = record { at = λ w p. go w (head_fault w.faults) (f w.db) p refl }
    where
      go :
          (w : World) (b : Bool) (r : Result A)
          → P w.db
          → f w.db ≡ r
          → Outcome Q E
              (if b then (err repository_unavailable, statement_sent w) else (r, statement_sent w))
      go w true r p e = bad w.db p
      go w false (ok a) p e = good w.db a p e
      go w false (err x) p e = bad w.db p

  pub Hoare-change :
      (f : Store → Result (A × Store))
      → ((d : Store) → P d → E d)
      → ((d : Store) (a : A) (d' : Store) → P d → f d ≡ ok (a, d') → Q a d')
      → Hoare P (change f) Q E
  unfolding change
  Hoare-change f bad good = record { at = λ w p. go w (head_fault w.faults) (f w.db) p refl }
    where
      go :
          (w : World) (b : Bool) (r : Result (A × Store))
          → P w.db
          → f w.db ≡ r
          → Outcome Q E (
              if b
              then (err repository_unavailable, statement_sent w)
              else written (statement_sent w) r)
      go w true r p e = bad w.db p
      go w false (ok (a, d')) p e = good w.db a d' p e
      go w false (err x) p e = bad w.db p

  -- A transaction that fails leaves what was there before it.
  pub Hoare-atomic :
      (m : M A) (F : Store → Type 0)
      → ((d : Store) → P d → E d)
      → Hoare P m Q F
      → Hoare P (atomic m) Q E
  unfolding atomic
  Hoare-atomic m F back h = record { at = λ w p. go w (m w) p (h.at w p) }
    where
      go : (w : World) (r : Result A × World) → P w.db → Outcome Q F r → Outcome Q E (commit w r)
      go w (ok a, w') p q = settle (head_fault w'.faults)
        where
          settle :
              (b : Bool)
              → Outcome Q E (
                  if b
                  then (err repository_unavailable, record (statement_sent w') { db = w.db })
                  else (ok a, statement_sent w'))
          settle true = back w.db p
          settle false = q
      go w (err x, w') p q = back w.db p

module _ {A B : Type 0} {P : Store → Type 0} {R : B → Store → Type 0} {E : Store → Type 0} where
  pub Hoare-bind :
      (Q : A → Store → Type 0) (m : M A) (f : A → M B)
      → Hoare P m Q E
      → ((a : A) → Hoare (Q a) (f a) R E)
      → Hoare P (m >>= f) R E
  Hoare-bind Q m f hm hf = record { at = λ w p. go (m w) (hm.at w p) }
    where
      go : (r : Result A × World) → Outcome Q E r → Outcome R E (continue r f)
      go (ok a, w) q = (hf a).at w q
      go (err e, w) q = q

module _ {P : Store → Type 0} {Q : Unit {0} → Store → Type 0} {E : Store → Type 0} where
  pub Hoare-guard :
      (b : Bool) (e : Err)
      → ((d : Store) → P d → E d)
      → (b ≡ true → (d : Store) → P d → Q tt d)
      → Hoare P (guard b e) Q E
  Hoare-guard true e bad good = record { at = λ w. good refl w.db }
  Hoare-guard false e bad good = record { at = λ w. bad w.db }

module _ {A : Type 0} {P : Store → Type 0} {E : Store → Type 0} where
  -- `try` does not fail itself.
  pub Hoare-try :
      (m : M A) (Q : A → Store → Type 0) (F : Err → Store → Type 0)
      → ((w : World) → P w.db → Settled Q F (m w).0 (m w).1.db)
      → Hoare P (try m) (Settled Q F) E
  Hoare-try m Q F h = record { at = h }

module _ {P : Store → Type 0} {E : Store → Type 0} where
  pub Hoare-time_now : Hoare P time_now (λ _. P) E
  unfolding time_now
  Hoare-time_now = record { at = λ w p. p }

  pub Hoare-new_id : Hoare P new_id (λ _. P) E
  unfolding new_id
  Hoare-new_id = record { at = λ w p. p }

module _ {A : Type 0} {P : Store → Type 0} {Q : A → Store → Type 0} {E : Store → Type 0} where
  -- An error of which nothing is said, as inside of a transaction.
  pub Hoare-loose :
      (F : Store → Type 0) (m : M A) → ((d : Store) → E d → F d) → Hoare P m Q E → Hoare P m Q F
  Hoare-loose F m post h = record { at = λ w p. go (m w) (h.at w p) }
    where
      go : (r : Result A × World) → Outcome Q E r → Outcome Q F r
      go (ok a, w) q = q
      go (err e, w) q = post w.db q

-- A lookup that succeeds found the row.
pub Hoare-lookup :
    {A : Type 0} (P : Store → Type 0) (f : Store → Option A) (e : Err)
    → Hoare P (query (λ d. or_err (f d) e)) (λ a d. P d × (f d ≡ some a)) P
Hoare-lookup P f e =
    Hoare-query (λ d. or_err (f d) e) (λ d p. p) λ d a p found. (p, or_err-ok (f d) found)
  where
    or_err-ok : {A : Type 0} (o : Option A) {a : A} → or_err o e ≡ ok a → o ≡ some a
    or_err-ok none h = cc
    or_err-ok (some b) h = cc

-- A query under `try`: the database failed, or it is the answer of the tables.
pub query-Settled :
    {A : Type 0} (g : Store → Result A) (Q : A → Store → Type 0) (F : Err → Store → Type 0)
    (w : World)
    → F repository_unavailable w.db
    → Settled Q F (g w.db) w.db
    → Settled Q F (query g w).0 (query g w).1.db
unfolding query
query-Settled {A} g Q F w failed answered = go (head_fault w.faults)
  where
    go :
        (b : Bool)
        → let r =
            if◌then◌else◌ {A = Result A × World} b
              (err repository_unavailable, statement_sent w)
              (g w.db, statement_sent w) in
          Settled Q F r.0 r.1.db
    go true = failed
    go false = answered

-- The answers of the actions, whatever happens, from what each guarantees.
pub Outcome-either :
    {A : Type 0} (P : Store → Type 0) (r : Result A × World) → Outcome (λ _. P) P r → P r.1.db
Outcome-either P (ok a, w) h = h
Outcome-either P (err e, w) h = h

-- An action of which nothing is asked.
pub Hoare-any : {A : Type 0} {P : Store → Type 0} (m : M A) → Hoare P m (λ _ _. Unit) (λ _. Unit)
Hoare-any m = record { at = λ w p. go (m w) }
  where
    go : {A : Type 0} (r : Result A × World) → Outcome (λ _ _. Unit) (λ _. Unit) r
    go (ok a, w) = tt
    go (err e, w) = tt

-- A weaker guarantee.
pub Hoare-weaken :
    {A : Type 0} {P : Store → Type 0} {Q R : A → Store → Type 0} {E : Store → Type 0} (m : M A)
    → ((a : A) (d : Store) → Q a d → R a d)
    → Hoare P m Q E
    → Hoare P m R E
Hoare-weaken {A} {P} {Q} {R} {E} m k h = record { at = λ w p. go (m w) (h.at w p) }
  where
    go : (r : Result A × World) → Outcome Q E r → Outcome R E r
    go (ok a, w) q = k a w.db q
    go (err e, w) q = q

-- After an action of which nothing is asked.
pub Hoare-after :
    {A B : Type 0} {P : Store → Type 0} {R : B → Store → Type 0} (m : M A) {f : A → M B}
    → ((a : A) → Hoare (λ _. Unit) (f a) R (λ _. Unit))
    → Hoare P (m >>= f) R (λ _. Unit)
Hoare-after m {f} h = Hoare-bind (λ _ _. Unit) m f (Hoare-any m) h

-- A transaction, from what its body comes to.
pub commit-Outcome :
    {A : Type 0} (Q : A → Store → Type 0) (F : Store → Type 0) (w : World) (r : Result A × World)
    → Outcome Q F r
    → Outcome Q (λ d. d ≡ w.db) (commit w r)
commit-Outcome Q F w (err e, w') h = refl
commit-Outcome {A} Q F w (ok a, w') h = settle (head_fault w'.faults)
  where
    settle :
        (b : Bool)
        → Outcome Q
            (λ d. d ≡ w.db)
            (if b
              then (err repository_unavailable, record (statement_sent w') { db = w.db })
              else (ok a, statement_sent w'))
    settle true = refl
    settle false = h
