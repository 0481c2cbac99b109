-- ===== src/Exec.antt =====
-- How a service runs: it reads and writes the database, reads the clock, mints ids, and may fail.
-- What was written before a failure stays written, unless a transaction rolls it back, so the
-- world comes back beside the error too.
pub mod Hoare
pub mod Keeps
use bangkusekolah_exam_node.Base.{
  ℕ, suc, ◌+◌, String, Bool, true, false, Option, none, some, List, [], ◌∷◌, if◌then◌else◌,
}
use bangkusekolah_exam_node.Entity.{Time, Err, repository_unavailable}
use bangkusekolah_exam_node.Store.{Store}

pub data Result (A : Type 0) : Type 0 where
  ok : A → Result A
  err : Err → Result A

-- The columns of an answer that a conflicting insert updates.
pub data AnswerColumn : Type 0 where
  answer_json answer_text score max_score grading_status last_saved_at client_seq : AnswerColumn

-- `faults` says of each coming statement whether the database fails at it; past its end none does.
-- `ticks` is the time that passes after each reading of the clock. `uuid` is what the uuid package
-- mints, in order. `assignments` is the order in which gorm writes the columns of the update that
-- UpsertAnswer gives as a Go map: by their names, which is `columns_by_name` of Repository.Answers.
pub record World : Type 0 where
  pub db : Store
  pub faults : List Bool
  pub clock : Time
  pub ticks : List Time
  pub uuid : ℕ → String
  pub issued : ℕ
  pub assignments : List AnswerColumn

abbrev pub M : Type 0 → Type 0
M A = World → Result A × World

abbrev pub or_err : {A : Type 0} → Option A → Err → Result A
or_err none e = err e
or_err (some a) e = ok a

abbrev pub pure : {A : Type 0} → A → M A
pure a w = (ok a, w)

abbrev pub raise : {A : Type 0} → Err → M A
raise e w = (err e, w)

abbrev pub continue : {A B : Type 0} → Result A × World → (A → M B) → Result B × World
continue (ok a, w) f = f a w
continue (err e, w) f = (err e, w)

infixl 5 ◌>>=◌ ◌>>◌
abbrev pub ◌>>=◌ : {A B : Type 0} → M A → (A → M B) → M B
◌>>=◌ m f w = continue (m w) f

abbrev pub ◌>>◌ : {B : Type 0} → M (Unit {0}) → M B → M B
m >> k = m >>= λ _. k

abbrev pub guard : Bool → Err → M (Unit {0})
guard true e = pure tt
guard false e = raise e

-- The error as a value, for code that looks at it and goes on.
abbrev pub try : {A : Type 0} → M A → M (Result A)
try m w = (ok (m w).0, (m w).1)

abbrev pub head_fault : List Bool → Bool
head_fault [] = false
head_fault (b ∷ bs) = b

abbrev pub later_faults : List Bool → List Bool
later_faults [] = []
later_faults (b ∷ bs) = bs

abbrev pub statement_sent : World → World
statement_sent w = record w { faults = later_faults w.faults }

-- A query reads the tables.
unfoldable pub query : {A : Type 0} → (Store → Result A) → M A
query f w =
    if head_fault w.faults
    then (err repository_unavailable, statement_sent w)
    else (f w.db, statement_sent w)

abbrev pub written : {A : Type 0} → World → Result (A × Store) → Result A × World
written w (ok (a, d)) = (ok a, record w { db = d })
written w (err e) = (err e, w)

-- One statement that writes. It writes all that it says or nothing.
unfoldable pub change : {A : Type 0} → (Store → Result (A × Store)) → M A
change f w =
    if head_fault w.faults
    then (err repository_unavailable, statement_sent w)
    else written (statement_sent w) (f w.db)

abbrev pub commit : {A : Type 0} → World → Result A × World → Result A × World
commit start (ok a, w) =
    if head_fault w.faults
    then (err repository_unavailable, record (statement_sent w) { db = start.db })
    else (ok a, statement_sent w)
commit start (err e, w) = (err e, record w { db = start.db })

-- txManager.Atomic outside of a transaction: an error of the body or of the commit rolls back.
unfoldable pub atomic : {A : Type 0} → M A → M A
atomic m w = commit w (m w)

abbrev pub head_tick : List Time → Time
head_tick [] = 0
head_tick (t ∷ ts) = t

abbrev pub later_ticks : List Time → List Time
later_ticks [] = []
later_ticks (t ∷ ts) = ts

-- time.Now and the clock's Now
unfoldable pub time_now : M Time
time_now w =
    (ok w.clock, record w { clock = w.clock + head_tick w.ticks; ticks = later_ticks w.ticks })

-- idGen.NewID
unfoldable pub new_id : M String
new_id w = (ok (w.uuid w.issued), record w { issued = suc w.issued })

-- A world in which no statement fails and the clock stands still.
abbrev pub calm : Store → Time → (ℕ → String) → List AnswerColumn → World
calm d t uuid order = record {
  db = d;
  faults = [];
  clock = t;
  ticks = [];
  uuid = uuid;
  issued = 0;
  assignments = order;
}
