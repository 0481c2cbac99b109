-- ===== src/Exec/Keeps.antt =====
-- Actions that keep a predicate of the tables, whatever they return and wherever they fail.
use bangkusekolah_exam_node.Base.{◌≡◌, Bool, true, false, if◌then◌else◌}
use bangkusekolah_exam_node.Entity.{Err}
use bangkusekolah_exam_node.Store.{Store}
use bangkusekolah_exam_node.Exec.{
  M, World, Result, ok, pure, raise, ◌>>=◌, try, query, change, time_now, new_id, guard,
}
use bangkusekolah_exam_node.Exec.Hoare.{
  Hoare, Outcome-either, Hoare-pure, Hoare-raise, Hoare-bind, Hoare-if, Hoare-query, Hoare-change,
  Hoare-time_now, Hoare-new_id, Hoare-guard,
}

abbrev pub Keeps : (Store → Type 0) → {A : Type 0} → M A → Type 0
Keeps K m = Hoare K m (λ _. K) K

module _ (K : Store → Type 0) where
  pub Keeps-pure : {A : Type 0} (a : A) → Keeps K (pure a)
  Keeps-pure a = Hoare-pure a (λ d k. k)

  pub Keeps-raise : {A : Type 0} (e : Err) → Keeps K {A = A} (raise e)
  Keeps-raise e = Hoare-raise e (λ d k. k)

  pub Keeps-guard : (b : Bool) (e : Err) → Keeps K (guard b e)
  Keeps-guard b e = Hoare-guard b e (λ d k. k) (λ t d k. k)

  pub Keeps-bind :
      {A B : Type 0} (m : M A) (f : A → M B)
      → Keeps K m
      → ((a : A) → Keeps K (f a))
      → Keeps K (m >>= f)
  Keeps-bind m f hm hf = Hoare-bind (λ _. K) m f hm hf

  pub Keeps-if :
      {A : Type 0} (b : Bool) (m n : M A)
      → (b ≡ true → Keeps K m)
      → (b ≡ false → Keeps K n)
      → Keeps K (if b then m else n)
  Keeps-if b m n yes_case no_case = Hoare-if b m n yes_case no_case

  pub Keeps-try : {A : Type 0} (m : M A) → Keeps K m → Keeps K (try m)
  Keeps-try m h = record { at = λ w k. Outcome-either K (m w) (h.at w k) }

  pub Keeps-query : {A : Type 0} (f : Store → Result A) → Keeps K (query f)
  Keeps-query f = Hoare-query f (λ d k. k) (λ d a k e. k)

  pub Keeps-change :
      {A : Type 0} (f : Store → Result (A × Store))
      → ((d : Store) (a : A) (d' : Store) → K d → f d ≡ ok (a, d') → K d')
      → Keeps K (change f)
  Keeps-change f h = Hoare-change f (λ d k. k) h

  pub Keeps-time_now : Keeps K time_now
  Keeps-time_now = Hoare-time_now

  pub Keeps-new_id : Keeps K new_id
  Keeps-new_id = Hoare-new_id

-- What an action leaves, from what it keeps.
pub Keeps-left :
    (K : Store → Type 0) {A : Type 0} (m : M A) (w : World) → Keeps K m → K w.db → K (m w).1.db
Keeps-left K m w h k = Outcome-either K (m w) (h.at w k)
