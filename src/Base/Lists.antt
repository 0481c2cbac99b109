-- ===== src/Base/Lists.antt =====
-- Tables: a table is the list of its rows, in the order of the primary key.
use Prim.Native.Nat.{ℕ, zero, suc}
use Prim.Native.String.{String, compare}
use text.Mathlib.Text.{is_lt}
use mathlib.Core.Path.{◌≡◌, refl, ap, subst}
use mathlib.Core.Logic.{inl, inr}
use mathlib.Core.Bool.{Bool, true, false, ◌||◌, not}
use mathlib.Core.Option
use mathlib.Core.Option.{Option, none, some}
use mathlib.Core.List.{List, [], ◌∷◌}
use native.Mathlib.Omega.{arith}
use bangkusekolah_exam_node.Base.Tests.{if◌then◌else◌, Bool-cases}

-- Go's < on texts
abbrev pub text_lt : String → String → Bool
text_lt a b = is_lt (compare a b)

module _ {ℓ} {A : Type ℓ} where
  abbrev pub length : List A → ℕ
  length [] = 0
  length (x ∷ xs) = suc (length xs)

  abbrev pub take : ℕ → List A → List A
  take zero xs = []
  take (suc n) [] = []
  take (suc n) (x ∷ xs) = x ∷ take n xs

  -- The first row that passes the test.
  unfoldable pub find? : (A → Bool) → List A → Option A
  find? p [] = none
  find? p (x ∷ xs) = if p x then some x else find? p xs

  -- All rows that pass it.
  unfoldable pub select : (A → Bool) → List A → List A
  select p [] = []
  select p (x ∷ xs) = let rest = select p xs in if p x then x ∷ rest else rest

  unfoldable pub count_where : (A → Bool) → List A → ℕ
  count_where p [] = 0
  count_where p (x ∷ xs) = let rest = count_where p xs in if p x then suc rest else rest

  unfoldable pub any_where : (A → Bool) → List A → Bool
  any_where p [] = false
  any_where p (x ∷ xs) = p x || any_where p xs

  abbrev pub change_if : (A → Bool) → (A → A) → A → A
  change_if p f x = if p x then f x else x

  unfoldable pub update_where : (A → Bool) → (A → A) → List A → List A
  update_where p f [] = []
  update_where p f (x ∷ xs) = change_if p f x ∷ update_where p f xs

  -- A new row goes to its place by the key.
  unfoldable pub insert_row : (A → String) → A → List A → List A
  insert_row key r [] = r ∷ []
  insert_row key r (x ∷ xs) =
      let rest = insert_row key r xs in if text_lt (key r) (key x) then r ∷ x ∷ xs else x ∷ rest

  -- A stable sort by a strict order, as sort.SliceStable and ORDER BY make it; rows that the order
  -- does not tell apart stay as they were.
  unfoldable pub insert_by : (A → A → Bool) → A → List A → List A
  insert_by less x [] = x ∷ []
  insert_by less x (y ∷ ys) =
      let rest = insert_by less x ys in if less y x then y ∷ rest else x ∷ y ∷ ys

  unfoldable pub sort_by : (A → A → Bool) → List A → List A
  unfolding insert_by
  sort_by less [] = []
  sort_by less (x ∷ xs) = insert_by less x (sort_by less xs)

  abbrev pub All {κ} : (A → Type κ) → List A → Type κ
  All P [] = Unit
  All P (x ∷ xs) = P x × All P xs

-- Predicates over every row, through the table operations.
module _ {ℓ κ} {A : Type ℓ} (P : A → Type κ) where
  pub All-find? : (p : A → Bool) (xs : List A) {x : A} → All P xs → find? p xs ≡ some x → P x
  unfolding find?
  All-find? p [] h e = cc
  All-find? p (y ∷ ys) {x} h e = elim (Bool-cases (p y)) [
    | inl t ↦ let same : y ≡ x = ground arith in subst P same h.0
    | inr f ↦ All-find? p ys h.1 (rw f at e)
  ]

  pub All-select : (p : A → Bool) (xs : List A) → All P xs → All P (select p xs)
  unfolding select
  All-select p [] h = tt
  All-select p (x ∷ xs) h = ground (arith, All-select p xs h.1)

  pub All-insert_row :
      (key : A → String) (r : A) (xs : List A) → P r → All P xs → All P (insert_row key r xs)
  unfolding insert_row
  All-insert_row key r [] h hs = (h, tt)
  All-insert_row key r (x ∷ xs) h hs = ground (arith, All-insert_row key r xs h hs.1)

  pub All-insert_by :
      (less : A → A → Bool) (x : A) (xs : List A) → P x → All P xs → All P (insert_by less x xs)
  unfolding insert_by
  All-insert_by less x [] h hs = (h, tt)
  All-insert_by less x (y ∷ ys) h hs = ground (arith, All-insert_by less x ys h hs.1)

  pub All-sort_by : (less : A → A → Bool) (xs : List A) → All P xs → All P (sort_by less xs)
  unfolding sort_by
  All-sort_by less [] h = tt
  All-sort_by less (x ∷ xs) h = All-insert_by less x (sort_by less xs) h.0 (All-sort_by less xs h.1)

module _ {ℓ κ} {A : Type ℓ} (P Q : A → Type κ) where
  pub All-map : (xs : List A) → ((x : A) → P x → Q x) → All P xs → All Q xs
  All-map [] k h = tt
  All-map (x ∷ xs) k h = (k x h.0, All-map xs k h.1)

  pub All-update_where :
      (p : A → Bool) (f : A → A) (xs : List A)
      → ((x : A) → P x → p x ≡ true → Q (f x))
      → ((x : A) → P x → p x ≡ false → Q x)
      → All P xs
      → All Q (update_where p f xs)
  unfolding update_where
  All-update_where p f [] hit miss h = tt
  All-update_where p f (x ∷ xs) hit miss h = elim (Bool-cases (p x)) [
    | inl t ↦ rw t (hit x h.0 t, All-update_where p f xs hit miss h.1)
    | inr n ↦ rw n (miss x h.0 n, All-update_where p f xs hit miss h.1)
  ]

pub All-zip_map {ℓ κ} :
    {A : Type ℓ} (P Q R : A → Type κ) (xs : List A)
    → ((x : A) → P x → Q x → R x)
    → All P xs
    → All Q xs
    → All R xs
All-zip_map P Q R [] k h g = tt
All-zip_map P Q R (x ∷ xs) k h g = (k x h.0 g.0, All-zip_map P Q R xs k h.1 g.1)

module _ {ℓ} {A : Type ℓ} where
  pub find?-some : (p : A → Bool) (xs : List A) {x : A} → find? p xs ≡ some x → p x ≡ true
  unfolding find?
  find?-some p [] e = cc
  find?-some p (y ∷ ys) {x} e = ground (arith, find?-some p ys {x = x})

  pub find?-none : (p : A → Bool) (xs : List A) → find? p xs ≡ none → All (λ x. p x ≡ false) xs
  unfolding find?
  find?-none p [] e = tt
  find?-none p (y ∷ ys) e = ground (arith, find?-none p ys)

  pub find?-All-false : (p : A → Bool) (xs : List A) → All (λ x. p x ≡ false) xs → find? p xs ≡ none
  unfolding find?
  find?-All-false p [] h = refl
  find?-All-false p (y ∷ ys) h = rw h.0 (find?-All-false p ys h.1)

  -- An update that does not change what the lookup tests.
  pub find?-update_where :
      (p q : A → Bool) (f : A → A) (xs : List A)
      → ((x : A) → q (f x) ≡ q x)
      → find? q (update_where p f xs) ≡ Option.map (change_if p f) (find? q xs)
  unfolding find? update_where
  find?-update_where p q f [] h = refl
  find?-update_where p q f (x ∷ xs) h = ground (arith, h x, find?-update_where p q f xs h)

  pub find?-insert_row_miss :
      (key : A → String) (q : A → Bool) (r : A) (xs : List A)
      → q r ≡ false
      → find? q (insert_row key r xs) ≡ find? q xs
  unfolding find? insert_row
  find?-insert_row_miss key q r [] h = rw h
  find?-insert_row_miss key q r (x ∷ xs) h = ground (arith, find?-insert_row_miss key q r xs h)

  pub find?-insert_row_hit :
      (key : A → String) (q : A → Bool) (r : A) (xs : List A)
      → q r ≡ true
      → find? q xs ≡ none
      → find? q (insert_row key r xs) ≡ some r
  unfolding find? insert_row
  find?-insert_row_hit key q r [] h e = rw h
  find?-insert_row_hit key q r (x ∷ xs) h e = ground (arith, find?-insert_row_hit key q r xs h)

  pub length-update_where :
      (p : A → Bool) (f : A → A) (xs : List A) → length (update_where p f xs) ≡ length xs
  unfolding update_where
  length-update_where p f [] = refl
  length-update_where p f (x ∷ xs) = ap suc (length-update_where p f xs)

  pub any_where-insert_row :
      (key : A → String) (q : A → Bool) (r : A) (xs : List A)
      → any_where q (insert_row key r xs) ≡ (q r || any_where q xs)
  unfolding any_where insert_row
  any_where-insert_row key q r [] = refl
  any_where-insert_row key q r (x ∷ xs) = ground (arith, any_where-insert_row key q r xs)

  pub find?-any_where :
      (p q : A → Bool) (xs : List A) {x : A}
      → find? p xs ≡ some x
      → q x ≡ true
      → any_where q xs ≡ true
  unfolding find? any_where
  find?-any_where p q [] h e = cc
  find?-any_where p q (y ∷ ys) {x} h e = ground (arith, find?-any_where p q ys {x = x})

  pub count_where-insert_row :
      (key : A → String) (q : A → Bool) (r : A) (xs : List A)
      → count_where q (insert_row key r xs)
        ≡ (if q r then suc (count_where q xs) else count_where q xs)
  unfolding count_where insert_row
  count_where-insert_row key q r [] = refl
  count_where-insert_row key q r (x ∷ xs) = ground (arith, count_where-insert_row key q r xs)

  pub count_where-select-not :
      (q : A → Bool) (xs : List A) → count_where q (select (λ x. not (q x)) xs) ≡ 0
  unfolding count_where select
  count_where-select-not q [] = refl
  count_where-select-not q (x ∷ xs) = ground (arith, count_where-select-not q xs)
