-- ===== src/Readiness/Sets.antt =====
-- The comparison of sets of ids (app/adapter/delivery/router/readiness.go).
use bangkusekolah_exam_node.Base.{
  suc, ◌≤◌, ◌≡◌, ◌↔◌, refl, Bool, true, false, ◌&&◌, not, String, ◌==◌, eq_iff, eq_refl, List, [],
  ◌∷◌, length, select, Bool-cases, inl, inr, arith,
}
use bangkusekolah_exam_node.Exec.{ok}
use bangkusekolah_exam_node.Repository.Harvest.{is_in}
use bangkusekolah_exam_node.Content.{ContentService, unready_exams, cache_ready_exams}
use bangkusekolah_exam_node.Readiness.{set_of, all_in, same_set, ready, compare_sets, readyz}

abbrev pub Included : List String → List String → Type 0
Included xs ys = (z : String) → is_in z xs ≡ true → is_in z ys ≡ true

no_repeats : List String → Bool
no_repeats [] = true
no_repeats (x ∷ xs) = not (is_in x xs) && no_repeats xs

others : String → List String → List String
others x = select (λ r. not (r == x))

is_in-others :
    (x z : String) (ys : List String)
    → (z == x) ≡ false
    → is_in z ys ≡ true
    → is_in z (others x ys) ≡ true
unfolding is_in select others
is_in-others x z [] other present = present
is_in-others x z (y ∷ ys) other present =
    ground (arith, eq_iff y z, eq_iff z y, is_in-others x z ys other)

length-others : (x : String) (ys : List String) → length (others x ys) ≤ length ys
unfolding select others
length-others x [] = ground arith
length-others x (y ∷ ys) = ground (arith, length-others x ys)

length-others_present :
    (x : String) (ys : List String) → is_in x ys ≡ true → suc (length (others x ys)) ≤ length ys
unfolding is_in select others
length-others_present x [] present = ground arith
length-others_present x (y ∷ ys) present =
    ground
      (arith, eq_iff x y, eq_iff y x, eq_refl x, length-others x ys, length-others_present x ys)

-- Distinct ids that are all in a list are at most as many as the list.
length-Included :
    (xs ys : List String) → no_repeats xs ≡ true → Included xs ys → length xs ≤ length ys
unfolding is_in no_repeats
length-Included [] ys distinct inside = ground arith
length-Included (x ∷ xs) ys distinct inside =
    let fewer = length-Included xs (others x ys) (ground arith) rest_inside in
    let shorter = length-others_present x ys (inside x (ground (arith, eq_refl x))) in omega arith
  where
    rest_inside : Included xs (others x ys)
    rest_inside z present = elim (Bool-cases (z == x)) [
      | inl same ↦ absurd (ground (arith, eq_iff z x))
      | inr other ↦ is_in-others x z ys other (inside z (ground (arith, present)))
    ]

is_in-set_of : (z : String) (xs : List String) → is_in z (set_of xs) ≡ is_in z xs
unfolding is_in set_of
is_in-set_of z [] = refl
is_in-set_of z (x ∷ xs) = elim (Bool-cases (is_in x (set_of xs))) [
  | inl again ↦ ground (arith, again, eq_iff x z, is_in-set_of x xs, is_in-set_of z xs)
  | inr first ↦ ground (arith, first, is_in-set_of z xs)
]

set_of-no_repeats : (xs : List String) → no_repeats (set_of xs) ≡ true
unfolding no_repeats set_of
set_of-no_repeats [] = refl
set_of-no_repeats (x ∷ xs) = ground (arith, set_of-no_repeats xs)

all_in-Included : (xs ys : List String) → all_in xs ys ≡ true → Included xs ys
unfolding is_in all_in
all_in-Included [] ys all z present = absurd (ground arith)
all_in-Included (x ∷ xs) ys all z present = elim (Bool-cases (x == z)) [
  | inl same ↦ ground (arith, eq_iff x z)
  | inr other ↦ all_in-Included xs ys (ground arith) z (ground (arith, other))
]

Included-all_in : (xs ys : List String) → Included xs ys → all_in xs ys ≡ true
unfolding is_in all_in
Included-all_in [] ys inside = refl
Included-all_in (x ∷ xs) ys inside =
    let here = inside x (ground (arith, eq_refl x)) in
    let rest = Included-all_in xs ys (λ z present. inside z (ground (arith, present))) in
    ground (arith, here, rest)

-- A list of distinct ids that has as many ids as another, and only ids of that, has them all.
Included-back :
    (xs ys : List String)
    → no_repeats xs ≡ true
    → length ys ≤ length xs
    → Included xs ys
    → Included ys xs
unfolding is_in no_repeats
Included-back xs ys distinct enough inside z present = elim (Bool-cases (is_in z xs)) [
  | inl there ↦ there
  | inr missing ↦
      let more = length-Included (z ∷ xs) ys (ground (arith, missing)) with_z in
      absurd (omega arith)
]
  where
    with_z : Included (z ∷ xs) ys
    with_z u held = elim (Bool-cases (z == u)) [
      | inl same ↦ ground (arith, eq_iff z u, present)
      | inr other ↦ inside u (ground (arith, other, held))
    ]

-- The same ids, whatever their order and however often each stands.
abbrev pub SameIds : List String → List String → Type 0
SameIds xs ys = (id : String) → is_in id xs ≡ is_in id ys

same_set-SameIds : (a c : List String) → same_set a (set_of c) ≡ true → SameIds a c
same_set-SameIds a c same id =
    let inside = all_in-Included (set_of c) (set_of a) (ground arith) in
    let back = Included-back (set_of c) (set_of a) (set_of-no_repeats c) (ground arith) inside in
    let there = inside id in
    let here = back id in
    let left = is_in-set_of id a in
    let right = is_in-set_of id c in
    elim (Bool-cases (is_in id (set_of c))) [
      | inl t ↦ ground (arith, t, there t, left, right)
      | inr f ↦ elim (Bool-cases (is_in id (set_of a))) [
        | inl t ↦ ground (arith, f, here t)
        | inr g ↦ ground (arith, f, g, left, right)
      ]
    ]

SameIds-same_set : (a c : List String) → SameIds a c → same_set a (set_of c) ≡ true
SameIds-same_set a c same =
    let all = Included-all_in (set_of c) (set_of a) to_a in
    let fewer = length-Included (set_of c) (set_of a) (set_of-no_repeats c) to_a in
    let more = length-Included (set_of a) (set_of c) (set_of-no_repeats a) to_c in
    ground (arith, all, fewer, more)
  where
    to_a : Included (set_of c) (set_of a)
    to_a z present = ground (arith, present, is_in-set_of z a, is_in-set_of z c, same z)

    to_c : Included (set_of a) (set_of c)
    to_c z present = ground (arith, present, is_in-set_of z a, is_in-set_of z c, same z)

-- What /readyz is to mean: some exam is loaded, none waits for a rebuild, and the cache serves
-- exactly the exams that are loaded.
pub record Serves (loaded : List String) (s : ContentService) : Type 0 where
  pub some_exam : 1 ≤ length loaded
  pub none_unready : length (unready_exams s) ≡ 0
  pub same_exams : SameIds loaded (cache_ready_exams s)

-- With a database that answers, the node says that it is ready exactly if some exam is loaded, no
-- exam waits for a rebuild, and the exams in the cache are those that are loaded, whatever the order
-- of both and however often an id stands in them.
pub readyz-Serves :
    (loaded : List String) (s : ContentService)
    → readyz true (ok loaded) s ≡ ready ↔ Serves loaded s
unfolding readyz
readyz-Serves [] s = (λ r. absurd (ground arith), λ h. absurd (no_exam h.some_exam))
  where
    no_exam : 1 ≤ length {A = String} [] → ⊥
    no_exam h = ground arith
readyz-Serves (id ∷ ids) s = (λ r. said r, λ h. answered h)
  where
    said : compare_sets (id ∷ ids) s ≡ ready → Serves (id ∷ ids) s
    said r = record {
      some_exam = ground arith;
      none_unready = ground arith;
      same_exams = same_set-SameIds (id ∷ ids) (cache_ready_exams s) (ground arith);
    }

    answered : Serves (id ∷ ids) s → compare_sets (id ∷ ids) s ≡ ready
    answered h =
        let same = SameIds-same_set (id ∷ ids) (cache_ready_exams s) h.same_exams in
        let none = h.none_unready in ground (arith, same, none)
