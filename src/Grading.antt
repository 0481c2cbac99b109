-- ===== src/Grading.antt =====
-- Objective grading (app/domain/grading/grading.go) of decoded JSON.
pub mod Bounds
use Prim.Native.String.{◌++◌ as ◌+++◌}
use bangkusekolah_exam_node.Base.{
  Bool, true, false, ◌&&◌, not, String, ◌==◌, Option, none, some, List, [], ◌∷◌, if◌then◌else◌,
  trim_space, to_lower, length, eqb, text_lt,
}
use bangkusekolah_exam_node.Json.{
  Value, Values, Members, null, boolean, number, str, array, object, no_more, next, end, member,
  lookup, is_empty_object,
}
use bangkusekolah_exam_node.Entity.{
  Score, QuestionType, single_choice, multiple_choice, true_false, short_answer, essay, matching,
  ordering, other, Item,
}

-- fmt prints a map by its keys in order.
insert_pair : String × String → List (String × String) → List (String × String)
insert_pair (k, v) [] = (k, v) ∷ []
insert_pair (k, v) ((j, u) ∷ rest) =
    let after = insert_pair (k, v) rest in
    if text_lt k j then (k, v) ∷ (j, u) ∷ rest else (j, u) ∷ after

print_pairs : List (String × String) → String
print_pairs [] = ""
print_pairs ((k, v) ∷ []) = k +++ (":" +++ v)
print_pairs ((k, v) ∷ p ∷ rest) = k +++ (":" +++ (v +++ (" " +++ print_pairs (p ∷ rest))))

print_texts : List String → String
print_texts [] = ""
print_texts (s ∷ []) = s
print_texts (s ∷ t ∷ rest) = s +++ (" " +++ print_texts (t ∷ rest))

-- fmt.Sprint of a decoded value
mutual
  unfolding insert_pair print_pairs print_texts

  pub sprint : Value → String
  sprint null = "<nil>"
  sprint (boolean b) = if b then "true" else "false"
  sprint (number s) = s
  sprint (str s) = s
  sprint (array vs) = "[" +++ (print_texts (sprint_values vs) +++ "]")
  sprint (object ms) = "map[" +++ (print_pairs (sprint_members ms) +++ "]")

  pub sprint_values : Values → List String
  sprint_values no_more = []
  sprint_values (next v vs) = sprint v ∷ sprint_values vs

  pub sprint_members : Members → List (String × String)
  sprint_members end = []
  sprint_members (member k v ms) = insert_pair (k, sprint v) (sprint_members ms)

-- strings.ToLower(strings.TrimSpace(s))
unfoldable pub fold_text : String → String
unfolding to_lower trim_space
fold_text s = to_lower (trim_space s)

unfoldable pub normalized_scalar : Value → String
unfolding fold_text sprint
normalized_scalar v = fold_text (sprint v)

unfoldable pub normalized_values : Values → List String
unfolding normalized_scalar
normalized_values no_more = []
normalized_values (next v vs) = normalized_scalar v ∷ normalized_values vs

-- A decoded value is never a []string.
unfoldable pub string_slice : Value → List String
unfolding normalized_values
string_slice (array vs) = normalized_values vs
string_slice null = []
string_slice v = normalized_scalar v ∷ []

insert_text : String → List String → List String
insert_text s [] = s ∷ []
insert_text s (t ∷ ts) = let rest = insert_text s ts in if text_lt t s then t ∷ rest else s ∷ t ∷ ts

-- sort.Strings
unfoldable pub sort_strings : List String → List String
unfolding insert_text
sort_strings [] = []
sort_strings (s ∷ ss) = insert_text s (sort_strings ss)

-- reflect.DeepEqual of two slices of texts
unfoldable pub same_texts : List String → List String → Bool
same_texts [] [] = true
same_texts (s ∷ ss) (t ∷ ts) = let rest = same_texts ss ts in s == t && rest
same_texts _ _ = false

unfoldable pub same_folded : List String → List String → Bool
unfolding fold_text
same_folded [] [] = true
same_folded (s ∷ ss) (t ∷ ts) = let rest = same_folded ss ts in fold_text s == fold_text t && rest
same_folded _ _ = false

abbrev pub is_ordering : QuestionType → Bool
is_ordering ordering = true
is_ordering _ = false

unfoldable pub same_ordered_or_set : QuestionType → List String → List String → Bool
unfolding sort_strings same_texts same_folded
same_ordered_or_set q expected actual =
    if not (eqb (length expected) (length actual))
    then false
    else (if is_ordering q
        then same_folded expected actual
        else same_texts (sort_strings expected) (sort_strings actual))

-- m[k] = v on a Go map
set_key : String → String → List (String × String) → List (String × String)
set_key k v [] = (k, v) ∷ []
set_key k v ((j, u) ∷ rest) =
    let after = set_key k v rest in if j == k then (k, v) ∷ rest else (j, u) ∷ after

normalized_members : Members → List (String × String) → List (String × String)
unfolding set_key normalized_scalar fold_text
normalized_members end result = result
normalized_members (member k v ms) result =
    normalized_members ms (set_key (fold_text k) (normalized_scalar v) result)

unfoldable pub normalized_map : Value → List (String × String)
unfolding normalized_members
normalized_map (object ms) = normalized_members ms []
normalized_map _ = []

abbrev pub get_key : String → List (String × String) → Option String
get_key k [] = none
get_key k ((j, v) ∷ rest) = if j == k then some v else get_key k rest

abbrev pub has_pair : List (String × String) → String × String → Bool
has_pair m (k, v) = elim (get_key k m) [ none ↦ false | some u ↦ u == v ]

abbrev pub all_pairs : (String × String → Bool) → List (String × String) → Bool
all_pairs p [] = true
all_pairs p (x ∷ xs) = p x && all_pairs p xs

-- reflect.DeepEqual of two maps of texts
unfoldable pub same_map : List (String × String) → List (String × String) → Bool
same_map m n = eqb (length m) (length n) && all_pairs (has_pair n) m

abbrev pub full_if : Item → Bool → Score × Bool
full_if item right = (if right then item.points else 0, true)

abbrev pub or_else : List String → List String → List String
or_else [] other_key = other_key
or_else (s ∷ ss) other_key = s ∷ ss

accepts : String → List String → Bool
unfolding fold_text
accepts actual [] = false
accepts actual (s ∷ ss) =
    let rest = accepts actual ss in if actual == fold_text s then true else rest

-- The key and the given answer, by the question's type.
unfoldable pub grade_given : QuestionType → Item → Members → Score × Bool
unfolding normalized_scalar string_slice same_ordered_or_set normalized_map same_map accepts lookup
grade_given single_choice item given = full_if item (
    normalized_scalar (lookup "answer" item.answer_key_snapshot_json)
    == normalized_scalar (lookup "answer" given))
grade_given true_false item given = full_if item (
    normalized_scalar (lookup "answer" item.answer_key_snapshot_json)
    == normalized_scalar (lookup "answer" given))
grade_given short_answer item given =
    let key = item.answer_key_snapshot_json in
    let actual = normalized_scalar (lookup "answer" given) in
    full_if item (
      if actual == fold_text (normalized_scalar (lookup "answer" key))
      then true
      else accepts actual (string_slice (lookup "accepted_answers" key)))
grade_given multiple_choice item given =
    let key = item.answer_key_snapshot_json in
    full_if item (
      same_ordered_or_set multiple_choice
        (or_else (string_slice (lookup "answers" key)) (string_slice (lookup "order" key)))
        (or_else (string_slice (lookup "answers" given)) (string_slice (lookup "order" given))))
grade_given ordering item given =
    let key = item.answer_key_snapshot_json in
    full_if item (
      same_ordered_or_set ordering
        (or_else (string_slice (lookup "answers" key)) (string_slice (lookup "order" key)))
        (or_else (string_slice (lookup "answers" given)) (string_slice (lookup "order" given))))
grade_given matching item given = full_if item (
    same_map (normalized_map (lookup "pairs" item.answer_key_snapshot_json))
      (normalized_map (lookup "pairs" given)))
grade_given essay item given = (0, false)
grade_given (other s) item given = (0, false)

abbrev pub is_objective : QuestionType → Bool
is_objective essay = false
is_objective (other s) = false
is_objective _ = true

-- GradeObjectiveAnswer; of the answer it reads the decoded JSON only, and `none` is a nil answer.
unfoldable pub grade_objective_answer : Item → Option Members → Score × Bool
unfolding grade_given
grade_objective_answer item none = (0, is_objective item.question_type)
grade_objective_answer item (some given) =
    if is_empty_object given
    then (0, is_objective item.question_type)
    else grade_given item.question_type item given
