-- ===== src/Readiness.antt =====
-- When the node says that it is ready (app/adapter/delivery/router/readiness.go). A Go map of ids is
-- the list of its keys, each once.
pub mod Sets
use bangkusekolah_exam_node.Base.{
  ℕ, Bool, true, false, ◌&&◌, ◌||◌, not, String, List, [], ◌∷◌, if◌then◌else◌, eqb, length,
}
use bangkusekolah_exam_node.Exec.{Result, ok, err}
use bangkusekolah_exam_node.Repository.Harvest.{is_in}
use bangkusekolah_exam_node.Content.{ContentService, unready_exams, cache_ready_exams}

-- The keys of a map that has an entry for each id.
unfoldable pub set_of : List String → List String
unfolding is_in
set_of [] = []
set_of (id ∷ ids) = let rest = set_of ids in if is_in id rest then rest else id ∷ rest

unfoldable pub all_in : List String → List String → Bool
unfolding is_in
all_in [] ids = true
all_in (id ∷ rest) ids = is_in id ids && all_in rest ids

-- sameSet
abbrev pub same_set : List String → List String → Bool
same_set a b = eqb (length (set_of a)) (length b) && all_in b (set_of a)

-- What /readyz answers: 503 with a reason, or 200.
pub data Readyz : Type 0 where
  database_unavailable : Readyz
  cannot_list_exams : Readyz
  no_exams_loaded : Readyz
  awaiting_rebuild : Readyz
  ready : Readyz

abbrev pub compare_sets : List String → ContentService → Readyz
compare_sets ids s =
    if not (eqb (length (unready_exams s)) 0) || not (same_set ids (set_of (cache_ready_exams s)))
    then awaiting_rebuild
    else ready

-- The handler of /readyz: whether the ping succeeds, and the ids of the loaded exams.
unfoldable pub readyz : Bool → Result (List String) → ContentService → Readyz
unfolding set_of all_in
readyz false loaded s = database_unavailable
readyz true (err e) s = cannot_list_exams
readyz true (ok []) s = no_exams_loaded
readyz true (ok (id ∷ ids)) s = compare_sets (id ∷ ids) s
