-- ===== src/Content/Overlap.antt =====
-- Operations on the content cache that overlap (app/service/content_service.go): what they leave of
-- an exam that one of them has taken out of service.
use bangkusekolah_exam_node.Base.{
  ℕ, ◌≤◌, ◌≡◌, ◌≢◌, ◌⊎◌, ◌∙◌, refl, true, false, if◌then◌else◌, select, at_key-delete, String, ◌==◌,
  eq_iff, eq_refl, Option, none, some, List, [], ◌∷◌, inl, inr, arith, eqb, at_key, put, delete,
  Dict, subst, sym, ap, at_key-put, at_key-put_other, at_key-delete_other, Bool-cases, All,
}
use bangkusekolah_exam_node.Entity.{Err, exam_content_not_ready}
use bangkusekolah_exam_node.Content.{
  ContentCache, ContentService, begin_rebuild, mark_unready, cancel_rebuild, settle_cancelled,
  is_current, publish, drop_from_cache,
}
use bangkusekolah_exam_node.Content.Rebuild.{is_listed, keep_keys, prune}

-- The steps of the operations that may overlap, one for each time that one of them takes the lock:
-- BeginRebuild, CancelRebuild, the publication of RebuildExam with a token or without, markUnready,
-- DropFromCache, and the end of ReloadAllCaches, with the ids of the exams it listed.
pub data Step : Type 0 where
  begins : String → Step
  cancels : String → ℕ → Step
  publishes : String → Option ℕ → ContentCache → Step
  marks : String → Err → Step
  drops : String → Step
  prunes : List String → Step

unfoldable pub after_step : Step → ContentService → ContentService
after_step (begins e) s = (begin_rebuild e s).1
after_step (cancels e token) s = (cancel_rebuild e token s).1
after_step (publishes e token c) s = (publish e token c s).1
after_step (marks e cause) s = mark_unready e cause s
after_step (drops e) s = drop_from_cache e s
after_step (prunes ids) s = prune ids s

unfoldable pub after_steps : List Step → ContentService → ContentService
unfolding after_step
after_steps [] s = s
after_steps (x ∷ xs) s = after_steps xs (after_step x s)

-- The token of an operation on another exam, or another token of this one: a rebuild without a token
-- is one of another exam.
abbrev pub IsOtherToken : String → ℕ → String → Option ℕ → Type 0
IsOtherToken e token e' none = e' ≢ e
IsOtherToken e token e' (some token') = (e' ≡ e) → token' ≢ token

-- A step of another operation: it does not hold this token of this exam, and what it publishes is
-- the content of the exam that it names, as RebuildExam does.
abbrev pub IsForeign : String → ℕ → Step → Type 0
IsForeign e token (begins e') = Unit
IsForeign e token (cancels e' token') = (e' ≡ e) → token' ≢ token
IsForeign e token (publishes e' token' c) =
    (c.content.exam.id ≡ e') × IsOtherToken e token e' token'
IsForeign e token (marks e' cause) = Unit
IsForeign e token (drops e') = Unit
IsForeign e token (prunes ids) = Unit

-- An exam that is not served: it is marked, or it is not in the cache.
abbrev pub Unserved : String → ContentService → Type 0
Unserved e s = (at_key e s.unready ≢ none) ⊎ (at_key e s.cache ≡ none)

-- The exam is not served while the token is the current one.
unfoldable pub Closed : String → ℕ → ContentService → Type 0
Closed e token s = (token ≤ s.generation e) × (s.generation e ≡ token → Unserved e s)

put-kept : (k l : String) (v : Err) (m : Dict Err) → at_key l m ≢ none → at_key l (put k v m) ≢ none
put-kept k l v m there gone = elim (Bool-cases (k == l)) [
  | inl same ↦
      let named : k ≡ l = (eq_iff k l).0 same in
      ground (arith, subst (λ x. at_key x (put k v m) ≡ some v) named (at_key-put k v m))
  | inr other ↦ there (ground (arith, at_key-put_other k l v m other))
]

-- Marking an exam leaves what is not served so.
put-Unserved :
    (k e : String) (v : Err) (s s' : ContentService)
    → s'.unready ≡ put k v s.unready
    → s'.cache ≡ s.cache
    → Unserved e s
    → Unserved e s'
put-Unserved k e v s s' marked same (inl there) =
    inl (subst (λ m. at_key e m ≢ none) (sym marked) (put-kept k e v s.unready there))
put-Unserved k e v s s' marked same (inr missing) =
    inr (subst (λ m. at_key e m ≡ none) (sym same) missing)

-- So does a step that changes the entries of another exam only.
elsewhere-Unserved :
    (e : String) (s s' : ContentService)
    → at_key e s'.unready ≡ at_key e s.unready
    → at_key e s'.cache ≡ at_key e s.cache
    → Unserved e s
    → Unserved e s'
elsewhere-Unserved e s s' same_entry same_content (inl there) =
    inl (subst (λ o. o ≢ none) (sym same_entry) there)
elsewhere-Unserved e s s' same_entry same_content (inr missing) = inr (same_content ∙ missing)

begin_rebuild-Closed :
    (e e' : String) (token : ℕ) (s : ContentService)
    → Closed e token s
    → Closed e token (begin_rebuild e' s).1
unfolding Closed begin_rebuild
begin_rebuild-Closed e e' token s closed = elim (Bool-cases (e == e')) [
  | inl same ↦ (ground (arith, closed.0), λ g. marked (closed.1 (ground (arith, closed.0))))
  | inr other ↦ (ground (arith, closed.0), λ g. marked (closed.1 (ground arith)))
]
  where
    marked : Unserved e s → Unserved e (begin_rebuild e' s).1
    marked = put-Unserved e' e exam_content_not_ready s (begin_rebuild e' s).1 refl refl

-- The exam of an operation that is still current is not this one at this token.
foreign-differs :
    (e e' : String) (token : ℕ) (token' : Option ℕ) (s : ContentService)
    → IsOtherToken e token e' token'
    → is_current e' token' s ≡ true
    → s.generation e ≡ token
    → (e' == e) ≡ false
foreign-differs e e' token none s foreign current g = elim (Bool-cases (e' == e)) [
  | inl same ↦ absurd (foreign ((eq_iff e' e).0 same))
  | inr other ↦ other
]
foreign-differs e e' token (some token') s foreign current g = elim (Bool-cases (e' == e)) [
  | inl same ↦
      let named : e' ≡ e = (eq_iff e' e).0 same in
      let held : s.generation e' ≡ token' = ground (arith) in
      absurd (foreign named (ground (arith, ap s.generation named)))
  | inr other ↦ other
]

cancel_rebuild-Closed :
    (e e' : String) (token token' : ℕ) (s : ContentService)
    → (e' ≡ e → token' ≢ token)
    → Closed e token s
    → Closed e token (cancel_rebuild e' token' s).1
unfolding Closed cancel_rebuild
cancel_rebuild-Closed e e' token token' s foreign closed =
    elim (Bool-cases (eqb (s.generation e') token')) [
      | inr superseded ↦ rw superseded closed
      | inl current ↦ rw current (settled (at_key e' s.cache) current)
    ]
  where
    settled :
        (o : Option ContentCache)
        → eqb (s.generation e') token' ≡ true
        → Closed e token (settle_cancelled e' s o)
    settled none current = (
      closed.0,
      λ g.
          elsewhere-Unserved e s (settle_cancelled e' s none)
            (at_key-delete_other e' e s.unready
              (foreign-differs e e' token (some token') s foreign current g))
            refl (closed.1 g),
    )
    settled (some c) current = (
      closed.0,
      λ g.
          put-Unserved e' e exam_content_not_ready s (settle_cancelled e' s (some c)) refl refl
            (closed.1 g),
    )

publish-Closed :
    (e e' : String) (token : ℕ) (token' : Option ℕ) (c : ContentCache) (s : ContentService)
    → c.content.exam.id ≡ e'
    → IsOtherToken e token e' token'
    → Closed e token s
    → Closed e token (publish e' token' c s).1
unfolding Closed publish
publish-Closed e e' token token' c s named foreign closed =
    elim (Bool-cases (is_current e' token' s)) [
      | inr superseded ↦ rw superseded closed
      | inl current ↦ rw current (
        closed.0,
        λ g. apart (foreign-differs e e' token token' s foreign current g) (closed.1 g),
      )
    ]
  where
    apart :
        (e' == e) ≡ false
        → Unserved e s
        → Unserved e (record s {
          cache = put c.content.exam.id c s.cache;
          unready = delete c.content.exam.id s.unready;
        })
    apart other =
        elsewhere-Unserved e s
          (record s {
            cache = put c.content.exam.id c s.cache;
            unready = delete c.content.exam.id s.unready;
          })
          (at_key-delete_other c.content.exam.id e s.unready (rw named other))
          (at_key-put_other c.content.exam.id e c s.cache (rw named other))

-- A key that is kept has its entry, and one that is not has none.
at_key-keep_keys :
    {V : Type 0} (e : String) (ids : List String) (m : Dict V)
    → at_key e (keep_keys ids m) ≡ (if is_listed ids e then at_key e m else none)
unfolding keep_keys select at_key
at_key-keep_keys e ids [] = ground arith
at_key-keep_keys e ids ((k, v) ∷ m) =
    ground (arith, eq_iff k e, ap (is_listed ids), at_key-keep_keys e ids m)

prune-Unserved :
    (e : String) (ids : List String) (s : ContentService) → Unserved e s → Unserved e (prune ids s)
prune-Unserved e ids s unserved = elim (Bool-cases (is_listed ids e)) [
  | inl listed ↦
      elsewhere-Unserved e s (prune ids s)
        (ground (arith, listed, at_key-keep_keys e ids s.unready))
        (ground (arith, listed, at_key-keep_keys e ids s.cache)) unserved
  | inr missing ↦ inr (ground (arith, missing, at_key-keep_keys e ids s.cache))
]

drop-Unserved :
    (e e' : String) (s : ContentService) → Unserved e s → Unserved e (drop_from_cache e' s)
unfolding drop_from_cache
drop-Unserved e e' s (inl there) = inl there
drop-Unserved e e' s (inr missing) = inr (deleted (Bool-cases (e' == e)))
  where
    deleted : ((e' == e) ≡ true) ⊎ ((e' == e) ≡ false) → at_key e (delete e' s.cache) ≡ none
    deleted (inl same) =
        subst (λ k. at_key k (delete e' s.cache) ≡ none) ((eq_iff e' e).0 same)
          (at_key-delete e' s.cache)
    deleted (inr other) = at_key-delete_other e' e s.cache other ∙ missing

after_step-Closed :
    (e : String) (token : ℕ) (x : Step) (s : ContentService)
    → IsForeign e token x
    → Closed e token s
    → Closed e token (after_step x s)
unfolding after_step Closed mark_unready drop_from_cache
after_step-Closed e token (begins e') s foreign closed = begin_rebuild-Closed e e' token s closed
after_step-Closed e token (cancels e' token') s foreign closed =
    cancel_rebuild-Closed e e' token token' s foreign closed
after_step-Closed e token (publishes e' token' c) s foreign closed =
    publish-Closed e e' token token' c s foreign.0 foreign.1 closed
after_step-Closed e token (marks e' cause) s foreign closed =
    (closed.0, λ g. put-Unserved e' e cause s (mark_unready e' cause s) refl refl (closed.1 g))
after_step-Closed e token (drops e') s foreign closed =
    (closed.0, λ g. drop-Unserved e e' s (closed.1 g))
after_step-Closed e token (prunes ids) s foreign closed =
    (closed.0, λ g. prune-Unserved e ids s (closed.1 g))

pub after_steps-Closed :
    (e : String) (token : ℕ) (xs : List Step) (s : ContentService)
    → All (IsForeign e token) xs
    → Closed e token s
    → Closed e token (after_steps xs s)
unfolding after_steps
after_steps-Closed e token [] s foreign closed = closed
after_steps-Closed e token (x ∷ xs) s foreign closed =
    after_steps-Closed e token xs (after_step x s) foreign.1
      (after_step-Closed e token x s foreign.0 closed)

pub begun-Closed :
    (e : String) (s : ContentService) → Closed e (begin_rebuild e s).0 (begin_rebuild e s).1
unfolding Closed begin_rebuild
begun-Closed e s = (
  ground (arith, eq_refl e),
  λ _. inl (λ gone. ground (arith, at_key-put e exam_content_not_ready s.unready)),
)
