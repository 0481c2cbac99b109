-- ===== src/Content/Publication.antt =====
-- The publication protocol of the content cache (app/service/content_service.go): what the
-- generations guarantee when operations on the same exam overlap.
use bangkusekolah_exam_node.Base.{
  ℕ, ◌≡◌, ◌≢◌, ◌⊎◌, refl, true, false, String, ◌==◌, Option, none, some, List, inl, inr, arith, eqb,
  at_key, put, delete, subst, sym, at_key-put, at_key-put_other, at_key-delete, at_key-delete_other,
  Option-cases, All,
}
use bangkusekolah_exam_node.Entity.{exam_content_not_ready, exam_not_loaded}
use bangkusekolah_exam_node.Exec.{Result, ok, err}
use bangkusekolah_exam_node.Content.{
  ContentCache, ContentService, begin_rebuild, cancel_rebuild, settle_cancelled, is_current,
  publish, get_exam_content,
}
use bangkusekolah_exam_node.Content.Overlap.{
  Step, IsForeign, Unserved, after_steps, Closed, after_steps-Closed, begun-Closed,
}

refused :
    (e : String) (s : ContentService)
    → at_key e s.unready ≢ none
    → get_exam_content e s ≡ err exam_content_not_ready
unfolding get_exam_content
refused e s there = elim (Option-cases (at_key e s.unready)) [
  | inl gone ↦ absurd (there gone)
  | inr (cause, found) ↦ rw (found, get_exam_content)
]

unserved :
    (e : String) (s : ContentService)
    → Unserved e s
    → (get_exam_content e s ≡ err exam_content_not_ready)
      ⊎ (get_exam_content e s ≡ err exam_not_loaded)
unfolding get_exam_content
unserved e s (inl there) = inl (refused e s there)
unserved e s (inr missing) = elim (Option-cases (at_key e s.unready)) [
  | inr (cause, found) ↦ inl (refused e s (λ gone. ground (arith, found, gone)))
  | inl unmarked ↦ inr (rw (unmarked, missing, get_exam_content))
]

-- After BeginRebuild, whatever steps of other operations on the cache come, in any order, the exam
-- is not served as long as the token that BeginRebuild gave is the current one: it is refused with
-- exam_content_not_ready, or with exam_not_loaded. The steps are those of operations with other
-- tokens, of rebuilds of other exams without a token, and of reloads with their end, which forgets
-- exams that they did not list.
pub begin_rebuild-closes :
    (e : String) (xs : List Step) (s : ContentService)
    → All (IsForeign e (begin_rebuild e s).0) xs
    → (after_steps xs (begin_rebuild e s).1).generation e ≡ (begin_rebuild e s).0
    → let answer = get_exam_content e (after_steps xs (begin_rebuild e s).1) in
      (answer ≡ err exam_content_not_ready) ⊎ (answer ≡ err exam_not_loaded)
unfolding Closed
begin_rebuild-closes e xs s foreign current = unserved e (after_steps xs (begin_rebuild e s).1) (
    (after_steps-Closed e (begin_rebuild e s).0 xs (begin_rebuild e s).1 foreign
        (begun-Closed e s)).1
      current)

abbrev opened : String → ContentCache → ContentService → ContentService
opened e c s = record s { cache = put e c s.cache; unready = delete e s.unready }

opened-serves :
    (e : String) (c : ContentCache) (s : ContentService) → get_exam_content e (opened e c s) ≡ ok c
unfolding get_exam_content
opened-serves e c s = rw (at_key-delete e s.unready, at_key-put e c s.cache, get_exam_content)

opened-elsewhere :
    (e other : String) (c : ContentCache) (s : ContentService)
    → (e == other) ≡ false
    → get_exam_content other (opened e c s) ≡ get_exam_content other s
unfolding get_exam_content
opened-elsewhere e other c s apart =
    ground
      (arith, at_key-delete_other e other s.unready apart, at_key-put_other e other c s.cache apart)

-- Publishing with the current token, or without one, makes exactly the published content served
-- for its exam, and what is served for any other exam stays what it was.
pub publish-serves :
    (e other : String) (token : Option ℕ) (c : ContentCache) (s : ContentService)
    → c.content.exam.id ≡ e
    → is_current e token s ≡ true
    → (e == other) ≡ false
    → let r = publish e token c s in
      (get_exam_content e r.1 ≡ ok c) × (get_exam_content other r.1 ≡ get_exam_content other s)
unfolding publish
publish-serves e other token c s named current apart = rw current (
    subst
      (λ x.
        (get_exam_content e (opened x c s) ≡ ok c)
        × (get_exam_content other (opened x c s) ≡ get_exam_content other s))
      (sym named) (opened-serves e c s, opened-elsewhere e other c s apart))

forgotten :
    (e : String) (s : ContentService)
    → at_key e s.cache ≡ none
    → get_exam_content e (settle_cancelled e s none) ≡ err exam_not_loaded
unfolding get_exam_content
forgotten e s missing = ground (arith, at_key-delete e s.unready)

-- What is answered for an exam once its rebuild is cancelled.
abbrev pub refusal : Option ContentCache → Result ContentCache
refusal none = err exam_not_loaded
refusal (some cached) = err exam_content_not_ready

-- Cancelling with the current token makes an exam that is not cached unknown (exam_not_loaded), so
-- that a failed new bundle leaves nothing behind, and keeps one that is cached refused
-- (exam_content_not_ready).
pub cancel_rebuild-settles :
    (e : String) (token : ℕ) (s : ContentService)
    → eqb (s.generation e) token ≡ true
    → get_exam_content e (cancel_rebuild e token s).1 ≡ refusal (at_key e s.cache)
unfolding cancel_rebuild
cancel_rebuild-settles e token s current = rw current (settled (at_key e s.cache) refl)
  where
    settled :
        (o : Option ContentCache)
        → at_key e s.cache ≡ o
        → get_exam_content e (settle_cancelled e s o) ≡ refusal o
    settled none missing = forgotten e s missing
    settled (some c) found =
        refused e (settle_cancelled e s (some c))
          (λ gone. ground (arith, at_key-put e exam_content_not_ready s.unready))
