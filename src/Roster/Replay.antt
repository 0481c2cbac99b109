-- ===== src/Roster/Replay.antt =====
-- The replay of a deployment's events ends (replayDeployment of app/service/roster_worker.go).
use bangkusekolah_exam_node.Base.{
  ℕ, zero, suc, ◌+◌, ◌≤◌, ◌<◌, ◌≡◌, refl, Bool, true, false, ◌||◌, String, Option, none, some, List,
  [], ◌∷◌, eqb, ltb, if◌then◌else◌, length, All, All-sort_by, arith,
}
use bangkusekolah_exam_node.Entity.{Err}
use bangkusekolah_exam_node.Store.{Store}
use bangkusekolah_exam_node.Exec.{M, World, Result, ok, err, pure, try, continue}
use bangkusekolah_exam_node.Exec.Hoare.{
  Hoare, Outcome, Hoare-pure, Hoare-if, Hoare-after, Hoare-weaken,
}
use bangkusekolah_exam_node.Repository.Harvest.{is_in}
use bangkusekolah_exam_node.Roster.{RosterEvent, RosterOutcome, Hashes, apply}
use bangkusekolah_exam_node.Roster.Worker.{
  RosterClient, call, Progress, Page, higher, should_acknowledge, event_before, sort_events, stop,
  replay_acknowledged, replay_applied, replay_events, page_over, next_page, replay_page,
  replay_deployment, max_roster_events_per_poll,
}

module _ (hashes : Hashes) (client : RosterClient) (bound : ℕ) where
  -- A page goes on from where it started, and not past the bound.
  abbrev Reaches : ℕ → Page → Store → Type 0
  Reaches last page d = (last ≤ page.last_revision) × (page.last_revision ≤ bound)

  abbrev Any : Store → Type 0
  Any d = Unit

  stop-Reaches :
      (processed : List String) (last : ℕ) (x : Err)
      → last ≤ bound
      → Hoare Any (stop processed last x) (Reaches last) Any
  stop-Reaches processed last x low = Hoare-pure _ (λ d u. (omega arith, low))

  applied-Reaches :
      (next : M Page) (processed : List String) (last : ℕ) (e : RosterEvent)
      (r : Result RosterOutcome)
      → last ≤ bound
      → Hoare Any next (Reaches last) Any
      → Hoare Any (replay_applied hashes client next processed last e r) (Reaches last) Any
  applied-Reaches next processed last e (err x) low h = stop-Reaches processed last x low
  applied-Reaches next processed last e (ok o) low h =
      Hoare-if (should_acknowledge e) _ _
        (λ t. Hoare-after (call (client.acknowledge o)) acknowledged) (λ f. h)
    where
      acknowledged :
          (r : Result (Unit {0}))
          → Hoare Any (replay_acknowledged hashes client next processed last r) (Reaches last) Any
      acknowledged (err x) = stop-Reaches processed last x low
      acknowledged (ok u) = h

  replay_events-Reaches :
      (processed : List String) (last : ℕ) (es : List RosterEvent)
      → last ≤ bound
      → All (λ e. e.revision ≤ bound) es
      → Hoare Any (replay_events hashes client processed last es) (Reaches last) Any
  unfolding replay_events
  replay_events-Reaches processed last [] low all = Hoare-pure _ (λ d u. (omega arith, low))
  replay_events-Reaches processed last (e ∷ es) low all =
      let up : last ≤ higher last e.revision = ground arith in
      let bounded : higher last e.revision ≤ bound = ground (arith, all.0) in
      let on : (ids : List String)
          → Hoare Any (replay_events hashes client ids (higher last e.revision) es) (Reaches last)
              Any =
        λ ids.
          Hoare-weaken (replay_events hashes client ids (higher last e.revision) es)
            (λ page d k. (omega arith, k.1))
            (replay_events-Reaches ids (higher last e.revision) es bounded all.1) in
      Hoare-if (is_in e.event_id processed) _ _ (λ t. on processed)
        (λ f.
          Hoare-after (try (apply hashes e))
            λ r. applied-Reaches _ processed last e r low (on (e.event_id ∷ processed)))

  -- The replies to a replay name no revision beyond the bound.
  abbrev pub Bounded : Type 0
  Bounded =
      (deployment_id : String) (after_revision : ℕ) (w : World) (es : List RosterEvent)
      → client.replay deployment_id after_revision w ≡ ok es
      → All (λ e. e.revision ≤ bound) es

  module _ (after_revision : ℕ) (low : after_revision ≤ bound)
      (again other : ℕ → List String → M Progress)
      (agree : (last : ℕ) (ids : List String) (w : World)
        → after_revision < last
        → last ≤ bound
        → again last ids w ≡ other last ids w) where
    next_page-agrees :
        (size : ℕ) (page : Page) (w : World)
        → after_revision ≤ page.last_revision
        → page.last_revision ≤ bound
        → next_page hashes client again after_revision size page w
          ≡ next_page hashes client other after_revision size page w
    next_page-agrees size page w from to = go page.progress.failure
      where
        stays : Bool
        stays = eqb page.last_revision after_revision || ltb size max_roster_events_per_poll

        turn :
            (b : Bool)
            → stays ≡ b
            → (if b then pure page.progress else again page.last_revision page.progress.processed) w
              ≡ (if b then pure page.progress else other page.last_revision page.progress.processed)
                  w
        turn true e = refl
        turn false e = agree page.last_revision page.progress.processed w (ground arith) to

        go :
            (o : Option Err)
            → page_over hashes client again after_revision size page o w
              ≡ page_over hashes client other after_revision size page o w
        go (some x) = refl
        go none = turn stays refl

    replay_page-agrees :
        (processed : List String) (r : Result (List RosterEvent)) (w : World)
        → ((es : List RosterEvent) → r ≡ ok es → All (λ e. e.revision ≤ bound) es)
        → replay_page hashes client again after_revision processed r w
          ≡ replay_page hashes client other after_revision processed r w
    unfolding replay_page sort_events
    replay_page-agrees processed (err x) w replies = refl
    replay_page-agrees processed (ok []) w replies = refl
    replay_page-agrees processed (ok (e ∷ es)) w replies =
        paged (replay_events hashes client processed after_revision (sort_events (e ∷ es)) w) (
          (replay_events-Reaches processed after_revision (sort_events (e ∷ es)) low (
              All-sort_by (λ e. e.revision ≤ bound) event_before (e ∷ es)
                (replies (e ∷ es) refl))).at
            w tt)
      where
        paged :
            (p : Result Page × World)
            → Outcome (Reaches after_revision) Any p
            → continue p
                (λ page. next_page hashes client again after_revision (length (e ∷ es)) page)
              ≡ continue p
                  (λ page. next_page hashes client other after_revision (length (e ∷ es)) page)
        paged (err x, w') h = refl
        paged (ok page, w') h = next_page-agrees (length (e ∷ es)) page w' h.0 h.1

  -- A replay ends: where Central names no revision beyond a bound, fuel beyond the bound is enough,
  -- and more changes nothing, whatever Central answers else and wherever the database fails.
  pub replay_deployment-ends :
      Bounded
      → (fuel more : ℕ) (deployment_id : String) (after_revision : ℕ) (processed : List String)
        (w : World)
      → after_revision ≤ bound
      → bound < after_revision + fuel
      → bound < after_revision + more
      → replay_deployment hashes client fuel deployment_id after_revision processed w
        ≡ replay_deployment hashes client more deployment_id after_revision processed w
  unfolding replay_deployment
  replay_deployment-ends replies zero more deployment_id after_revision processed w low enough
        also =
      absurd (omega arith)
  replay_deployment-ends replies (suc fuel) zero deployment_id after_revision processed w low enough
        also =
      absurd (omega arith)
  replay_deployment-ends replies (suc fuel) (suc more) deployment_id after_revision processed w low
        enough also =
      replay_page-agrees after_revision low (replay_deployment hashes client fuel deployment_id)
        (replay_deployment hashes client more deployment_id)
        (λ last ids v up to.
          replay_deployment-ends replies fuel more deployment_id last ids v to (omega arith)
            (omega arith))
        processed (client.replay deployment_id after_revision w) w
        (λ es answer. replies deployment_id after_revision w es answer)
