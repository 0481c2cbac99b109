-- ===== src/Roster/Worker.antt =====
-- The worker that fetches events of the roster (app/service/roster_worker.go): PollOnce, and the
-- loop that recovers a deployment by replaying its events. The client of Central is a parameter;
-- what it answers may depend on everything that is in the world at that point. The processor is the
-- RosterService of this node, which returns an outcome or an error. An error stands for itself with
-- what wraps it.
use bangkusekolah_exam_node.Base.{
  ℕ, zero, suc, Bool, true, false, ◌&&◌, ◌||◌, String, ◌==◌, Option, none, some, List, [], ◌∷◌,
  ◌++◌, if◌then◌else◌, ltb, eqb, length, take, text_lt, sort_by, Dict, at_key, put, keys,
}
use bangkusekolah_exam_node.Entity.{Exam, Err, roster_revision_gap}
use bangkusekolah_exam_node.Exec.{M, World, Result, ok, err, pure, try, ◌>>=◌}
use bangkusekolah_exam_node.Repository.Harvest.{is_in}
use bangkusekolah_exam_node.Content.Rebuild.{list_exams}
use bangkusekolah_exam_node.Roster.{
  RosterEvent, RosterOutcome, Hashes, is_pending, is_applied, is_fenced, apply,
}

abbrev pub max_roster_events_per_poll : ℕ
max_roster_events_per_poll = 50

pub record RosterClient : Type 0 where
  pub pull_pending : World → Result (List RosterEvent)
  pub replay : String → ℕ → World → Result (List RosterEvent)
  pub acknowledge : RosterOutcome → World → Result (Unit {0})

-- A call of the client, and its error as a value.
abbrev pub call : {A : Type 0} → (World → Result A) → M (Result A)
call answer w = (ok (answer w), w)

-- The events that are done, and the first error, if there is one.
pub record Progress : Type 0 where
  pub processed : List String
  pub failure : Option Err

abbrev pub first_error : Err → Progress → Progress
first_error x p = elim p.failure [ none ↦ record p { failure = some x } | some y ↦ p ]

abbrev pub done : String → Progress → Progress
done id p = record p { processed = id ∷ p.processed }

-- A page of a replay: how far it came.
pub record Page : Type 0 where
  pub progress : Progress
  pub last_revision : ℕ

abbrev pub higher : ℕ → ℕ → ℕ
higher last revision = if ltb last revision then revision else last

abbrev pub should_acknowledge : RosterEvent → Bool
should_acknowledge e = is_pending e.status || is_applied e.status

-- Order by revision, then by id.
abbrev pub event_before : RosterEvent → RosterEvent → Bool
event_before a b =
    ltb a.revision b.revision || eqb a.revision b.revision && text_lt a.event_id b.event_id

unfoldable pub sort_events : List RosterEvent → List RosterEvent
sort_events = sort_by event_before

abbrev pub is_revision_gap : Err → Bool
is_revision_gap roster_revision_gap = true
is_revision_gap _ = false

-- An error ends the replay, and the event is not done then.
abbrev pub stop : List String → ℕ → Err → M Page
stop processed last x =
    pure (record {
      progress = record { processed = processed; failure = some x };
      last_revision = last;
    })

module _ (hashes : Hashes) (client : RosterClient) where
  abbrev pub replay_acknowledged : M Page → List String → ℕ → Result (Unit {0}) → M Page
  replay_acknowledged next processed last (err x) = stop processed last x
  replay_acknowledged next processed last (ok u) = next

  -- `next` goes on with the event done.
  abbrev pub replay_applied : M Page → List String → ℕ → RosterEvent → Result RosterOutcome → M Page
  replay_applied next processed last e (err x) = stop processed last x
  replay_applied next processed last e (ok o) =
      if should_acknowledge e
      then (call (client.acknowledge o) >>= λ r. replay_acknowledged next processed last r)
      else next

  unfoldable pub replay_events : List String → ℕ → List RosterEvent → M Page
  replay_events processed last [] =
      pure (record {
        progress = record { processed = processed; failure = none };
        last_revision = last;
      })
  replay_events processed last (e ∷ es) =
      if is_in e.event_id processed
      then replay_events processed (higher last e.revision) es
      else (try (apply hashes e) >>= λ r.
          replay_applied (replay_events (e.event_id ∷ processed) (higher last e.revision) es)
            processed last e r)

  -- The loop ends with an error, without progress, or at a page that is not full.
  abbrev pub page_over : (ℕ → List String → M Progress) → ℕ → ℕ → Page → Option Err → M Progress
  page_over again after_revision size page (some x) = pure page.progress
  page_over again after_revision size page none =
      if eqb page.last_revision after_revision || ltb size max_roster_events_per_poll
      then pure page.progress
      else again page.last_revision page.progress.processed

  abbrev pub next_page : (ℕ → List String → M Progress) → ℕ → ℕ → Page → M Progress
  next_page again after_revision size page =
      page_over again after_revision size page page.progress.failure

  unfoldable pub replay_page :
      (ℕ → List String → M Progress) → ℕ → List String → Result (List RosterEvent) → M Progress
  unfolding replay_events sort_events
  replay_page again after_revision processed (err x) =
      pure (record { processed = processed; failure = some x })
  replay_page again after_revision processed (ok []) =
      pure (record { processed = processed; failure = none })
  replay_page again after_revision processed (ok (e ∷ es)) =
      replay_events processed after_revision (sort_events (e ∷ es)) >>= λ page.
      next_page again after_revision (length (e ∷ es)) page

  -- replayDeployment. Each turn but the last goes on from a higher revision; the fuel bounds the turns.
  unfoldable pub replay_deployment : ℕ → String → ℕ → List String → M Progress
  unfolding replay_page
  replay_deployment zero deployment_id after_revision processed =
      pure (record { processed = processed; failure = none })
  replay_deployment (suc fuel) deployment_id after_revision processed =
      call (client.replay deployment_id after_revision) >>= λ r.
      replay_page (replay_deployment fuel deployment_id) after_revision processed r

  abbrev pub event_acknowledged : RosterEvent → Progress → Result (Unit {0}) → Progress
  event_acknowledged e p (ok u) = done e.event_id p
  event_acknowledged e p (err x) = done e.event_id (first_error x p)

  -- A replay that failed ends the deployment with its error, whatever failed before.
  abbrev pub gap_replayed : (Progress → M Progress) → RosterEvent → Progress → Progress → M Progress
  gap_replayed next e p q = elim q.failure [
    | some x ↦ pure q
    | none ↦ next (record { processed = e.event_id ∷ q.processed; failure = p.failure })
  ]

  abbrev pub event_applied :
      ℕ
      → String
      → (Progress → M Progress)
      → RosterEvent
      → Progress
      → Result RosterOutcome
      → M Progress
  event_applied fuel deployment_id next e p (err x) =
      if is_revision_gap x
      then (replay_deployment fuel deployment_id 0 p.processed >>= λ q. gap_replayed next e p q)
      else next (first_error x p)
  event_applied fuel deployment_id next e p (ok o) =
      if should_acknowledge e
      then (call (client.acknowledge o) >>= λ r. next (event_acknowledged e p r))
      else next (done e.event_id p)

  unfoldable pub process_events : ℕ → String → Progress → List RosterEvent → M Progress
  unfolding replay_deployment
  process_events fuel deployment_id p [] = pure p
  process_events fuel deployment_id p (e ∷ es) =
      if is_in e.event_id p.processed
      then process_events fuel deployment_id p es
      else (try (apply hashes e) >>= λ r.
          event_applied fuel deployment_id (λ q. process_events fuel deployment_id q es) e p r)

  -- A deployment's own first error counts, after an earlier deployment's.
  abbrev pub joined : Progress → Progress → Progress
  joined p q = elim q.failure [
    | none ↦ record p { processed = q.processed }
    | some x ↦ first_error x (record p { processed = q.processed })
  ]

  abbrev pub process_deployment : ℕ → String → List String → List RosterEvent → M Progress
  process_deployment fuel deployment_id processed events =
      process_events fuel deployment_id (record { processed = processed; failure = none }) events

  abbrev pub or_no_events : Option (List RosterEvent) → List RosterEvent
  or_no_events none = []
  or_no_events (some group) = group

  unfoldable pub group_events : Dict (List RosterEvent) → List RosterEvent → Dict (List RosterEvent)
  group_events groups [] = groups
  group_events groups (e ∷ es) =
      group_events
        (put e.deployment_id (or_no_events (at_key e.deployment_id groups) ++ (e ∷ [])) groups) es

  unfoldable pub process_groups : ℕ → Dict (List RosterEvent) → Progress → List String → M Progress
  unfolding process_events
  process_groups fuel groups p [] = pure p
  process_groups fuel groups p (k ∷ ks) =
      process_deployment fuel k p.processed (sort_events (or_no_events (at_key k groups))) >>= λ q.
      process_groups fuel groups (joined p q) ks

  -- The recovery of every exam that has a deployment and is not fenced.
  unfoldable pub recover_exams : ℕ → Progress → List Exam → M Progress
  unfolding replay_deployment
  recover_exams fuel p [] = pure p
  recover_exams fuel p (exam ∷ rest) =
      if exam.deployment_id == "" || is_fenced exam.fenced_at
      then recover_exams fuel p rest
      else (replay_deployment fuel exam.deployment_id exam.roster_revision p.processed >>= λ q.
          recover_exams fuel (joined p q) rest)

  unfoldable pub poll_events : ℕ → Result (List RosterEvent) → M Progress
  unfolding group_events process_groups recover_exams
  poll_events fuel (err x) = pure (record { processed = []; failure = some x })
  poll_events fuel (ok events) = do
    let groups = group_events [] (take max_roster_events_per_poll events)
    p ←
        process_groups fuel groups (record { processed = []; failure = none })
          (sort_by text_lt (keys groups))
    exams ← list_exams
    recover_exams fuel p exams

  -- PollOnce, of a worker that is configured. It fails when the exams cannot be listed.
  unfoldable pub poll_once : ℕ → M Progress
  unfolding poll_events
  poll_once fuel = call client.pull_pending >>= λ r. poll_events fuel r
