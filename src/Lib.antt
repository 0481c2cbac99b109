-- ===== src/Lib.antt =====
-- Bangku Sekolah Exam Node: the runtime on which the students of an exam sit it. It keeps exams,
-- participants, attempts and answers in a MySQL database (app/adapter/persistence), serves the
-- students' requests (app/service/attempt_service.go), finalizes what is overdue in the background
-- (app/service/sweeper_service.go), and grades objective answers (app/domain/grading).
--
-- The modules and the code they stand for:
--   Base        texts, tables as lists of rows, Boolean tests; nothing of the program itself
--   Json        decoded JSON, as encoding/json makes it
--   Entity      app/domain/entity/entity.go and app/domain/error/error.go
--   Store       the tables (app/migrations, app/adapter/persistence/model/exam_model.go) and
--               mapper.ToParticipantEntity
--   Exec        an action reads and writes a World: the tables, the coming failures of the database,
--               the clock, the minted ids. Transactions are app/adapter/persistence/repository/helper/
--               tx_manager.go. Exec.Hoare has a rule for each way to build an action
--   Repository  app/adapter/persistence/repository/node_repository.go, one action for each method;
--               Repository.Answers is UpsertAnswer, Repository.Upsert its theorems
--   Invariant   what holds of attempts and roster between two statements
--   Grading     app/domain/grading/grading.go
--   Finalizer   app/service/attempt_finalizer.go and finalizeStatus of attempt_service.go
--   Attempt     app/service/attempt_service.go: StartAttempt, StartAttemptWithDevice,
--               GetAttemptState, AutosaveAnswer, SubmitAttempt, GetResult
--   Sweeper     app/service/sweeper_service.go: SweepExpiredAttempts
--   Content     app/service/content_service.go: the cache of exam contents and its publication
--               protocol; Content.Overlap has steps that overlap; Content.Rebuild reads the
--               tables and runs ReloadAllCaches and RehydrateAllCaches (app/service/rehydrate.go)
--   Reset       app/service/attempt_reset_service.go: the command, Reset.Operation its stored
--               operation, Reset.Apply ApplyReset, Reset.Preview PreviewReset; Repository.Resets has
--               their statements. Reset.Never follows the attempts, Reset.Handled and Reset.Replay the
--               stored operation of a command that is sent again
--   Harvest     app/service/harvest_service.go: drainDeployment, with the payloads of
--               app/port/inbound/harvest_payload.go; Harvest.Drain the grouping, the loop over the
--               batches, DrainOnce and DrainFinal; Repository.Harvest has their statements.
--               Harvest.Settle, Harvest.Marks, Harvest.Log, Harvest.Only and Harvest.Whole follow
--               what is marked, Harvest.Counts how many, Harvest.Batch the loop
--   ContentHash the content hash of app/service/bundle_service.go
--   Roster      app/service/roster_service.go: Apply; Roster.Worker is app/service/roster_worker.go:
--               PollOnce, processDeployment, replayDeployment; Repository.Roster has their
--               statements. Roster.Receipts, Roster.Advance, Roster.Branches and Roster.Covered
--               follow revisions and receipts, Roster.Once one event in full, Roster.Replay the
--               loop of a replay
--   Integrity   app/service/integrity_service.go: RecordEvent; Repository.Integrity has its statements.
--               Integrity.Limit is about the flood limit, Integrity.Once about repetition
--   StudentExam app/service/student_exam_service.go
--   Bundle      app/service/bundle_service.go: LoadBundle and PreflightRoster, with the bundle of
--               app/port/inbound/bundle_usecase.go; Repository.Bundle is ReplaceBundle. Bundle.Stored
--               says what a load is to leave; Bundle.Items and Bundle.Load follow the exam and the
--               items, Bundle.Ids and Bundle.Enrolled the participants, Bundle.Whole the load
--   Auth        app/service/auth_service.go: the login and its table of hits; Auth.Rate is about
--               the table, Auth.Window about the calls that are let through, Auth.Login about who is
--               logged in
--   Readiness   app/adapter/delivery/router/readiness.go: /readyz; Readiness.Sets compares sets of ids
--   Requests    all requests and the sweeper, in any order
--   Examples    one exam run through the operations, the cache, a command to reset, a harvest, the
--               roster, integrity events, a login, and a bundle
-- The parts meet in the repository's actions: the services call them in the source's order, the
-- finalizer is called by the requests and by the sweeper, and grading by AutosaveAnswer.
--
-- Failures: `World.faults` says of every coming statement, and of every commit, whether the
-- database fails at it; a theorem about every world is one about every pattern of failures. A
-- transaction that fails gives the tables back as they were. `calm` is a world without failures in
-- which the clock stands still. Transactions run one after another: the row locks of the source
-- (FOR UPDATE) are taken to do what they are for. Exec.Keeps is about actions that keep a
-- predicate of the tables. Two loops have fuel. That over the batches of a deployment in
-- drainLocked has as much as the group has attempts, and one turn is all that it takes; that of
-- replayDeployment goes on from a higher revision at each turn, so fuel beyond the highest
-- revision that Central names is enough. Every other loop goes through a list.
--
-- Bounds and simplifications: times are nanoseconds since Go's zero time, without the rounding of
-- the DATETIME columns to seconds; scores are hundredths, as the DECIMAL(8,2) columns hold them,
-- and not float64; counts and sequence numbers are not negative, and do not overflow int64;
-- letters change case as ASCII letters do; texts are compared as Go compares them, not by the
-- collation of the database; a status is one that the code writes. The order in which
-- UpsertAnswer's assignments reach the database is gorm's: the source gives a Go map, and
-- clause.Assignments sorts it by the names of the columns, which is `columns_by_name`; the world
-- has the order as `assignments`, and a theorem about every world is one about every order. The
-- statement counts a row exactly if one of the assigned columns changes; JSON values are compared
-- member by member, in their order. An answer is inserted under a fresh id, so that only the key
-- of attempt and item can collide. Encoding, hashing and compressing are arguments of the
-- definitions that call them. A step of the content cache is what the source does under one lock
-- of the mutex; LockExam, which keeps two loads of one exam apart, is not modelled. Which of
-- several blank fields of a command an error names is not said, since the source asks a Go map.
--
-- What Central answers is a function of the request and of the world at that point. Hashing
-- payloads and contents is an argument. An error that wraps another stands for itself with it; the
-- errors that the harvest makes of a message hold what the message says, and so does an entry of
-- the harvest log. A Go map that is ranged over has the order of a list. Start of a worker, with
-- its ticker and its backoff, is not modelled.
--
-- The codes of students are cut after six characters, which are taken to be one byte each, while
-- their length is counted in bytes as in the source. Issuing and reading a token are arguments of
-- the login, and the checksum of a bundle is one of the load. The table of hits has no empty key.
--
-- Not modelled: the other HTTP handlers, the router and the middleware, the JWT issuer, the
-- clients of Central, the command-line tools, configuration and migrations, and the worker that
-- fetches resets; the wiring of main. They are I/O, or glue between the services that are
-- modelled.
pub mod Base
pub mod Json
pub mod Entity
pub mod Store
pub mod Exec
pub mod Repository
pub mod Invariant
pub mod Grading
pub mod Finalizer
pub mod Attempt
pub mod Sweeper
pub mod Content
pub mod Reset
pub mod Harvest
pub mod ContentHash
pub mod Roster
pub mod Integrity
pub mod StudentExam
pub mod Bundle
pub mod Auth
pub mod Readiness
pub mod Requests
pub mod Examples
