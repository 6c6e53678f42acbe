-- ===== src/Lib.antt =====
-- The core of media-repair (pkgs/media-repair), a service that repairs downloads which Radarr and Lidarr
-- cannot import: it observes the download queue, has a repair planned for each job, runs the repairs,
-- submits the imports, and follows them in the service's history.
--
-- The parts and their files:
-- - Jobs: internal/jobs, the store of jobs, attempts and remembered planning results. Jobs.Model has the
--   rows, Jobs.Queue is queue.go, Jobs.History planning_history.go, Jobs.Store store.go and Jobs.Planning
--   planning.go. Jobs.Database states what the store uses of gorm, the interface Gorm and its laws
--   GormLaws; Jobs.Memory is a database in memory that meets them. An operation is a body, which runs on
--   the transaction's database and may fail, and the transaction, which keeps its writes if it succeeds.
-- - Repair: internal/repair. Repair.Engine is engine.go, Repair.Scheduler scheduler.go, Repair.Removal
--   removal.go and import.go. Repair.World has what they act on: the job database, the outside (the
--   clock, and the interfaces Adapter and Service) and the submissions made so far, which the program does
--   not keep. The scheduler's passes call the engine and the job store; the engine calls the job store.
-- - Servarr: internal/servarr. Servarr.Command is command.go, Servarr.Import import_execution.go with the
--   callbacks as a parameter; the number of POSTs is noted beside their state. The polling loop of
--   `follow` runs on fuel, where `none` means that it still polls; the fuel that the results ask for is
--   one turn for each of the twelve terminal checks.
-- - Casestore: internal/casestore. Casestore.Execution has the record of a manual import with its
--   validation and transitions (execution.go, import_confirmation.go), Casestore.CaseId the digest of a
--   case's identifier, Casestore.Store the operations. Casestore.Table states the operations as those of
--   a table from a case to its record; Terminal and Confirming are about sequences of transitions.
--   Casestore.Join is join_execution.go and join_import_execution.go: the record of a join of files, with
--   Validation, the transitions by the worker's results (Changes) and by the import (Imports), the
--   operations (Store), and their table (Table, Preparing). What worker/contracts, joinverification,
--   decisionpolicy and controller say of a request or a file is a parameter.
-- - Verification: internal/joinverification/validator.go, whether a staged join is what was authorized; the
--   stores of joins take its answer as a parameter.
-- - Planning: internal/planning and internal/planningstate. Planning.Stored is state_record.go and
--   failure.go, Planning.Results planning_results.go, Planning.Cases cases.go (Laws and
--   Binding on what it reads back), Planning.Runner the pass
--   of runner.go over a case with the planner, the stores and the clock as a parameter, and
--   Planning.Backoff its delay. The planner's calls are counted beside the state.
--   Planning.Runner.Settled says what the store of planning results promises the runner.
-- - Finalizer: internal/queuefinalize/finalizer.go, removing completed entries from a service's queue.
--   Finalizer has the records and their store, Finalizer.Run the pass over the candidates. The calls that
--   remove an entry are kept beside the state, each with the files at that moment. A sort by identifier
--   is an insertion sort: the order of entries that share one is not specified.
-- - Durable: what the stores in files have in common: a validated record as JSON in a private file.
--   Durable.Laws says what the files and JSON promise, Durable.Memory is files in memory that keep it.
-- - Base: tests on numbers, lists, results and integers that the parts share.
--
-- Times are numbers of nanoseconds since the zero time, which is 0. The identifiers in the records of
-- manual imports and joins are integers. Those of jobs, queue entries, subjects and commands elsewhere are
-- numbers: a test that one is positive is a test that it is not 0, and negative ones are not covered. A
-- counter wraps at 64 bits. An error is a value; a wrapped error
-- keeps its kind, and the text that wrapping adds is left out unless the code stores it.
--
-- Not modelled: the endless loops of the scheduler with their timers and channels, contexts and logging,
-- the opening of the database, JSON, files and HTTP, which are parameters or left out, and the packages of
-- media-repair that are not named above.
pub mod Base
pub mod Jobs
pub mod Repair
pub mod Servarr
pub mod Durable
pub mod Casestore
pub mod Planning
pub mod Finalizer
pub mod Verification
