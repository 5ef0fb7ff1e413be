-- ===== src/Lib.antt =====
-- Copr is a build system for RPM packages. The frontend (frontend/) keeps projects, builds and
-- batches in a database and answers the backend's requests; the backend (backend/) takes the
-- pending tasks, orders them, starts a worker process for each that its limits let in, and reports
-- the results; both use common/.
--
-- Base and its children hold what all parts share: tests on numbers, lists, signed integers,
-- decidable equality, Python's dict and set as association lists, and chains of steps that may
-- fail. A Python str is a list of code points (Base/Equality).
--
-- Workers is common/copr_common/worker_manager.py and the loop of
-- common/copr_common/dispatcher.py. Workers/JobQueue is class JobQueue: Live says which tasks
-- wait, Invariant what holds between two calls, Refines and Pops that each operation does on the
-- waiting tasks what it promises, Order what a pop takes. Workers/StringCounter and Workers/Limits
-- are the limits that count running workers; Counts says what they count and Respected that they
-- are kept. Workers/Manager is the state and the methods of WorkerManager, with redis as a dict of
-- records; Ids is about worker ids, Cleanup about a whole cleanup and Fate about one worker.
-- Workers/Run is the loop of run and one turn of the dispatcher: Bounds, Starts and Dispatch say
-- what they keep.
--
-- Builds is the build dispatcher (backend/copr_backend/rpm_builds.py, worker_manager.py and
-- daemons/build_dispatcher.py): Task the static priorities, PriorityCounter the dynamic ones,
-- Limits the list of limits.
--
-- Createrepo is backend/copr_backend/createrepo.py: Merged, Served and Complete are about the
-- options that one process gathers from the others' requests, Notified about telling them.
--
-- Frontend is frontend/coprs_frontend/coprs: WorkList (helpers.py), Status (StatusEnum of
-- common/copr_common/enums.py), User (the permissions of models.py, and in its child Permissions
-- class CoprPermissionsLogic of logic/coprs_logic.py, with who may edit in Editors), Build and
-- Batch (the states of models.py, batch_chain of logic/batches_logic.py), Cancel (cancelling and
-- deleting builds, logic/builds_logic.py and logic/actions_logic.py) and Update
-- (update_state_from_dict of logic/builds_logic.py). Batch/Setup is how builds get into batches,
-- and Batch/Ordered what that keeps. In Update, Ended says which states end a task, Terminal and
-- Received what reports do. Backend and Jobs are the answers of
-- views/backend_ns/backend_general.py, and Imported is its dist_git_upload_completed.
--
-- Chroots is the life of a project's chroots in frontend/coprs_frontend: the states of
-- coprs/models.py, then Edit and Names (class CoprChrootsLogic of coprs/logic/coprs_logic.py),
-- Mocks (class MockChrootsLogic and commands/alter_chroot.py), Outdated
-- (coprs/logic/outdated_chroots_logic.py) and Commands (commands/delete_outdated_chroots.py,
-- notify_outdated_chroots.py and fixup_unnoticed_chroots.py). Rows, Enabling, Removing, Loops,
-- Wanted and Enabled are about update_from_names, Deleted, Noticed with Told and Reached (who gets
-- a mail), Reviewed, Extended and Named about one operation each, LifeCycle about all that touch
-- one chroot.
--
-- Lock is common/copr_common/lock.py: a process makes one call to redis or to the kernel at a
-- step, and any live process may be the next to step, or die. Queue is the list of pids, Invariant
-- what every reachable state has, Fair and Solo what follows. Rpm is common/copr_common/rpm.py.
-- Examples applies the theorems at concrete inputs.
--
-- State is passed explicitly. Exceptions are values: none of an Option, or a constructor of a
-- result type. The clock, the living processes, what other processes write to redis and what the
-- frontend answers are arguments. Numbers are unbounded, as in Python. The loop of run takes the
-- rounds that it gets to do as a list, so no fuel is chosen there. Batch.blocked and batch_chain
-- recurse on fuel, and more than the batch's id is enough in a database where a batch is only
-- blocked by one with a smaller id, as setup_batch creates them (Batch/Ordered).
--
-- Not modelled: mails, the tags of build chroots, logs, process titles, HTTP calls, the programs
-- that workers run, forms and routes, and the SQL behind a query, which appears as the list that
-- it gives. heapq is taken by what it promises: heappop takes the least entry; redis, for the
-- lock, by a record of its operations with what it documents of them. A process that dies is taken
-- never to come back with the same pid. update_state_from_dict leaves out the assignment of a
-- package, the rows of build results and the module action.
pub mod Base
pub mod Workers
pub mod Builds
pub mod Createrepo
pub mod Frontend
pub mod Chroots
pub mod Lock
pub mod Rpm
pub mod Examples
