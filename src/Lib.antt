-- ===== src/Lib.antt =====
-- rclone-sync-hub, the Go service that uploads files of watched folders with rclone: a model of
-- its task queue and the requests on it, of its watched folders and remote routes, of its cleanup,
-- of the policy that confines its paths, of its path pipeline, of its folder scanner, of its access
-- tokens and of its event hub.
--
-- The parts and their files
--   internal/model/task.go, internal/model/file_record.go: Model. `Status`, `UploadTask` and
--     `FileRecord` have the columns of the tables, but `log`, `created_at` and `updated_at`.
--   internal/model/watch_folder.go, internal/model/remote_route.go and the models beside them:
--     Model.Folders.
--   internal/repository/task_repository.go: TaskRepository. TaskRepository.Rows has the conditions
--     and the assignments of each statement as functions of a row; TaskRepository has one function
--     for each operation, of the same name (ClaimNext is `claim_next`), which returns the result
--     and the database that it leaves; TaskRepository.Operation has a call as data, `apply` and
--     `run`. TaskRepository.RowStep is the state machine of a task, an indexed data type with the
--     guard of each move; `Evolves` lifts it to the table. Its moves are those of every writer of
--     the table, the folder and the route repository and the cleanup included.
--   internal/repository/watch_folder_repository.go: FolderRepository, with its conditions and
--     assignments in FolderRepository.Columns and a call as data in FolderRepository.Calls. The
--     creation of a folder, which adds a row, is not one of those calls.
--   internal/repository/remote_route_repository.go: RouteRepository, with its conditions and
--     assignments in RouteRepository.Columns.
--   internal/repository/file_record_repository.go: FileRecordRepository.
--   internal/repository/scan_run_repository.go: ScanRunRepository.
--   internal/service/maintenance_service.go: Maintenance.
--   internal/service/upload_service.go: UploadService. UploadService.Requests has a request as data
--     and runs a list of them among the calls of others; UploadService.Batches has the batches.
--   internal/service/remote_route_service.go, internal/service/file_index_service.go:
--     RouteService, the paths below a route and the batch that moves files on a remote:
--     RouteService.Batch has its result and its reports, RouteService.Validation the loop over the
--     sources, RouteService.MoveFiles `MoveFilesWithProgress`.
--   internal/worker/queue.go: Worker. Worker.Signals has the cancel functions and the wake signal
--     that requests use. Config and Backoff have `NewQueue` and `retryDelay`,
--     Heartbeat the loop that renews a lease, Effects what a worker does besides its writes and
--     what it meets, Finish the three ends of an attempt, Upload the phase in which rclone copies,
--     and Process `processClaimed`.
--   internal/security/policy.go: Security.Policy. internal/security/auth.go: Security.Auth, the
--     signature and the check of an access token.
--   internal/events/hub.go: Events. What readers and other publishers do during Publish is a list of
--     moves.
--   internal/pathpipeline/pipeline.go: PathPipeline.
--   internal/scheduler/watch_folder_scanner.go: Scanner. Scanner.Config has its configuration,
--     Scanner.Preparing what `scanFolder` checks before its walk, Scanner.Visit the callback of the
--     walk, case by case, Scanner.Walk the walk of a tree with it and what is computed after,
--     Scanner.Storing `scanFolder` with its reads and writes of the repositories, and
--     Scanner.Lifecycle `scanOneFolder`, from the claim of a folder to the end of its scan.
--   The packages path, path/filepath and strings, as far as these call them: Paths.
--
-- How they interact. `scan_one_folder` claims a folder by `claim_for_scan`, creates a run, and
-- calls `scan_folder`, which reads the file records and the open tasks of the folder, walks its
-- tree, writes changed, missing and new file records, and creates the tasks that it proposes by
-- `create_many`; then `finish_scan` gives the lease of the folder up. Calls of others on tasks may
-- come during the walk and before the tasks are created. The heartbeat and the calls of others on
-- folders stand before the statements of the scan, which write other tables. A worker claims a task
-- by `claim_next` and hands it to `process_claimed`, which checks its paths by the resource policy,
-- uploads it, and ends it by `finish_success`, `finish_canceled`, `fail_or_retry` or
-- `release_lease`. While rclone copies, the events of an `Attempt` come in any order: progress
-- reports, ticks of the heartbeat, and calls of other workers and of clients. Calls may come before
-- the last checks of the worker too. A request of UploadService reads a task and then writes it;
-- the calls that others make between the two are an argument. A change of a folder or of a route
-- ends the tasks of the folders concerned in the same transaction. The cleanup deletes tasks and
-- logs. `calls` runs the calls on folders, whose leases work as those of tasks do.
--
-- Parameters. The database is the record `Sql` of Database.Statement: a state, and a record `Table`
-- for each table, with its statements and the documented behaviour of each as a law. A statement,
-- `Begin` or `Commit` may fail at any state; a failed one changes nothing. A transaction is one
-- step, because of its row locks, and a single statement is one step. Database.InMemory is a
-- database that meets the laws, Database.Keeping has what a transaction does to the tables that it
-- does not write. An upsert of a table is told by `same_record` which row its unique keys meet, and
-- CreateInBatches is one transaction, as in gorm's default configuration. The logs that the cleanup
-- deletes from are `Logs`. The package regexp is the record `Regexp`, HMAC, JSON and base64 are
-- `Codec`, the steps of a pipeline in JSON are `Marshaled`, the file system is `FileSystem`, and
-- rclone with the remote behind it is `Remote`; SHA-256, random numbers and what rclone answers are
-- fields of `Attempt`, `Folder` and `Digests`; the tree of a folder, the times of a scan, the end
-- of its context and the calls of others are fields of `Circumstances` and `Occasion`. All uses of
-- `time.Now()` in one call of a repository are one argument, `now`.
--
-- Numbers. Times and durations are nanoseconds; a time is a natural number, a configured duration
-- an integer whose sums and doubles wrap at 64 bits. A percentage counts hundredths, as the column
-- does. A string is the list of its bytes, and white space is that of ASCII. All loops recurse on
-- a list, on the tree of a folder, or on the number of their rounds, so that none runs out of
-- fuel. The loops of the cleanup end in as many rounds as a table has rows, and one more.
--
-- Not modelled: listings and counts, which change no state; logging; the goroutines that poll and
-- wake the workers and the scanners and share the due folders out; the creation of tasks by
-- clients; the services that check a new or changed folder or route, and the creation and renaming
-- of remote folders; HTTP, the configuration from the environment, the rclone client, the remote
-- route scanner, the other services, and the front end.
pub mod Prelude
pub mod Model
pub mod Database
pub mod TaskRepository
pub mod FolderRepository
pub mod RouteRepository
pub mod FileRecordRepository
pub mod ScanRunRepository
pub mod Paths
pub mod PathPipeline
pub mod Maintenance
pub mod Worker
pub mod UploadService
pub mod RouteService
pub mod Security
pub mod Scanner
pub mod Events
pub mod Examples
