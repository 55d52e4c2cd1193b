-- ===== src/Lib.antt =====
-- managed-tokens: a verification library for the Go programs that obtain vault tokens for the
-- services of experiments, push them to the nodes where they are used, and tell the services and
-- the administrators about errors.
--
-- The parts, and how they interact. A worker (internal/worker) takes the configurations of services
-- from a channel, does one thing for each, and sends a report and notifications.
-- cmd/token-push sets the services up and leads them from worker to worker. The manager of a
-- service (internal/notifications/serviceEmailManager.go) takes its notifications, counts them and
-- forwards those that are to be sent to the manager for the administrators
-- (internal/notifications/adminNotificationManager.go), which gathers them in a map
-- (internal/notifications/adminErrors.go) from which the messages are made at the end
-- (internal/notifications/admin.go). The counts live in a database between the runs
-- (internal/notifications/db.go and internal/db), beside the UIDs of the users, which
-- cmd/refresh-uids-from-ferry gets from the FERRY service. Commands are run in an environment of their own
-- (internal/environment).
--
-- The files:
--   Base: what the others share. Base/Dict stands for Go's maps, and Base/Integers for int64.
--   Notifications: internal/notifications/notifications.go.
--   Notifications/ErrorCounts: the counting in internal/notifications/db.go;
--     ErrorCounts/Store has its functions on the database, setErrorCountsByService and
--     saveErrorCountsInDatabase; ErrorCounts/Runs, Changes, Rows and Cycle have proofs.
--   Notifications/ServiceEmail: internal/notifications/serviceEmailManager.go, with
--     `run_handler` for runServiceNotificationHandler and `receive` for one notification.
--   Notifications/AdminManager: internal/notifications/adminNotificationManager.go, with
--     `run_handler` for runAdminNotificationHandler and `set_up` for its constructor.
--   Notifications/AdminErrors: internal/notifications/adminErrors.go.
--   Notifications/Admin: internal/notifications/admin.go.
--   Environment: internal/environment.
--   ServiceName: internal/service/service.go.
--   Worker/Config: internal/worker/config.go and workerType.go; Config/Specific is
--     workerSpecificConfig.go, Config/Extras is supportedExtrasKey.go, and Config/Options is
--     configOption.go with NewConfig.
--   Worker/PushToNode and Worker/PushTokens: internal/worker/pushTokensWorker.go, with
--     PushTokens/Values for getPushTokensValuesFromConfig.
--   Worker/CreddStore: internal/worker/creddVaultTokenStore.go.
--   Worker/StoreAndGet: internal/worker/condorVaultStorerWorker.go, with
--     `store_and_get_tokens_for_schedd` and the report of a service.
--   Worker/GetToken: internal/worker/getTokenWorker.go.
--   Database: internal/db/notificationsDb.go and db.go, the tables, the statements and the
--     transactions; Database/Rows has the unpacking of rows, Database/Queries the queries,
--     Database/Uids is ferryDb.go and Database/Opening is db.go and migration.go, with
--     `open_or_create_database` for OpenOrCreateDatabase. Database/Store is the database behind the
--     interface of ErrorCounts/Store; Ids, Counts, Joins, Transactions, Validity, Reading, Lawful,
--     Remembering and Opening/Accepted have proofs.
--   Refresh: cmd/refresh-uids-from-ferry/main.go and utils.go, with GetFERRYUIDData of
--     internal/worker/ferryWorker.go; Refresh/Uids and Refresh/Verified have proofs.
--   TokenPush/Run: cmd/token-push/main.go and serviceConfigWorker.go, with `run` for the stages of
--     run; TokenPush/Schedds: the schedds of config.go, with scheddCache.go and
--     scheddCollection.go; TokenPush/Configuration: the rest of config.go, with its Retries, which
--     has workerType.go; TokenPush/Timeouts: timeoutKey.go and initTimeouts of main.go. Run/Successes,
--     Schedds/Once and Cached, Configuration/Notifying, Retries/Checks and Fitting, and
--     Timeouts/Within have proofs.
--   Tests: the theorems at concrete inputs, over a database in memory (Tests/Memory).
--
-- How it is modelled. A goroutine that serves a channel is a function of the list of what its
-- `select` receives, and the channels it sends on are the lists of what was sent. Goroutines that run
-- side by side and share state under a lock are a list of steps in the order in which they take the
-- lock; the theorems hold for every such list. A Go map is a list of keys and values, and the order
-- of an iteration is that of the list. An error is `none`, a constructor of a result type, or a
-- Boolean, where only its presence matters. The numbers are natural numbers, but for the timeouts
-- and the configured retries and sleeps of cmd/token-push and the rounds of a push, which are signed
-- integers (Base/Integers), with the conversions to and from uint and the product that wraps around
-- written out. No definition runs on fuel: every loop is a recursion on a list, a text or the retries
-- that are left.
--
-- Parameters. To the notifications the database is a record of four queries (CountStore) with laws
-- for the queries that succeed (IsLawful); internal/db is shown to have them. Which calls of the SQL
-- driver fail is the record Faults, and `numeral` says which texts SQLite stores as numbers. What viper,
-- condor_status, time.ParseDuration and the workers of a run of cmd/token-push return are functions.
-- What FERRY answers is a list, in the order in which the goroutines send. The e-mail and Slack
-- clients, the templates and the table writer are functions.
-- What a round of a push meets (the context, the copier) is a function of the round. The files are a
-- map of paths to contents, and which system calls fail is an argument. The vault storer and the
-- htgettoken client are functions on the files. What a run asks of the machine for its pushes is the
-- record Machine.
--
-- Not modelled: logs, metrics and traces; the texts of most errors; internal/vaultToken,
-- internal/fileCopier, internal/kerberos and internal/ping, which run external commands; the workers
-- for Kerberos tickets and pings; the HTTP requests to FERRY and their authentication; and of
-- cmd/token-push the choice of the services and the forwarding of notifications.
pub mod Base
pub mod Notifications
pub mod Environment
pub mod Worker
pub mod Database
pub mod Refresh
pub mod TokenPush
pub mod Tests
pub mod ServiceName
