-- ===== src/Lib.antt =====
-- SparkDB, a server around SQLite databases: the logic that decides who may do what.
--
-- A request is authenticated (internal/auth), checked against the role of its user (internal/rbac) and
-- the statement it carries (internal/query), limited in its rate, and run. Users, API keys and
-- sessions live in a system database (internal/database/system.go), which also keeps the audit log; the
-- databases themselves are files, encrypted at rest when there is a key (internal/encryption).
--
-- Files:
--   Prelude             numbers, lists, association lists, results and errors, passed on from its
--                       children; an error carries the texts that fmt.Errorf adds around it
--   Text                Go strings as lists of code points, and the functions of the packages strings
--                       and unicode that the code calls; Text/Case and Text/Search hold their lemmas
--   Disk                the package os as far as the code uses it: files by path, with their bytes
--   Encryption/Cipher   internal/encryption/cipher.go: Encrypt is encrypt, EncryptCopy is encrypt_copy;
--                       Encryption/Hex is encoding/hex
--   Encryption/Certificates  internal/encryption/tls.go: EnsureCertFiles is ensure_cert_files
--   Rbac                internal/rbac/rbac.go: HasPermission is has_permission
--   Query/Validator     internal/query/validator.go: IdentifyType, RequiredPermission, CheckDangerous,
--                       Analyze
--   Query/RateLimiter   the same file, RateLimiter: Allow is allow, Reset is reset
--   Auth/LoginLimiter   internal/auth/password.go, LoginRateLimiter: IsLocked is is_locked, RecordFail
--                       is record_fail
--   Auth/PasswordHash   the same file: HashPassword is hash_password, VerifyPassword is verify_password;
--                       its text is parsed in Auth/PasswordHash/Parsing
--   Auth/Strength       the same file: ValidatePasswordStrength
--   Auth/Authenticator  internal/auth/auth.go with jwt.go, session.go and apikey.go: Login is login,
--                       AuthenticateRequest is authenticate_request
--   Auth/ApiKeys        the same file with apikey.go: GenerateAPIKey is generate_api_key, RevealAPIKey is
--                       reveal_api_key; Auth/Base64 is encoding/base64
--   Auth/Sessions       internal/auth/session.go: SessionManager, whose Generate and Invalidate nothing
--                       calls
--   Auth/Accounts       internal/auth/auth.go: creating, changing and deleting accounts
--   Database/System     internal/database/system.go: the tables, and the statements over users,
--                       api_keys and sessions; Database/System/ReplicationLog holds the tables of
--                       the replication, Database/System/AuditLog the audit log, where LogAudit is
--                       log_audit and a turn of the worker is receive
--   Database/Manager    internal/database/sqlite.go: Open is open_db, Close is close_db, CloseAll is
--                       close_all; Database/Manager/Listing has List and ListAll
--   Database/Executor   internal/database/executor.go: ExecuteContext is execute,
--                       ExecuteTransactionContext is execute_transaction
--   Monitor             internal/monitor/monitor.go: RecordQuery is record_query, Stats is stats
--   Backup              internal/backup/backup.go: CreateBackup is create_backup, RestoreBackup is
--                       restore_backup; pruneOldBackups of internal/server/server.go is
--                       prune_old_backups
--   Replication         internal/replication/replication.go: pollOnce is poll_once; replicaLoop is
--                       replica_loop, a poll at the start and one for each tick
--   Server/Queries      internal/server/routes.go: HandleQuery and HandleTransaction
--   Server/Users        the same file: the handlers of accounts, of logging in and of changing the own
--                       password; handle_user_request checks the role and runs the handler
--   Server/Keys         the same file: the handlers of API keys
--   Server/Maintenance  the same file: the handlers of backups and of the logs
--   Server/Status       the same file: the handlers of databases, of the statistics and of the health
--   Server/RateLimit    internal/server/middleware.go: rateLimitMiddleware is rate_limit
--   Server/Middleware   the same file: the other middleware, as functions on handlers
--   Server/Routes       internal/server/server.go: the routes of New, and serve, the handler of the server
--   Server/Administration  the server with its handlers of accounts
--   Server/Startup      the same file: New is new_server
--   Config              internal/config/config.go: Load is load_file, and its checks are load
--   Format              internal/format/table.go: Table is table
--   Client              internal/client/client.go: Login is login, Query is query
--   Commands/Shell      cmd/sparkdb/commands/shell.go: runShell is run_shell with shell_loop, one line of
--                       which is next_line; handleMeta is handle_meta
--   Commands/Import     cmd/sparkdb/commands/import.go: importCSV is import_csv, splitSQL is split_sql;
--                       importJSON is import_json in Commands/Import/Objects
--   Commands/Init       cmd/sparkdb/commands/init.go: the run of the command is init_project
--   Commands/Start      cmd/sparkdb/commands/start.go: run_start
--   Commands/Crypto     cmd/sparkdb/commands/crypto.go: run_gen_key, run_gen_cert, run_encrypt and
--                       run_decrypt
--   Commands/Admin      cmd/sparkdb/commands/admin.go: run_create_db and run_create_user
--   Commands/Backups    cmd/sparkdb/commands/backup.go: run_backup, run_restore and run_list_backups
--   Commands/Export     cmd/sparkdb/commands/export.go: runExport is run_export
--
-- State is passed along: an operation of the code that changes an object returns the object's new value
-- beside its result. The clock is the argument now, a natural number, since no code here reads a time
-- before the epoch; a time that is to be compared with another is read at the same call. Each operation
-- takes a mutex in the code, so a run of a server is a sequence of operations.
--
-- A table is the list of its rows in the order of their row ids. SQLite itself is not modelled: a
-- statement that the program sends is a function on the rows, with the UNIQUE constraints that the
-- schema declares. Other failures of the connection are left out, and so is the text format of times in
-- SQLite: a comparison with datetime('now') is one of clock readings. Password hashing, the signatures
-- of tokens and SHA-256 are the parameter Services of the authenticator; SignsTokens states what the
-- token library promises. Auth/PasswordHash has the hashing itself over the parameter Argon2.
--
-- What the executor calls of database/sql, with SQLite behind it, is the parameter Engine, of which
-- nothing is assumed; the database that the manager opens is an argument of the executor. The manager
-- itself works over the parameter Driver, and Confined states which files SQLite documents to touch.
-- AES-GCM is the parameter Aead, and Opens states that it opens what it sealed. Random bytes are
-- arguments. On the disk a write fails only where the path is not writable, and a file that is there
-- can be removed. The recursions are on lists, except that of poll_once, which is on fuel and gives
-- none where it has not come to its end: as many rounds as there are entries to apply, and one more,
-- are enough, and those of the batches of an import and of the decimal form of a number, on as much
-- fuel as there are rows and as the number says. Numbers, the parameter of the import, decides which
-- texts strconv reads as numbers; PlainNumbers states that such a text holds no quote, comma or
-- parenthesis. Commands/Import/Grammar is a reader of the literals of SQLite that the import writes.
--
-- A handler of the server is a function of a request and of what is behind the server; middleware takes
-- handlers to handlers, as in the code. Which route a request has is decided by the parameter mux, for
-- http.ServeMux. Wire is the HTTP exchange of the client with the readers of JSON.
--
-- Issuer is what tls.go calls of crypto/x509, encoding/pem and crypto/tls; Host is what init calls of
-- the operating system, with the JSON of its configuration. viper is a parameter too, with the defaults
-- and the environment.
--
-- Not modelled: the ticker of the polls, the text of HandlePrometheus, serving and stopping, and of
-- the commands health and stop; code that only calls a library (embedded files, processes, prompts)
-- has no logic to state.
pub mod Prelude
pub mod Text
pub mod Disk
pub mod Encryption
pub mod Rbac
pub mod Query
pub mod Auth
pub mod Database
pub mod Monitor
pub mod Backup
pub mod Server
pub mod Replication
pub mod Config
pub mod Format
pub mod Client
pub mod Commands
