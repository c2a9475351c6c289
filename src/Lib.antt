-- ===== src/Lib.antt =====
-- A verification library for ReCasaOS-UserService, the service that keeps the accounts, passwords and
-- sessions of a ReCasaOS installation.
--
-- How the service works. Setup creates one administrator, under a state machine in the database
-- and a seal outside it (pkg/userbootstrap). A login (route/v1/user.go) verifies an Argon2id hash
-- (pkg/password, service/user.go) and gets a pair of tokens (pkg/authsecurity/session.go,
-- service/session_issue.go), of which the refresh token belongs to a row of the session store
-- (service/session.go). Every protected route first runs the middleware of route/auth.go, which asks
-- the token library and the session store. The handlers turn results into replies, and keep a
-- user's custom configuration in files (pkg/userconfig). The program's local commands (main.go) take
-- the process lock (pkg/processlock), read their secrets from files of systemd, check where the seal
-- (pkg/userbootstrap/file_seal.go) stands, open the database (pkg/sqlite) and call service/user.go;
-- the daemon registers itself with the gateway (pkg/gatewayclient).
--
-- The files:
--   Model: the tables and their rows (service/model).
--   Store: the state of a running service (tables, clock, random source, seal, failing statements),
--     results, and the monad in which every operation is written; Store/Keeps: invariants of calls;
--     Store/Returns: calls that never fail; Store/Brings: what a call that succeeds brings about.
--   Tokens: pkg/authsecurity/session.go.
--   Session/Access, Refresh, Lockout, Events, Prune: service/session.go; Session/Issue:
--     service/session_issue.go; Session/Runs: histories of calls.
--   Auth/Header, Auth/Middleware: route/auth.go.
--   Bootstrap/Identifier, State, Create: pkg/userbootstrap/bootstrap.go; Bootstrap/FileSeal:
--     pkg/userbootstrap/file_seal.go, with its contract in FileSeal/Register.
--   Password: pkg/password/password.go.
--   Users: service/user.go; Users/Lookup: its lookups; Users/Reset: its bootstrap command and the
--     two resets, where `Schema` says what a database of an older release lacks.
--   Handlers/Login, Profile, Password, Sessions, Accounts, Custom: route/v1/user.go; Handlers/Hidden:
--     what their replies leave out.
--   Files: what the operating system tells of a file, and errors of file code; Files/Disk: the
--     directories and the calls on them, with rules for what a call leaves (Leaves), returns (Gives)
--     and brings about (Ensures), and for calls that return (Succeeds).
--   UserConfig/Key, Place, Store: pkg/userconfig/store.go.
--   Main/Credential, Placement, Start, Command: main.go.
--   ProcessLock: pkg/processlock/lock.go. Database: pkg/sqlite/db.go.
--   Gateway: pkg/gatewayclient/gatewayclient.go.
--   Prelude: shared names and lists; Samples and the Tests: runs on small tables.
-- A Go method X of the source is a definition x, and a closure or a block inside it has a name of its own.
--
-- How state is modelled. An operation is a function from a `World` to a result and a `World`. Every
-- statement of the database either runs at once or fails and changes nothing; `fails` says which,
-- so a theorem on all worlds is a theorem on all patterns of failure. A transaction that fails
-- restores the tables. What other requests commit outside a transaction is an arbitrary change of
-- the tables (`interleave`) at these points only. The login (PostUserLogin and IssueLoginSession):
-- before the password is verified, before the compare-and-swap of an upgraded hash, before the
-- failures are reset, before the user is looked up for the session, before the row is stored and
-- before the pruning (`LoginMoment`). The refresh (IssueRefreshedTokens and RotateRefreshSession):
-- before the lookup of the user, before the rotation, before the family of a replayed token is
-- revoked, before the credential generation advances, and before each of the two calls after a
-- rotation that succeeded (`Moment`). The middleware: between the two reads. ChangeUserPassword:
-- before the compare-and-swap. Every other operation runs from its first statement to its last
-- without another request in between, and requests meet as sequences of calls (Session/Runs). The
-- file code works in the same way on a `Disk`, where each call may fail and a failed write may
-- leave part of its bytes. A local command runs on a `Machine`: a `Disk`, on which it opens the
-- database, and the tables as the open database shows them, which opening does not change.
--
-- Parameters: the JWT library, SHA-256 and the keys (`Crypto`), Argon2id and base64 (`Kdf`, with
-- `KdfLaws`), the random source, the seal (`Seal`), of which `SealLaws` says that it stands outside
-- the database, what the system answers about the directories and files that are only inspected
-- (`Place`, `SealDirectory`, `CredentialSource`, `PathSystem`, `LockFile`, `DatabaseDirectory`,
-- `RuntimeFile`), the libraries for URLs and HTTP (`Libraries`), gorm's connection and migration,
-- and what the web framework, the rate limiters and the decoders make of a request. Times are
-- natural numbers of nanoseconds and user ids natural numbers. All loops are structural recursion
-- but two: the loop over the ancestors of a path has one turn more than the path has components,
-- which is enough (`enough_turns`), and os.CreateTemp tries 10000 names, as the library does.
--
-- Not modelled: the validators of older tokens, the daemon's start-up (runServer), the routers and
-- CORS, the generated code and the build scripts; what is sent to the log and to the message bus but
-- for the contents of a saved configuration; waits, timeouts and the work that only equalises
-- timing; and the erasure of secrets in memory. Another request of the same user that acts while
-- Write runs is left out; Read lets others act between its inspection of the file and the opening.
-- Create of the seal lets others act before it links its file, and its calls of Load do not.
-- Left out too is what another request commits between the statements of an operation that is not
-- listed above: logout and logout-all, the saving of a profile, DeleteUserById, the counting of failures
-- and the pruning; and in setup and the two resets, which run under the process lock that keeps the
-- daemon out.
mod Prelude
mod Samples
pub mod Model
pub mod Store
pub mod Tokens
pub mod Session
pub mod Auth
pub mod Bootstrap
pub mod Password
pub mod Users
pub mod Files
pub mod UserConfig
pub mod Handlers
pub mod Main
pub mod ProcessLock
pub mod Database
pub mod Gateway
