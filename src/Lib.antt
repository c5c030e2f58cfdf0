-- ===== src/Lib.antt =====
-- GoblinFTP: a web client for FTP and SFTP servers. The Go backend keeps browser sessions, each with
-- a connection to a server, and translates requests into calls of the protocol client. This library
-- models its core, as functions by clauses over explicit state.
--
-- Parts, and how they interact. A login passes the throttle and the session store's admission, then
-- gets a session, whose cookie and CSRF token the later requests bring; a signed link first becomes
-- a pending login, once, by the set of used tokens. The handlers validate
-- the paths of a request, take the session's transfer lock, and call the client; its errors go
-- through the adapter's and the API's classification, which may drop the client from the session. An
-- upload is reserved against the budget of temporary storage, staged chunk by chunk, and committed;
-- a sweeper takes away what abandoned uploads leave.
--
-- Files and the code they are about (paths from the repository's root):
--   Base: Boolean tests, lists and texts over native numbers, and Go maps as association lists.
--   Text: the functions of Go's strings, unicode, path, strconv, encoding/base64 and encoding/hex that
--     the program calls, over bytes.
--   Paths: backend/internal/transfer/paths.go, api/paths.go, and safeJoin of api/archive.go.
--   Auth/Throttle: backend/internal/auth/throttle.go, and Throttle.Reserve of admission.go.
--   Auth/Session, Auth/Store: backend/internal/auth/session.go, and Store.Reserve and SetExpiry of
--     admission.go. Auth/Store/Sweep is evict, with its callers.
--   Cookies: backend/internal/api/cookie.go, and clientScheme of api/proxy.go. Guards: csrfMiddleware
--     and requireSession of api/router.go.
--   Sso/UsedSet: backend/internal/sso/usedset.go. Sso/World, Sso/Login, Sso/Connect, Sso/Status: the
--     handlers of api/sso.go.
--   HostKeys: backend/internal/sftp/knownhosts.go; HostKeys/Repin rewrites the file.
--   Errors: backend/internal/errors/errors.go. Errors/Chain: Go error values, with the sentinels of
--     transfer/client.go. Errors/Ftp, Errors/Sftp: ftp/errclass.go and sftp/errclass.go.
--     Errors/Classify: api/errclass.go and api/connlost.go.
--   Resources: the budget of backend/internal/api/resources.go.
--   Staging: backend/internal/staging/sweeper.go, and ValidateUploadID of transfer/upload.go.
--   Remote: the interface of backend/internal/transfer/client.go, and ensureDirAll of api/files.go.
--   Upload: backend/internal/transfer/upload.go and api/upload.go; Upload/Handlers has reserve,
--     chunk and abort, Upload/Commit has commit, Upload/Chunks the chunks on disk. Upload/Conflicts:
--     api/upload_conflict.go. Upload/Evict: api/session_close.go, and Disconnect of api/connect.go.
--   Archive: the extraction of backend/internal/api/archive.go; Archive/Handler is ExtractArchive,
--     Archive/Preflight backend/internal/api/zip_preflight.go.
--   Editor: backend/internal/api/editor.go. Downloads: api/download.go.
--   Files: backend/internal/api/files.go; Files/Tree has copyTree, with the quota of api/resources.go.
--   Login: Connect of backend/internal/api/connect.go, and api/dialerror.go.
--   Tokens: backend/internal/transfer/token.go, sso/token.go and auth/csrf.go.
-- A function has the name of its Go function, in snake_case; a method takes the state first and
-- gives the new state.
--
-- Conventions. A method that holds a mutex is one step. Objects that several maps or closures share
-- stand in a memory, under an address (Throttle.cells, Store.objects, World.metas); a closure with a
-- sync.Once that a method returns is an index into a list of the state. Clock readings, random
-- bytes, what the file system answers and the polls of a lock are arguments. Times count from Go's
-- zero time, which is 0. Sizes and counters are natural numbers, far below 2 ^ 63; where the source
-- tests for a negative number, the argument is an integer. The protocol client, the chunk store and
-- the cryptography are records of functions (Client, ChunkStore, Crypto), as is golang.org/x/crypto/ssh
-- (Ssh); strings.ToLower, utf8.ValidString and HMAC are function arguments.
--
-- Fuel: ensure_dir_all_created goes up from a path to the root; each parent of a clean path is
-- shorter, so the length of the path and one more is enough. unique_loop tries one candidate more
-- than there are names taken. read_loop has a round for each chunk that is not yet opened, one for the
-- open one, and one more. digits has more fuel than the number. copy_tree_depth goes down 65 levels,
-- as the source does. A call that waits for ever is `none` (Login, Sso/Connect). All other recursion is
-- structural.
--
-- Not modelled: the texts of fixed responses, logging, metrics and error reports; request decoding;
-- the making of archives and their download; the algorithms of cryptography; the protocol
-- adapters beyond their errors and host keys, the protocol libraries and the S3 store; configuration,
-- and the frontend.
pub mod Base
pub mod Text
pub mod Paths
pub mod Auth
pub mod Sso
pub mod Errors
pub mod Resources
pub mod Remote
pub mod Upload
pub mod Archive
pub mod Files
pub mod Staging
pub mod Tokens
pub mod Login
pub mod Cookies
pub mod Guards
pub mod HostKeys
pub mod Editor
pub mod Downloads
