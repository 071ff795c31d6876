-- ===== src/Lib.antt =====
-- The services of radicle-client-services: the git server, which lets peers push to a node over
-- HTTP and has two hooks of git check and record what they push, and the HTTP API, which shows the
-- node's projects to browsers and keeps their sessions.
--
-- How the parts work together. A request to the git server (git-server/src/lib.rs) names a project
-- by its urn or by an alias. For a push the server loads the authorized keys; it looks up the
-- delegates of the project and runs git-http-backend with both in its environment. git runs the
-- pre-receive hook (git-server/src/hooks/pre_receive.rs), which accepts the push only if its
-- certificate is good, its key is allowed, and every reference belongs to the key's peer, and the
-- post-receive hook (hooks/post_receive.rs), which then sets the head of the project, writes and
-- verifies its identity and tracks its delegates. The server parses git's reply into the response.
-- The HTTP API (http-api/src) reads the same repository and holds three maps, each behind a lock
-- of its own: the sessions, which its handlers and a cleanup job change, the peers by the
-- fingerprints of their keys, which another job fills and which the handlers look the signers of
-- commits up in, and the aliases of projects. No handler writes to two of them, so that the life of
-- the API is a sequence of requests and of rounds of the jobs, in any order (HttpApi.Server.Runs).
--
-- Files:
--   Base       texts as lists of bytes, lists, maps, results, and code that changes a state
--   Extern     what the services call that is not in the repository, as records of functions, with
--              records of laws that say what the theorems rely on: peer ids and keys (Peers),
--              identity documents (Identity), the repository and its tracking (Monorepo), the
--              environment (Vars), processes and files (Process, Backend), transactions of
--              references (Transaction), the configuration of git (GitConfig), what the HTTP API
--              reads (Api), browsers of a repository (Surf), patches and issues (Cobs), profiles,
--              keys and their files (Keystore), and what axum reads of a request (Axum)
--   GitServer  Error (src/error.rs), RefName (parse_ref of src/lib.rs), Context (the options, the
--              authorized keys and get_meta of src/lib.rs), Config (the git config that src/lib.rs
--              sets at the start), Body (the loop of git that copies a body), Alias (the alias
--              cache and the first part of git_handler), Handler (git and git_handler), Response
--              (the parser of git's reply, a part of git), Hooks.Types and Hooks.CertStatus
--              (hooks/types.rs), Hooks.Signer (hooks/mod.rs), Hooks.Updates (the lines that a hook
--              reads), Hooks.Delegates (the delegates that the hooks and get_meta read),
--              Hooks.PreReceive and Hooks.PostReceive (the hooks), Storage (hooks/storage.rs),
--              Start (the first half of run of src/lib.rs), Programs (src/main.rs and bin), Push (the
--              server and the pre-receive hook together), Server (the route of src/lib.rs, and the
--              cache over any requests)
--   HttpApi    Error (src/error.rs), Auth (src/auth.rs), Sessions (src/v1/sessions.rs and
--              cleanup_sessions of src/lib.rs), Pages and Commits (history_handler of
--              src/v1/projects.rs), Changeset (Changeset::stats there), Head (get_head_commit of
--              src/lib.rs), Projects (the lists of projects of src/v1/projects.rs and
--              src/v1/delegates.rs, src/v1/stats.rs, and project_info of src/lib.rs), Aliases (the
--              alias cache of src/lib.rs and its handler), Fingerprints (populate_fingerprints and
--              its job of src/lib.rs, tracked of src/project.rs), Browse, Source, Remotes and Cobs
--              (browse, the handlers of commits, activity, trees, files and readmes, those of
--              remotes, and those of patches and issues of src/v1/projects.rs); Sessions.Job is
--              cleanup_sessions_job; AxumExtra (src/axum_extra.rs), Routes (the routers of src/v1
--              and src/lib.rs), Reply (the responses), Server (every handler with its arguments
--              and its response, Context, and the jobs), Programs (src/main.rs)
--   Shared     the profile and the signer of a service, and identity files (shared/src)
--   Checks     the interfaces on small data, the theorems at concrete inputs, and tests
--
-- A definition has the name of its function, in lower case with underscores. A function that fails
-- returns an Outcome: a value, an error, or a panic. One that changes the repository or a map
-- returns the new state beside it (Base.Action), also when it fails. Loops are structural
-- recursion, but for the one that copies a body, which is on fuel: one more than the bytes that
-- remain at its start, which is enough because each round steps over a byte at least
-- (Body.Copying). The jobs of the HTTP API never end, and are modelled by their first rounds, any
-- number of them. A text is the list of the bytes of its UTF-8 form, and slices panic as in Rust,
-- when they are out of range or cut a character. Products of pages wrap at 2 ^ 64, as in a release
-- build on a machine of that width. Logging is left out. Sets and maps are lists; where the order
-- of a hash table shows, it is a function of the interface.
--
-- A request to the API is what axum makes of it: which pattern of the routers its path matches, and
-- the arguments of its handler, are functions of the interface. JSON is the value that it is made of.
--
-- Not modelled: TLS, the layers for CORS and tracing, logging, the reading of command lines, paths
-- and queries; what radicle-source, radicle-surf, radicle-common and librad compute, which is a
-- parameter; the fixtures of the tests; build files and scripts.
pub mod Base
pub mod Extern
pub mod GitServer
pub mod HttpApi
pub mod Shared
pub mod Checks
