-- ===== src/Lib.antt =====
-- A desktop companion daemon: it watches an operator's work, runs coding agents in git worktrees, and
-- changes the operator's repositories and terminals only behind approvals. This library models the parts
-- that decide, and what they promise.
--
-- Parts and files (paths from the repository's root):
-- - Policy: crates/rat-policy/src/lib.rs, the risk tiers, and the two conversions between a tier and the
--   stored integer (`tier_to_i64` of crates/rat-workbench/src/runner.rs, the match in the approvals handler
--   of crates/rat-daemon/src/server.rs).
-- - Store: crates/rat-store/src/store.rs. Store/Sql is SQLite as an interface (one table, four statements);
--   Store/Approvals, Store/Runs, Store/Pins, Store/Prune, Store/Events (with the projects),
--   Store/Observations, Store/Sessions, Store/Pushbacks (with API calls and disclosures), Store/Blobs,
--   Store/DotfileEdits, Store/Terminals (with voice utterances), Store/Memories and Store/Embeddings (with
--   the full-text search) have a function for each `do_...` function. Store/Actor is the thread that owns
--   them all: its commands and what each answers, the arm of each (Serve), the channel and the loop (Loop),
--   and the methods of `Store` (Client). What happens there is a list of sends, turns and the thread's end.
-- - Workbench: crates/rat-workbench/src/worktree.rs (Workbench/Git, over git as an interface) and runner.rs
--   of the same crate: `execute_merge` and `deny` (Workbench/Merge), `poll` (Workbench/Poll, over tmux as an
--   interface), the command lines (Workbench/Command), `start_with_backend` (Workbench/Start) and `merge_back`
--   (Workbench/MergeBack). The last two run on a machine as an interface (Workbench/Host, with tmux.rs of the
--   same crate) and its worktrees (Workbench/Worktree).
-- - Daemon: the handler of approvals/decide in server.rs (Daemon/Decide), which calls the store, the policy
--   and the runner; crates/rat-daemon/src/sessionizer.rs (Daemon/Sessionizer); ingest.rs (Daemon/Ingest),
--   the way of an event into the tables of the store and on to the sessionizer; mode.rs
--   (Daemon/Mode); the keys of pins.rs as text (Daemon/PinKeys);
--   sensors_health.rs (Daemon/Sensors); and the server of server.rs with the wire types of
--   crates/rat-proto/src/lib.rs (Daemon/Server): the messages (Wire, Dto), the arms of the methods (Arms,
--   Workbench, Listings, Edits) and the connection (Connection), over the store's actor.
-- - Dotfile: crates/rat-dotfile/src/lib.rs, edits of configuration files: the comments (Dotfile/Jsonc), the
--   validation (Dotfile/Validate), and the write and its revert (Dotfile/Apply) over the file system as an
--   interface (Dotfile/Files).
-- - Brain: crates/rat-brain/src/governor.rs (Brain/Governor), over the floats as an interface; detect.rs
--   (Brain/Detect); critic.rs (Brain/Critic), which asks a language model, a parameter here, and shows what
--   it says only under the governor.
-- - Inject: crates/rat-inject/src/lib.rs, from an approved request to the keystrokes.
-- - Memory: crates/rat-memory/src/jobs.rs, the retention steps of the nightly job (Memory/Nightly), over
--   the tables of Store; retrieve.rs, the search over observations and memories (Memory/Retrieve), with
--   `cosine` of embed.rs, over the store's actor and the floats as an interface.
-- - Terminal: crates/rat-terminal/src/lib.rs, which processes are agents and whose; the walk up the parents
--   runs on fuel.
-- - Voice: crates/rat-voice/src/approval.rs, slug.rs, prewake.rs and the intents of intent.rs.
-- - Prelude: shared names and lemmas. Examples: small instances of the interfaces, and runs on them.
--
-- State is a record or a table, passed in and returned beside the result; an error is the `err` of a
-- result type. Times and counts are natural numbers: they are milliseconds since the epoch or lengths,
-- and a difference of times is compared by adding to the other side where it could be negative. The clock,
-- fresh ids and the random parts are arguments.
--
-- Fuel: the deletion loops run on fuel, and `none` means that it ran out; the job gives one more than the
-- rows of the table, which is enough, since each full batch removes at least one row. The walk up the parents has two
-- more than the processes, which is enough where no process is its own ancestor. The search for a git
-- root has the code's own bound of twenty directories.
--
-- Not modelled: sockets, tasks, logging and failures of the disk under SQLite; calls of the ingest
-- pipeline that overlap, since it lets go of its lock before it writes; the models, embeddings and ciphers of
-- other crates; the sensors, the screen and OCR; the full-text index and the embedders; the
-- desktop shell: I/O, code of other packages, or another language.
mod Prelude
pub mod Policy
pub mod Store
pub mod Terminal
pub mod Inject
pub mod Brain
pub mod Workbench
pub mod Daemon
pub mod Dotfile
pub mod Memory
pub mod Voice
pub mod Examples
