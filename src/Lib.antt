-- ===== src/Lib.antt =====
-- yougpu-agent keeps a rented GPU machine in the state that its backend asks for. The backend streams
-- specifications; the agent makes one pass after another over the newest one (disks, content, saved
-- state, container, firewall, tunnel), reports what it observed, and, when the machine is to be
-- deleted, saves the workspace, flushes the disks and powers off.
--
-- The files and the code that they model:
--   Spec, Status      internal/client/types.go: the specification and the status.
--   Client            internal/client/client.go: do, parseRetryAfter, StreamSpec, the error tests.
--   Reconcile         internal/reconcile: the plan for the disks.
--   Fetch             internal/fetch/fetch.go: Clip, ClipTail, WorkspaceRoot, checkRedirect.
--   Uploads           internal/disk/manager.go (Uploads) and the sums of internal/lifecycle.
--   Lifecycle         internal/lifecycle/manager.go: HandleTermination and what it calls.
--   Archive           internal/state/archive.go: Unpack; Archive/Files is the file system that the os
--                     package shows, with symbolic links, and Archive/Paths the paths.
--   State             internal/state/manager.go and checkpoint.go: Restore, Save, Checkpoint, and the
--                     download of an archive (State/Download: download, fetchArchive) and the steps
--                     of a restore around it (State/Steps: restore, fetchVerified, layOverlay).
--   Content           internal/content/manager.go: plan (Content/Plan, with the paths of checkRel in
--                     Content/Paths), fetch, fill, download and clone (Content/Fetch), downloadRanged
--                     (Content/Ranges), fail (Content/Failures), pass, run, Reconcile (Content/Pass).
--   DiskManager       internal/disk/manager.go and remotes.go: Mount, Unmount, the units, the remote
--                     control of rclone, the quota, the sections of its configuration.
--   Agent             internal/agent/agent.go: intake and the inbox (Agent/Intake), reconcileDisks,
--                     diskHold and followRemounts (Agent/Disks), containerReadiness
--                     (Agent/Readiness), handleSpec and terminate (Agent/Handle).
--   Container         internal/container/manager.go: Reconcile and what it calls, runArgs.
--   Firewall          internal/firewall/manager.go.
--   Tunnel            internal/tunnel/manager.go: Reconcile, Status, buildConfig.
--   Prelude           shared names, Go's texts and decimals, stateful and fallible code.
--   Examples          concrete inputs.
--
-- Code that changes state takes the state and returns the result with the new state (Run, and Exec
-- where it may fail). What the program calls outside of itself, such as systemd, ufw, docker, HTTP
-- and the clock, is a record of operations on a world W (Host, Parts, Docker, Ufw, Http) over which the
-- definitions are parametric; what is relied on of them stands in records of laws (Lawful, Closed,
-- Counted, Clock, IsAside). Mutexes are left out: each operation that takes one is a single step. Times are natural
-- numbers of milliseconds. A duration in the client, the interval of the checkpoints and the counts of
-- an archive are numbers of 64 bits with their wrap-around (Prelude/Int64). Texts are sequences of
-- code points, so bytes that are not UTF-8 do not occur.
--
-- Loops are recursion on their lists. The wait for the endpoints of a container takes a number of
-- rounds, one more than the units of time up to its deadline being enough; printing a number n has
-- n + 1 rounds, and each drops a digit. The attempts of a range and the goroutines of the eight ranges
-- are turns of a relation, in any order; so are the rounds of fetchArchive, which end with the context,
-- and the questions of Unmount.
--
-- Not modelled: the progress of image pulls and of content that is read, the packing of archives,
-- host setup, ssh keys, the configuration, and the goroutines and timers of Run. Where the modelled
-- parts use them, they are parameters.
pub mod Prelude
pub mod Spec
pub mod Status
pub mod Reconcile
pub mod Fetch
pub mod Uploads
pub mod Lifecycle
pub mod Archive
pub mod State
pub mod Agent
pub mod Firewall
pub mod Client
pub mod Examples
pub mod Container
pub mod Content
pub mod DiskManager
pub mod Tunnel
