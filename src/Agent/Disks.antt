-- ===== src/Agent/Disks.antt =====
-- internal/agent/agent.go: observeDisks, reconcileDisks, diskHold and followRemounts.
pub mod Report
pub mod Remounts
use yougpu_agent.Prelude.{
  ℕ, String, Bool, true, false, not, ◌&&◌, ◌||◌, Option, none, some, List, [], ◌∷◌, ◌++◌, ◌==◌,
  ◌<>◌, has, is_empty, is_some, if◌then◌else◌, Run, pure, gets, modify, ◌>>=◌, ◌>>◌,
}
use yougpu_agent.Prelude.Result.{Result, ok, err}
use yougpu_agent.Fetch.{clip}
use yougpu_agent.Spec.{AgentSpec, AgentDiskSpec, desired_mounted}
use yougpu_agent.Status.{
  AgentDiskObserved, DiskState, mounted, unmounted, ContainerState, running, ready,
}
use yougpu_agent.Reconcile.{
  Action, mount_disk, unmount_disk, unmount_orphan, ObservedState, reconcile,
}
use yougpu_agent.Agent.{Agent, Parts, Act, DiskError, flushing, broken, call}

abbrev pub nothing_observed : ObservedState
nothing_observed = record { mounted_disk_ids = []; unit_disk_ids = [] }

-- The loop of observeDisks over the units: an active unit is a mounted disk.
abbrev pub add_unit : String → Result String Bool → ObservedState → ObservedState
add_unit id (ok true) o = record {
  mounted_disk_ids = id ∷ o.mounted_disk_ids;
  unit_disk_ids = id ∷ o.unit_disk_ids;
}
add_unit id (ok false) o = record o { unit_disk_ids = id ∷ o.unit_disk_ids }
add_unit id (err e) o = record o { unit_disk_ids = id ∷ o.unit_disk_ids }

-- The errors of reconcileDisks by disk, the last one first: a later one hides an earlier one.
abbrev pub Errors : Type 0
Errors = List (String × String)

abbrev pub error_of : Errors → String → Option String
error_of [] id = none
error_of ((j, e) ∷ errs) id = if j == id then some e else error_of errs id

abbrev pub max_error : ℕ
max_error = 1024

abbrev pub max_container_detail : ℕ
max_container_detail = 64

-- Whether an error of an action is reported: not while a disk still uploads, nor for an orphan.
unfoldable pub note_error : Action → Option DiskError → Errors → Errors
note_error a none errs = errs
note_error (mount_disk d) (some (broken e)) errs = (d.id, clip e max_error) ∷ errs
note_error (mount_disk d) (some flushing) errs = (d.id, "disk cache is still uploading") ∷ errs
note_error (unmount_disk id) (some (broken e)) errs = (id, clip e max_error) ∷ errs
note_error (unmount_disk id) (some flushing) errs = errs
note_error (unmount_orphan id) (some e) errs = errs

unfoldable pub disk_state : Bool → Option String → DiskState
disk_state up none = if up then mounted else unmounted
disk_state up (some e) = DiskState.error

unfoldable pub disk_reports : List String → Errors → List AgentDiskSpec → List AgentDiskObserved
unfolding disk_state
disk_reports up errs [] = []
disk_reports up errs (d ∷ ds) =
    record {
      id = d.id;
      observed_state = disk_state (has up d.id) (error_of errs d.id);
      last_error = error_of errs d.id;
    }
    ∷ disk_reports up errs ds

-- The text of diskHold for the first wanted disk that is not mounted; `base` is filepath.Base.
unfoldable pub hold_name : (String → String) → AgentDiskSpec → String
hold_name base d =
    if is_empty d.mount_path || base d.mount_path == "/" || base d.mount_path == "."
    then d.id
    else base d.mount_path

unfoldable pub first_hold : (String → String) → List String → List AgentDiskSpec → String
unfolding hold_name
first_hold base up [] = ""
first_hold base up (d ∷ ds) =
    if not (d.desired_state == desired_mounted) || has up d.id
    then first_hold base up ds
    else clip ("ждём диск " <> hold_name base d) max_container_detail

abbrev pub id_of : List (String × String) → String → String
id_of [] id = ""
id_of ((j, v) ∷ ids) id = if j == id then v else id_of ids id

-- The id noted for a wanted disk: the one that systemd tells, else the one known before.
abbrev pub current_id : Result String String → String → String
current_id (ok now) before = if is_empty now then before else now
current_id (err e) before = before

-- The ids noted for the disks behind come first: what is stored later in the map stays.
abbrev pub note_id : String → String → List (String × String) → List (String × String)
note_id id now ids = if is_empty now || not (is_empty (id_of ids id)) then ids else (id, now) ∷ ids

-- Whether a disk that had a mount id before has another one now.
unfoldable pub remounted : List (String × String) → List (String × String) → Bool
remounted before [] = false
remounted before ((id, now) ∷ ids) =
    not (is_empty (id_of before id)) && not (id_of before id == now) || remounted before ids

unfoldable pub is_alive : ContainerState → Bool
is_alive running = true
is_alive ready = true
is_alive ContainerState.pulling = false
is_alive ContainerState.starting = false
is_alive ContainerState.absent = false
is_alive ContainerState.error = false

module _ {W : Type 0} (parts : Parts W) where
  unfoldable pub observe_units : List String → Run W ObservedState
  observe_units [] = pure nothing_observed
  observe_units (id ∷ ids) = do
    active ← parts.is_active id
    rest ← observe_units ids
    pure (add_unit id active rest)

  unfoldable pub observe_listed : Result String (List String) → Run W ObservedState
  observe_listed (err e) = pure nothing_observed
  observe_listed (ok ids) = observe_units ids

  unfoldable pub observe_disks : Run W ObservedState
  unfolding observe_listed
  observe_disks = do ids ← parts.list_units; observe_listed ids

  unfoldable pub perform : Action → Run W (Option DiskError)
  perform (mount_disk d) = parts.mount d
  perform (unmount_disk id) = parts.unmount id
  perform (unmount_orphan id) = parts.unmount id

  -- The loop over the actions, which ends early when the work is cancelled.
  unfoldable pub perform_all : List Action → Errors → Run W Errors
  perform_all [] errs = pure errs
  perform_all (a ∷ actions) errs = do
    stop ← parts.cancelled
    let go : Run W Errors = (do e ← perform a; perform_all actions (note_error a e errs))
    if stop then pure errs else go

  -- reconcileDisks
  unfoldable pub reconcile_disks : AgentSpec → Run W (List AgentDiskObserved)
  reconcile_disks spec = do
    before ← observe_disks
    errs ← perform_all (reconcile (some spec) before) []
    after ← observe_disks
    pure (disk_reports after.mounted_disk_ids errs spec.disks)

  -- diskHold
  unfoldable pub disk_hold : (String → String) → AgentSpec → Run W String
  disk_hold base spec = do
    seen ← observe_disks
    pure (first_hold base seen.mounted_disk_ids spec.disks)

  unfoldable pub mount_ids :
      List (String × String) → List AgentDiskSpec → Run W (List (String × String))
  mount_ids before [] = pure []
  mount_ids before (d ∷ ds) = do
    let ask : Run W (List (String × String)) = (do
      id ← parts.mount_id d.id
      rest ← mount_ids before ds
      pure (note_id d.id (current_id id (id_of before d.id)) rest))
    let skip : Run W (List (String × String)) = mount_ids before ds
    if d.desired_state == desired_mounted then ask else skip

  unfoldable pub forget_readiness : Act W (Unit {0})
  forget_readiness = modify (λ a. record a { ready_hash = ""; waited_hash = "" })

  unfoldable pub restart : Act W (Unit {0})
  unfolding forget_readiness
  restart = do ignored ← call parts.container_restart; forget_readiness

  -- followRemounts
  unfoldable pub follow_remounts : AgentSpec → ContainerState → Act W (Unit {0})
  unfolding restart
  follow_remounts spec state = do
    before ← gets (λ a. a.mount_ids)
    was_alive ← gets (λ a. a.container_alive)
    now ← call (mount_ids before spec.disks)
    if is_alive state && was_alive && remounted before now then restart else pure tt
    modify (λ a. record a { container_alive = is_alive state; mount_ids = now })
