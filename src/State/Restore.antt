-- ===== src/State/Restore.antt =====
-- internal/state/manager.go: Restore, startRestore, the end of runRestore, and stopRestore. The
-- goroutine of a restore is the step `finish`, which the world may take at any time.
pub mod Gate
use yougpu_agent.Prelude.{
  ℕ, String, Bool, true, false, not, ◌||◌, ◌&&◌, Option, none, some, ◌==◌, ◌<>◌, itoa, is_empty,
  is_some, if◌then◌else◌, Run, pure, gets, modify, ◌>>=◌, ◌>>◌,
}
use yougpu_agent.Fetch.{workspace_root}
use yougpu_agent.Spec.{AgentStateSpec, AgentContainerSpec, StateRestore, StateOverlay}
use yougpu_agent.Status.{AgentStateObserved, waiting, restoring, restored, restore_failed}
use yougpu_agent.State.{
  Manager, Act, RestoreJob, Written, Error, plain, final, restored_marker, plain_obs, has, report,
  failed, write_file,
}

archive_key : Option StateRestore → String
archive_key none = "none"
archive_key (some a) = a.sha256 <> (":" <> itoa a.size_bytes)

overlay_key : Option StateOverlay → String
unfolding archive_key
overlay_key none = ""
overlay_key (some o) = "+" <> archive_key (some o.archive)

unfoldable pub restore_key : AgentStateSpec → String
unfolding archive_key overlay_key
restore_key spec = archive_key spec.restore <> overlay_key spec.overlay

abbrev pub new_job : String → RestoreJob
new_job key = record { key = key; finished = false; stopped = false; result = none }

abbrev pub as_error : Option String → Option Error
as_error none = none
as_error (some e) = some (plain e)

module _ {W : Type 0} where
  -- A new job takes the place of the old one, which has ended by then.
  unfoldable pub start_new : String → Act W AgentStateObserved
  start_new key m = (plain_obs restoring, record m { job = some (new_job key) })

  unfoldable pub ended_job : Option AgentStateObserved → Bool → String → Act W AgentStateObserved
  unfolding start_new
  ended_job (some result) true key m = (result, m)
  ended_job (some result) false key m = start_new key m
  ended_job none same key m = start_new key m

  unfoldable pub with_job : Option RestoreJob → String → Act W AgentStateObserved
  unfolding start_new ended_job
  with_job none key m = start_new key m
  with_job (some j) key m =
      if j.finished
      then ended_job j.result (j.key == key) key m
      else if j.key == key
      then (plain_obs restoring, m)
      else start_new key m

  unfoldable pub start_restore : AgentStateSpec → Act W AgentStateObserved
  unfolding with_job
  start_restore spec m = with_job m.job (restore_key spec) m

  unfoldable pub stop_job : Option RestoreJob → Act W (Unit {0})
  stop_job none m = (tt, m)
  stop_job (some j) m = (tt, record m { job = some (record j { finished = true; stopped = true }) })

  -- stopRestore: cancels the job and waits for its end.
  unfoldable pub stop_restore : Act W (Unit {0})
  unfolding stop_job
  stop_restore m = stop_job m.job m

module _ {W : Type 0} (write : String → Run W Written) where
  unfoldable pub nothing_to_restore : Option String → Act W (Bool × Option AgentStateObserved)
  nothing_to_restore none = pure (true, some (plain_obs restored))
  nothing_to_restore (some e) = do obs ← failed restore_failed (plain e); pure (false, some obs)

  unfoldable pub restore_into : AgentStateSpec → String → Act W (Bool × Option AgentStateObserved)
  restore_into spec root =
      if is_empty root
      then (do
        obs ← failed restore_failed (plain "no /workspace volume to restore state into")
        pure (false, some obs))
      else (do obs ← start_restore spec; pure (false, some obs))

  unfoldable pub restore_spec :
      AgentStateSpec → Option AgentContainerSpec → Act W (Bool × Option AgentStateObserved)
  unfolding nothing_to_restore restore_into
  restore_spec spec container m =
      if has restored_marker m
      then ((true, some (plain_obs restored)), m)
      else if spec.pending
      then ((false, some (plain_obs waiting)), m)
      else if not (is_some spec.restore) && not (is_some spec.overlay)
      then (do e ← write_file write restored_marker "none"; nothing_to_restore e) m
      else restore_into spec (workspace_root container) m

  -- Restore: whether the container may start, and what to report.
  unfoldable pub restore :
      Option AgentStateSpec → Option AgentContainerSpec → Act W (Bool × Option AgentStateObserved)
  unfolding restore_spec
  restore none container m = ((true, none), m)
  restore (some spec) container m = restore_spec spec container m

  unfoldable pub settle : RestoreJob → Option Error → Act W (Unit {0})
  settle j none = do
    obs ← report (plain_obs restored)
    modify (λ m. record m { job = some (record j { finished = true; result = some obs }) })
  settle j (some e) = do
    obs ← failed restore_failed e
    modify (λ m. record m { job = some (record j { finished = true; result = some obs }) })

  unfoldable pub mark_restored : RestoreJob → Option Error → Act W (Option Error)
  mark_restored j (some e) = pure (some e)
  mark_restored j none = do
    failure ← write_file write restored_marker j.key
    pure (as_error failure)

  unfoldable pub finish_job : Bool → Option Error → Option RestoreJob → Act W (Unit {0})
  finish_job cancelled e none m = (tt, m)
  finish_job cancelled e (some j) m =
      if j.finished
      then (tt, m)
      else if j.stopped || cancelled
      then (tt, record m { job = some (record j { finished = true }) })
      else (do e' ← mark_restored j e; settle j e') m

  -- The end of runRestore: the archive's restoring has ended with the error e, if any, and
  -- `cancelled` is whether the context of the agent has ended.
  unfoldable pub finish : Bool → Option Error → Act W (Unit {0})
  unfolding finish_job mark_restored settle
  finish cancelled e m = finish_job cancelled e m.job m
