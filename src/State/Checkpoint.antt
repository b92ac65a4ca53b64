-- ===== src/State/Checkpoint.antt =====
-- internal/state/checkpoint.go: when a checkpoint is started, and what one run of it does.
pub mod Interval
use yougpu_agent.Prelude.{
  ℕ, ℤ, pos, negsuc, suc, ◌+◌, ◌*◌, ltb, leb, eqb, String, Bool, true, false, not, ◌||◌, ◌&&◌,
  Option, none, some, List, ◌==◌, ◌<>◌, is_empty, if◌then◌else◌, Run, pure, gets, modify, ◌>>=◌,
  ◌>>◌,
}
use yougpu_agent.Prelude.Int64.{signed}
use yougpu_agent.Prelude.Result.{Result, ok, err}
use yougpu_agent.Fetch.{workspace_root}
use yougpu_agent.Spec.{AgentStateSpec, AgentContainerSpec, StateCheckpoint}
use yougpu_agent.State.{Manager, Act, Error, plain, too_large, final, call, packable}

-- The answers of the backend to the two calls of a checkpoint.
pub data BackendError : Type 0 where
  conflict bad_request : BackendError
  other : Error → BackendError

pub record CheckpointUpload : Type 0 where
  pub key : String
  pub upload_url : String

-- What a run of a checkpoint calls: the packing of the folder, the two calls of the backend and the
-- upload.
pub record Host (W : Type 0) : Type 0 where
  pub pack_to_file : String → List String → List String → ℕ → Run W (Result Error (String × ℕ))
  pub checkpoint_url : ℕ → String → Run W (Result BackendError CheckpointUpload)
  pub put_archive : String → ℕ → Run W (Option Error)
  pub commit : String → String → ℕ → Run W (Option BackendError)

abbrev pub second : ℕ
second = 1000000000

abbrev pub millisecond : ℕ
millisecond = 1000000

-- now.Sub(at) < d
unfoldable pub is_sooner : ℕ → ℕ → ℤ → Bool
is_sooner now at (pos d) = ltb now (at + d)
is_sooner now at (negsuc d) = ltb (now + suc d) at

module _ {W : Type 0} where
  -- The tests of Checkpoint under the lock. Times are in milliseconds; the interval is a product of
  -- int64 nanoseconds, which wraps around.
  pub begin_checkpoint : StateCheckpoint → ℕ → Option ℕ → Act W Bool
  begin_checkpoint spec now none m = (false, record m { checkpoint_at = some now })
  begin_checkpoint spec now (some at) m =
      if is_sooner (now * millisecond) (at * millisecond) (signed (spec.every_sec * second))
      then (false, m)
      else (true, record m { checkpoint_running = true })

  checkpoint_spec : Option StateCheckpoint → Option AgentContainerSpec → ℕ → Act W Bool
  unfolding begin_checkpoint
  checkpoint_spec none container now m = (false, m)
  checkpoint_spec (some spec) container now m =
      if not (packable m) || is_empty (workspace_root container)
      then (false, m)
      else if m.sealed || m.checkpoint_running
      then (false, m)
      else begin_checkpoint spec now m.checkpoint_at m

  -- Checkpoint at the time `now`: whether a run is started.
  unfoldable pub checkpoint : Option AgentStateSpec → Option AgentContainerSpec → ℕ → Act W Bool
  unfolding checkpoint_spec
  checkpoint none container now m = (false, m)
  checkpoint (some spec) container now m = checkpoint_spec spec.checkpoint container now m

module _ {W : Type 0} (host : Host W) where
  committed : String → Option BackendError → Act W (Option Error)
  committed sum none m = (none, record m { checkpoint_sum = sum })
  committed sum (some conflict) m = (none, m)
  committed sum (some bad_request) m = (some (plain "http 400"), m)
  committed sum (some (other e)) m = (some e, m)

  send : CheckpointUpload → String → ℕ → Option Error → Act W (Option Error)
  send target sum size (some e) = pure (some e)
  send target sum size none = do r ← call (host.commit target.key sum size); committed sum r

  offered : String → ℕ → Result BackendError CheckpointUpload → Act W (Option Error)
  unfolding send committed
  offered sum size (err conflict) = pure none
  offered sum size (err bad_request) = pure none
  offered sum size (err (other e)) = pure (some e)
  offered sum size (ok target) = do
    failure ← call (host.put_archive target.upload_url size)
    send target sum size failure

  offer : Result Error (String × ℕ) → Act W (Option Error)
  unfolding offered
  offer (err (too_large e)) m = (none, m)
  offer (err (plain e)) m = (some (plain ("checkpoint pack: " <> e)), m)
  offer (err (final e)) m = (some (final ("checkpoint pack: " <> e)), m)
  offer (ok (sum, size)) m =
      if m.checkpoint_sum == sum
      then (none, m)
      else (do target ← call (host.checkpoint_url size sum); offered sum size target) m

  -- checkpointOnce
  unfoldable pub checkpoint_once : StateCheckpoint → List String → String → Act W (Option Error)
  unfolding offer
  checkpoint_once spec exclude root m =
      let limit = if eqb spec.max_bytes 0 then m.max_upload else spec.max_bytes in
      (do r ← call (host.pack_to_file root spec.include exclude limit); offer r) m

  -- runCheckpoint, which ends at the time `now`.
  unfoldable pub run_checkpoint :
      StateCheckpoint → List String → String → Run W ℕ → Act W (Option Error)
  run_checkpoint spec exclude root clock = do
    e ← checkpoint_once spec exclude root
    now ← call clock
    modify (λ m. record m { checkpoint_at = some now; checkpoint_running = false })
    pure e
