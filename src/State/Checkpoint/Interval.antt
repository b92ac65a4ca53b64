-- ===== src/State/Checkpoint/Interval.antt =====
-- When internal/state/checkpoint.go starts a checkpoint, and when it notes one as saved.
use yougpu_agent.Prelude.{
  ℕ, ◌+◌, ◌*◌, ◌≤◌, Bool, true, false, not, ◌||◌, Option, none, some, ◌≡◌, refl, inl, inr, arith,
  Bool-cases, is_empty,
}
use yougpu_agent.Prelude.Int64.{signed, signed_small}
use yougpu_agent.Fetch.{workspace_root}
use yougpu_agent.Spec.{AgentStateSpec, AgentContainerSpec, StateCheckpoint}
use yougpu_agent.State.{Manager, packable}
use yougpu_agent.State.Save.{stop_checkpoints}
use yougpu_agent.State.Checkpoint.{checkpoint, checkpoint_spec, begin_checkpoint, is_sooner, second}

module _ {W : Type 0} where
  begin_due :
      (spec : StateCheckpoint) (now : ℕ) (last : Option ℕ) (m : Manager W)
      → spec.every_sec ≤ 9223372036
      → (begin_checkpoint spec now last m).0 ≡ true
      → (at : ℕ) × (last ≡ some at) × (at + spec.every_sec * 1000 ≤ now)
  unfolding begin_checkpoint is_sooner
  begin_due spec now none m small e = cc
  begin_due spec now (some at) m small e =
      let e' = rw (signed_small (spec.every_sec * second) (omega arith)) at e in
      (at, refl, ground arith)

  -- A checkpoint is started only if none is running and saving has not begun, the workspace can be
  -- packed and has a folder, and the interval has passed since the last one ended or was first due.
  -- The interval is at most 9223372036 seconds, the most that int64 nanoseconds hold.
  pub checkpoint_due :
      (spec : AgentStateSpec) (want : StateCheckpoint) (container : Option AgentContainerSpec)
      (now : ℕ) (m : Manager W)
      → spec.checkpoint ≡ some want
      → want.every_sec ≤ 9223372036
      → (checkpoint (some spec) container now m).0 ≡ true
      → (m.sealed ≡ false)
        × (m.checkpoint_running ≡ false)
        × (packable m ≡ true)
        × (is_empty (workspace_root container) ≡ false)
        × ((at : ℕ) × (m.checkpoint_at ≡ some at) × (at + want.every_sec * 1000 ≤ now))
  unfolding checkpoint checkpoint_spec
  checkpoint_due spec want container now m wanted small e =
      elim (Bool-cases (not (packable m) || is_empty (workspace_root container))) [
        | inl bad ↦ cc (rw (wanted, checkpoint_spec, bad) at e)
        | inr fine ↦ elim (Bool-cases (m.sealed || m.checkpoint_running)) [
          | inl busy ↦ cc (rw (wanted, checkpoint_spec, fine, busy) at e)
          | inr idle ↦ (
            (or_false _ _ idle).0,
            (or_false _ _ idle).1,
            not_false _ (or_false _ _ fine).0,
            (or_false _ _ fine).1,
            begin_due want now m.checkpoint_at m small
                (rw (wanted, checkpoint_spec, fine, idle) at e),
          )
        ]
      ]
    where
      or_false : (a b : Bool) → (a || b) ≡ false → (a ≡ false) × (b ≡ false)
      or_false a b h = ground arith

      not_false : (a : Bool) → not a ≡ false → a ≡ true
      not_false a h = ground arith

  -- An interval of 9223372037 seconds or more, up to twice that range, is due at once: as int64
  -- nanoseconds it is negative.
  pub begin_checkpoint_wraps :
      (spec : StateCheckpoint) (at : ℕ) (m : Manager W)
      → 9223372037 ≤ spec.every_sec
      → spec.every_sec ≤ 18446744073
      → begin_checkpoint spec at (some at) m ≡ (true, record m { checkpoint_running = true })
  unfolding begin_checkpoint is_sooner signed
  begin_checkpoint_wraps spec at m low high = ground arith

  sealed-checkpoint_spec :
      (want : Option StateCheckpoint) (container : Option AgentContainerSpec) (now : ℕ)
      (m : Manager W)
      → m.sealed ≡ true
      → checkpoint_spec want container now m ≡ (false, m)
  unfolding checkpoint_spec
  sealed-checkpoint_spec none container now m e = refl
  sealed-checkpoint_spec (some want) container now m e =
      elim (Bool-cases (not (packable m) || is_empty (workspace_root container))) [
        | inl bad ↦ rw bad
        | inr fine ↦ rw (fine, e)
      ]

  -- Once saving has begun, no checkpoint is started any more, and asking for one changes nothing.
  checkpoint-stop_checkpoints :
      (spec : Option AgentStateSpec) (container : Option AgentContainerSpec) (now : ℕ)
      (m : Manager W)
      → checkpoint spec container now (stop_checkpoints m).1 ≡ (false, (stop_checkpoints m).1)
  unfolding checkpoint stop_checkpoints
  checkpoint-stop_checkpoints none container now m = refl
  checkpoint-stop_checkpoints (some spec) container now m =
      sealed-checkpoint_spec spec.checkpoint container now _ refl
