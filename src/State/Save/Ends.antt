-- ===== src/State/Save/Ends.antt =====
-- How saving ends, in internal/state/manager.go, and that its end is remembered.
use yougpu_agent.Prelude.{
  ℕ, eqb, String, true, false, Option, none, some, ◌<>◌, ◌≡◌, ◌⊎◌, ◌∙◌, refl, inl, inr, itoa,
  is_empty, if◌then◌else◌,
}
use yougpu_agent.Prelude.Decimal.{IsWord, cut_space-pair, atoi-itoa}
use yougpu_agent.Spec.{AgentStateSpec, AgentContainerSpec, StateSave}
use yougpu_agent.Status.{AgentStateObserved}
use yougpu_agent.State.{Manager, RestoreJob, saved_marker, saved_obs, saved_outcome, outcome}
use yougpu_agent.State.Restore.{stop_restore, stop_job}
use yougpu_agent.State.Save.{
  Host, check_packed, packed_of, save, save_to, first_save, stop_checkpoints,
}

-- The marker that a successful save writes is read back as its result.
pub outcome-saved :
    {W : Type 0} (m : Manager W) (sum : String) (size : ℕ)
    → IsWord sum
    → is_empty sum ≡ false
    → m.files saved_marker ≡ some (sum <> (" " <> itoa size))
    → outcome m ≡ some (saved_obs sum size)
unfolding outcome saved_outcome
outcome-saved m sum size word ne e = rw (e, cut_space-pair sum size word ne, atoi-itoa size)

-- An archive that was packed by an earlier attempt is taken again exactly if it still has the size
-- that was noted.
packed_of-pair :
    (sum : String) (size there : ℕ)
    → IsWord sum
    → is_empty sum ≡ false
    → packed_of (some (sum <> (" " <> itoa size))) (some there)
      ≡ (if eqb there size then some (sum, size) else none)
unfolding packed_of check_packed
packed_of-pair sum size there word ne = rw (cut_space-pair sum size word ne, atoi-itoa size)

module _ {W : Type 0} where
  -- Stopping the restore touches its job alone.
  stop_restore-files : (m : Manager W) → (stop_restore m).1.files ≡ m.files
  unfolding stop_restore
  stop_restore-files m = of_job m.job m
    where
      of_job : (j : Option RestoreJob) (m : Manager W) → (stop_job j m).1.files ≡ m.files
      of_job none m = refl
      of_job (some j) m = refl

  stop_restore-reports : (m : Manager W) → (stop_restore m).1.reports ≡ m.reports
  unfolding stop_restore
  stop_restore-reports m = of_job m.job m
    where
      of_job : (j : Option RestoreJob) (m : Manager W) → (stop_job j m).1.reports ≡ m.reports
      of_job none m = refl
      of_job (some j) m = refl

  stop_restore-world : (m : Manager W) → (stop_restore m).1.world ≡ m.world
  unfolding stop_restore
  stop_restore-world m = of_job m.job m
    where
      of_job : (j : Option RestoreJob) (m : Manager W) → (stop_job j m).1.world ≡ m.world
      of_job none m = refl
      of_job (some j) m = refl

  -- A restore that there was is finished after stopping, and marked as stopped.
  stop_restore-IsStopped :
      (m : Manager W)
      → (m.job ≡ none)
        ⊎ ((j : RestoreJob) × ((stop_restore m).1.job ≡ some j)
            × (j.finished ≡ true)
            × (j.stopped ≡ true))
  unfolding stop_restore
  stop_restore-IsStopped m = of_job m.job m refl
    where
      of_job :
          (k : Option RestoreJob) (m : Manager W)
          → m.job ≡ k
          → (m.job ≡ none)
            ⊎ ((j : RestoreJob) × ((stop_job k m).1.job ≡ some j)
                × (j.finished ≡ true)
                × (j.stopped ≡ true))
      of_job none m e = inl e
      of_job (some k) m e = inr (record k { finished = true; stopped = true }, refl, refl, refl)

  outcome-files : (m n : Manager W) → n.files ≡ m.files → outcome (stop_checkpoints n).1 ≡ outcome m
  unfolding outcome stop_checkpoints
  outcome-files m n e = rw e

module _ {W : Type 0} (host : Host W) where
  -- Once a marker tells how saving ended, Save answers just that and stops the running jobs: the
  -- restore, if there is one, is finished and marked as stopped, no checkpoint runs and none starts
  -- any more. No file changes, nothing is reported, and the world is not called.
  pub save_settled :
      (spec : AgentStateSpec) (target : StateSave) (container : Option AgentContainerSpec)
      (stop_err : Option String) (m : Manager W) (obs : AgentStateObserved)
      → spec.save ≡ some target
      → outcome m ≡ some obs
      → ((save host (some spec) container stop_err m).0 ≡ some obs)
        × ((save host (some spec) container stop_err m).1.files ≡ m.files)
        × ((save host (some spec) container stop_err m).1.reports ≡ m.reports)
        × ((save host (some spec) container stop_err m).1.world ≡ m.world)
        × ((save host (some spec) container stop_err m).1.sealed ≡ true)
        × ((save host (some spec) container stop_err m).1.checkpoint_running ≡ false)
        × ((m.job ≡ none)
            ⊎ ((j : RestoreJob) × ((save host (some spec) container stop_err m).1.job ≡ some j)
                × (j.finished ≡ true)
                × (j.stopped ≡ true)))
  unfolding save save_to first_save stop_checkpoints
  save_settled spec target container stop_err m obs wanted told =
      let n = (stop_restore m).1 in
      let told' : outcome (stop_checkpoints n).1 ≡ some obs =
        outcome-files m n (stop_restore-files m) ∙ told in
      rw (wanted, save_to, told', first_save)
        (
          refl,
          stop_restore-files m,
          stop_restore-reports m,
          stop_restore-world m,
          refl,
          refl,
          stop_restore-IsStopped m,
        )
