-- ===== src/Examples/States.antt =====
-- Examples of the saved state: the gate of the restore, saving and checkpoints.
use yougpu_agent.Prelude.{
  arith, ℕ, ◌+◌, ◌*◌, ◌≤◌, String, Bool, true, false, is_empty, itoa, is_space, Option, none, some,
  [], ◌==◌, ◌≡◌, ◌⊎◌, refl, Run, if◌then◌else◌,
}
use yougpu_agent.Prelude.Int64.{signed}
use yougpu_agent.Prelude.Result.{ok}
use yougpu_agent.Fetch.{workspace_root}
use yougpu_agent.State.{
  Manager, RestoreJob, Written, written, restored_marker, saved_marker, started_marker, saved_obs,
  has, packable, outcome,
}
use yougpu_agent.State.Restore.{restore, restore_key}
use yougpu_agent.State.Restore.Gate.{restore_gate}
use yougpu_agent.State.Save.{Host, save}
use yougpu_agent.State.Save.Ends.{save_settled, outcome-saved}
use yougpu_agent.State.Checkpoint.{is_sooner, checkpoint, begin_checkpoint}
use yougpu_agent.State.Checkpoint.Interval.{checkpoint_due, begin_checkpoint_wraps}
use yougpu_agent.Examples.{app, saving_spec}

abbrev files : Option String → String → Option String
files saved name =
    if name == restored_marker
    then some ""
    else if name == started_marker
    then some ""
    else if name == saved_marker
    then saved
    else none

abbrev manager : Option RestoreJob → Option String → Manager ℕ
manager job saved = record {
  files = files saved;
  archive = none;
  upload_fails = 0;
  upload_err = none;
  next_upload = 0;
  retry_delay = 5000;
  save_window = 1000;
  max_upload = 100;
  job = job;
  checkpoint_running = false;
  checkpoint_at = some 0;
  checkpoint_sum = "";
  sealed = false;
  reports = [];
  world = 7;
}

abbrev write : String → Run ℕ Written
write name w = (written, w)

abbrev host : Host ℕ
host = record {
  now = λ w. (w, w);
  write = write;
  pack_to_file = λ root include exclude limit w. (ok ("ab12", 70), w);
  put_archive = λ url size w. (none, w);
}

abbrev job : Bool → Bool → RestoreJob
job finished stopped = record {
  key = restore_key saving_spec;
  finished = finished;
  stopped = stopped;
  result = none;
}

restore_gate_example :
    (has restored_marker (restore write (some saving_spec) (some app) (manager none none)).1 ≡ true)
    × ((has restored_marker (manager none none) ≡ true) ⊎ (saving_spec.pending ≡ false))
unfolding restore
restore_gate_example = restore_gate write saving_spec (some app) (manager none none) refl

saved_seen :
    outcome (manager (some (job false false)) (some "ab12 70")) ≡ some (saved_obs "ab12" 70)
unfolding is_space itoa
saved_seen =
    outcome-saved (manager (some (job false false)) (some "ab12 70")) "ab12" 70
      (refl, (refl, (refl, (refl, tt)))) refl refl

-- A manager whose last save succeeded, while a restore still runs.
abbrev left : Manager ℕ
left = manager (some (job false false)) (some "ab12 70")

save_settled_example :
    ((save host (some saving_spec) (some app) none left).0 ≡ some (saved_obs "ab12" 70))
    × ((save host (some saving_spec) (some app) none left).1.files ≡ files (some "ab12 70"))
    × ((save host (some saving_spec) (some app) none left).1.reports ≡ [])
    × ((save host (some saving_spec) (some app) none left).1.world ≡ 7)
    × ((save host (some saving_spec) (some app) none left).1.sealed ≡ true)
    × ((save host (some saving_spec) (some app) none left).1.checkpoint_running ≡ false)
    × ((some (job false false) ≡ none)
        ⊎ ((j : RestoreJob) × ((save host (some saving_spec) (some app) none left).1.job ≡ some j)
            × (j.finished ≡ true)
            × (j.stopped ≡ true)))
save_settled_example =
    save_settled host saving_spec (record { upload_url = "https://store/1" }) (some app) none left
      (saved_obs "ab12" 70) refl saved_seen

checkpoint_due_example :
    ((manager none none).sealed ≡ false)
    × ((manager none none).checkpoint_running ≡ false)
    × (packable (manager none none) ≡ true)
    × (is_empty (workspace_root (some app)) ≡ false)
    × ((at : ℕ) × ((manager none none).checkpoint_at ≡ some at) × (at + 60 * 1000 ≤ 60000))
unfolding checkpoint packable workspace_root is_sooner signed
checkpoint_due_example =
    checkpoint_due saving_spec (record { include = []; every_sec = 60; max_bytes = 1000 })
      (some app) 60000 (manager none none) refl (omega arith) refl

begin_checkpoint_wraps_example :
    begin_checkpoint
      (record { include = []; every_sec = 9300000000; max_bytes = 0 })
      5
      (some 5)
      (manager none none)
    ≡ (true, record (manager none none) { checkpoint_running = true })
begin_checkpoint_wraps_example =
    begin_checkpoint_wraps (record { include = []; every_sec = 9300000000; max_bytes = 0 }) 5
      (manager none none) (omega arith) (omega arith)
