-- ===== src/State.antt =====
-- internal/state/manager.go: what the manager of the workspace state keeps, and the parts that
-- restoring, saving and checkpoints share. W is the world outside: the backend, HTTP, the clock and
-- the file system's failures.
pub mod Restore
pub mod Save
pub mod Checkpoint
pub mod Download
pub mod Steps
use yougpu_agent.Prelude.{
  ℕ, ◌+◌, String, Bool, true, false, ◌&&◌, Option, none, some, List, [], ◌∷◌, ◌==◌, is_some,
  trim_space, cut_space, atoi, if◌then◌else◌, Run, pure, gets, modify, ◌>>=◌, ◌>>◌,
}
use yougpu_agent.Fetch.{clip}
use yougpu_agent.Spec.{StateRestore}
use yougpu_agent.Status.{AgentStateObserved, SavedState, saved, save_skipped, save_failed}

abbrev pub restored_marker : String
restored_marker = "state_restored"

abbrev pub saved_marker : String
saved_marker = "state_saved"

abbrev pub skipped_marker : String
skipped_marker = "state_save_skipped"

abbrev pub failed_marker : String
failed_marker = "state_save_failed"

abbrev pub save_start_marker : String
save_start_marker = "state_save_started"

abbrev pub packed_marker : String
packed_marker = "state_packed"

-- container.StartedMarker
abbrev pub started_marker : String
started_marker = "app_container_started"

abbrev pub max_error : ℕ
max_error = 1024

-- An error with what errors.As and errors.Is find in its chain: a finalError, or errTooLarge.
pub data Error : Type 0 where
  final : String → Error
  too_large : String → Error
  plain : String → Error

unfoldable pub text : Error → String
text (final s) = s
text (too_large s) = s
text (plain s) = s

-- The outcome of os.WriteFile: all of it, an error with the file as it was, or an error that leaves
-- a file with other content.
pub data Written : Type 0 where
  written : Written
  refused : String → Written
  torn : String → String → Written

-- The job of a restore; `result` is what a job that ended without being stopped left.
pub record RestoreJob : Type 0 where
  pub key : String
  pub finished : Bool
  pub stopped : Bool
  pub result : Option AgentStateObserved

-- `files` are the markers of the state folder, `archive` the size of the packed archive there.
-- `reports` is every report handed to the reporter, the last one first.
pub record Manager (W : Type 0) : Type 0 where
  pub files : String → Option String
  pub archive : Option ℕ
  pub upload_fails : ℕ
  pub upload_err : Option Error
  pub next_upload : ℕ
  pub retry_delay : ℕ
  pub save_window : ℕ
  pub max_upload : ℕ
  pub job : Option RestoreJob
  pub checkpoint_running : Bool
  pub checkpoint_at : Option ℕ
  pub checkpoint_sum : String
  pub sealed : Bool
  pub reports : List AgentStateObserved
  pub world : W

abbrev pub Act : Type 0 → Type 0 → Type 0
Act W A = Run (Manager W) A

abbrev pub plain_obs : SavedState → AgentStateObserved
plain_obs s = record { observed_state = s; sha256 = none; size_bytes = none; last_error = none }

abbrev pub error_obs : SavedState → String → AgentStateObserved
error_obs s e = record { observed_state = s; sha256 = none; size_bytes = none; last_error = some e }

abbrev pub saved_obs : String → ℕ → AgentStateObserved
saved_obs sum size = record {
  observed_state = saved;
  sha256 = some sum;
  size_bytes = some size;
  last_error = none;
}

abbrev pub size_or_zero : Option ℕ → ℕ
size_or_zero none = 0
size_or_zero (some n) = n

unfoldable pub saved_outcome : String → AgentStateObserved
saved_outcome raw =
    let (sum, size) = cut_space (trim_space raw) in saved_obs sum (size_or_zero (atoi size))

failed_outcome : Option String → Option AgentStateObserved
failed_outcome none = none
failed_outcome (some msg) = some (error_obs save_failed msg)

unsaved_outcome : Bool → Option String → Option AgentStateObserved
unfolding failed_outcome
unsaved_outcome true raw = some (plain_obs save_skipped)
unsaved_outcome false raw = failed_outcome raw

outcome_of : Option String → Bool → Option String → Option AgentStateObserved
unfolding unsaved_outcome
outcome_of (some raw) skipped failure = some (saved_outcome raw)
outcome_of none skipped failure = unsaved_outcome skipped failure

module _ {W : Type 0} where
  abbrev pub call : {A : Type 0} → Run W A → Act W A
  call f m = let (a, w) = f m.world in (a, record m { world = w })

  unfoldable pub report : AgentStateObserved → Act W AgentStateObserved
  report obs m = (obs, record m { reports = obs ∷ m.reports })

  abbrev pub has : String → Manager W → Bool
  has name m = is_some (m.files name)

  abbrev pub put_file : String → Option String → Manager W → Manager W
  put_file name content m = record m { files = λ n. if n == name then content else m.files n }

  unfoldable pub stored : String → String → Written → Act W (Option String)
  stored name content written m = (none, put_file name (some content) m)
  stored name content (refused e) m = (some e, m)
  stored name content (torn e rest) m = (some e, put_file name (some rest) m)

  -- os.WriteFile of a marker, given how the world's file system answers.
  unfoldable pub write_file : (String → Run W Written) → String → String → Act W (Option String)
  unfolding stored
  write_file write name content = do w ← call (write name); stored name content w

  -- failed; fetch.Redact takes the URL out of the text and is part of the error's text here.
  unfoldable pub failed : SavedState → Error → Act W AgentStateObserved
  unfolding report
  failed state e = report (error_obs state (clip (text e) max_error))

  unfoldable pub packable : Manager W → Bool
  packable m = has restored_marker m && has started_marker m

  -- Outcome: the end of saving that a marker tells.
  unfoldable pub outcome : Manager W → Option AgentStateObserved
  unfolding outcome_of
  outcome m = outcome_of (m.files saved_marker) (has skipped_marker m) (m.files failed_marker)
