-- ===== src/State/Save.antt =====
-- internal/state/manager.go: Save and what it calls. Packing a folder, stopping the running jobs
-- and the upload are operations of a Host; their effects on the files kept here are written out.
pub mod Retry
pub mod Ends
use yougpu_agent.Prelude.{
  ℕ, zero, suc, ◌+◌, ◌*◌, min, ltb, leb, eqb, String, Bool, true, false, not, ◌||◌, ◌&&◌, Option,
  none, some, List, ◌++◌, [], ◌∷◌, ◌==◌, ◌<>◌, itoa, atoi, cut_space, trim_space, is_empty, is_some,
  if◌then◌else◌, Run, pure, gets, modify, when, ◌>>=◌, ◌>>◌,
}
use yougpu_agent.Prelude.Result.{Result, ok, err}
use yougpu_agent.Fetch.{clip, workspace_root}
use yougpu_agent.Spec.{AgentStateSpec, AgentContainerSpec, StateSave}
use yougpu_agent.Status.{AgentStateObserved, saving, saved, save_skipped, save_failed}
use yougpu_agent.State.{
  Manager, Act, Written, Error, plain, final, too_large, text, saved_marker, skipped_marker,
  failed_marker, save_start_marker, packed_marker, plain_obs, error_obs, saved_obs, has, report,
  failed, write_file, call, outcome, packable, max_error, put_file,
}
use yougpu_agent.State.Restore.{stop_restore}

-- What saving calls: the clock, the writing of markers, packing a folder into the archive file with
-- a limit on its size, and the upload of the archive.
pub record Host (W : Type 0) : Type 0 where
  pub now : Run W ℕ
  pub write : String → Run W Written
  pub pack_to_file : String → List String → List String → ℕ → Run W (Result Error (String × ℕ))
  pub put_archive : String → ℕ → Run W (Option Error)

abbrev pub max_retry_delay : ℕ
max_retry_delay = 120000

-- The doubling loop of retryLater, over the rounds left.
unfoldable pub doubled : ℕ → ℕ → ℕ
doubled zero delay = delay
doubled (suc n) delay =
    let rest = doubled n (delay * 2) in if ltb delay max_retry_delay then rest else delay

unfoldable pub retry_after : ℕ → ℕ → ℕ
unfolding doubled
retry_after fails delay = min (doubled fails delay) max_retry_delay

-- errors.As(err, &final) || errors.Is(err, errTooLarge)
unfoldable pub is_final : Error → Bool
is_final (final e) = true
is_final (too_large e) = true
is_final (plain e) = false

-- What a packed marker says of the archive that is there; none is an error.
unfoldable pub check_packed : String × Option ℕ → Option ℕ → Option (String × ℕ)
check_packed (sum, none) archive = none
check_packed (sum, some size) none = none
check_packed (sum, some size) (some there) = if eqb there size then some (sum, size) else none

abbrev pub sum_and_size : String → String × Option ℕ
sum_and_size raw = let (sum, size) = cut_space (trim_space raw) in (sum, atoi size)

unfoldable pub packed_of : Option String → Option ℕ → Option (String × ℕ)
unfolding check_packed
packed_of none archive = none
packed_of (some raw) archive = check_packed (sum_and_size raw) archive

abbrev pub venv_dir : String
venv_dir = ".venv"

started_text : Option String → Option ℕ
started_text none = none
started_text (some raw) = atoi (trim_space raw)

module _ {W : Type 0} where
  -- stopCheckpoints: no checkpoint is started any more, and the running one is waited for.
  unfoldable pub stop_checkpoints : Act W (Unit {0})
  stop_checkpoints = modify (λ m. record m { sealed = true; checkpoint_running = false })

  -- dropArchive
  unfoldable pub drop_archive : Act W (Unit {0})
  drop_archive m = (tt, record (put_file packed_marker none m) { archive = none })

module _ {W : Type 0} (host : Host W) where
  begin_now : Option ℕ → Act W ℕ
  begin_now (some at) = pure at
  begin_now none = do
    now ← call host.now
    e ← write_file host.write save_start_marker (itoa now)
    pure now

  -- saveStarted: the time of the first attempt, also over a restart of the agent.
  unfoldable pub save_started : Act W ℕ
  unfolding started_text begin_now
  save_started m = begin_now (started_text (m.files save_start_marker)) m

  give_up : Error → Act W AgentStateObserved
  give_up e = do
    drop_archive
    obs ← failed save_failed e
    ignored ← write_file host.write failed_marker (clip (text e) max_error)
    pure obs

  -- saveFailed
  unfoldable pub save_failed_at : ℕ → Error → Act W AgentStateObserved
  unfolding give_up
  save_failed_at started e = do
    now ← call host.now
    window ← gets (λ m. m.save_window)
    if is_final e || leb (started + window) now
        then give_up e
        else report (error_obs saving (clip (text e) max_error))

  -- What the packing left in the archive file; on an error the file is removed again.
  archived : Result Error (String × ℕ) → Act W (Unit {0})
  archived (ok (sum, size)) m = (tt, record m { archive = some size })
  archived (err e) m = (tt, record m { archive = none })

  pack_limited : String → List String → List String → Act W (Result Error (String × ℕ))
  unfolding archived
  pack_limited root include exclude = do
    limit ← gets (λ m. m.max_upload)
    r ← call (host.pack_to_file root include exclude limit)
    archived r
    pure r

  without_venv :
      AgentStateSpec → String → Result Error (String × ℕ) → Act W (Result Error (String × ℕ))
  unfolding pack_limited
  without_venv spec root (err (too_large e)) =
      pack_limited root spec.include (spec.exclude ++ venv_dir ∷ [])
  without_venv spec root (err (final e)) = pure (err (final e))
  without_venv spec root (err (plain e)) = pure (err (plain e))
  without_venv spec root (ok r) = pure (ok r)

  note_packed : Result Error (String × ℕ) → Act W (Result Error (String × ℕ))
  note_packed (err e) = pure (err e)
  note_packed (ok (sum, size)) = do
    ignored ← write_file host.write packed_marker (sum <> (" " <> itoa size))
    pure (ok (sum, size))

  -- pack
  unfoldable pub pack : AgentStateSpec → String → Act W (Result Error (String × ℕ))
  unfolding pack_limited without_venv note_packed
  pack spec root = do
    first ← pack_limited root spec.include spec.exclude
    r ← without_venv spec root first
    note_packed r

  -- retryLater
  unfoldable pub retry_later : Error → Act W (Unit {0})
  retry_later e = do
    now ← call host.now
    modify (λ m. record m {
      upload_fails = suc m.upload_fails;
      upload_err = some e;
      next_upload = now + retry_after m.upload_fails m.retry_delay;
    })

  uploaded : String → ℕ → Option Error → Act W (Result Error (String × ℕ))
  uploaded sum size (some e) = do retry_later e; pure (err e)
  uploaded sum size none = do drop_archive; pure (ok (sum, size))

  upload : StateSave → Result Error (String × ℕ) → Act W (Result Error (String × ℕ))
  unfolding uploaded
  upload target (err e) = pure (err e)
  upload target (ok (sum, size)) = do
    failure ← call (host.put_archive target.upload_url size)
    uploaded sum size failure

  ready_or_pack : AgentStateSpec → String → Option (String × ℕ) → Act W (Result Error (String × ℕ))
  ready_or_pack spec root (some there) = pure (ok there)
  ready_or_pack spec root none = pack spec root

  -- save: packs, unless the archive of an earlier attempt is still whole, and uploads.
  unfoldable pub save_archive :
      AgentStateSpec → StateSave → String → Act W (Result Error (String × ℕ))
  unfolding upload ready_or_pack
  save_archive spec target root = do
    there ← gets (λ m. packed_of (m.files packed_marker) m.archive)
    r ← ready_or_pack spec root there
    upload target r

  end_save : ℕ → Result Error (String × ℕ) → Act W AgentStateObserved
  end_save started (err e) = save_failed_at started e
  end_save started (ok (sum, size)) = do
    ignored ← write_file host.write saved_marker (sum <> (" " <> itoa size))
    report (saved_obs sum size)

  try_save : AgentStateSpec → StateSave → String → ℕ → Act W AgentStateObserved
  unfolding end_save
  try_save spec target root started = do
    ignored ← report (plain_obs saving)
    r ← save_archive spec target root
    end_save started r

  -- The error of the last upload, while its pause lasts. The clock is read only if there is one.
  paused : Option Error → Act W (Option Error)
  paused none = pure none
  paused (some e) = do
    now ← call host.now
    next ← gets (λ m. m.next_upload)
    pure (if ltb now next then some e else none)

  save_unless_paused :
      AgentStateSpec → StateSave → String → ℕ → Option Error → Act W AgentStateObserved
  unfolding try_save
  save_unless_paused spec target root started (some e) = save_failed_at started e
  save_unless_paused spec target root started none = try_save spec target root started

  save_from :
      AgentStateSpec
      → StateSave
      → Option AgentContainerSpec
      → Option String
      → ℕ
      → Act W AgentStateObserved
  unfolding paused save_unless_paused
  save_from spec target container (some e) started = save_failed_at started (plain e)
  save_from spec target container none started =
      if is_empty (workspace_root container)
      then save_failed_at started (final "no /workspace volume to save state from")
      else (do
        last ← gets (λ m. m.upload_err)
        waits ← paused last
        save_unless_paused spec target (workspace_root container) started waits)

  skip_save : Act W AgentStateObserved
  skip_save = do ignored ← write_file host.write skipped_marker ""; report (plain_obs save_skipped)

  first_save :
      AgentStateSpec
      → StateSave
      → Option AgentContainerSpec
      → Option String
      → Option AgentStateObserved
      → Act W AgentStateObserved
  unfolding save_from skip_save
  first_save spec target container stop_err (some obs) m = (obs, m)
  first_save spec target container stop_err none m =
      if packable m
      then (do started ← save_started; save_from spec target container stop_err started) m
      else skip_save m

  save_to :
      AgentStateSpec
      → Option AgentContainerSpec
      → Option String
      → Option StateSave
      → Act W (Option AgentStateObserved)
  unfolding first_save
  save_to spec container stop_err none = pure none
  save_to spec container stop_err (some target) = do
    stop_restore
    stop_checkpoints
    told ← gets outcome
    obs ← first_save spec target container stop_err told
    pure (some obs)

  -- Save, given the error with which the containers were stopped.
  unfoldable pub save :
      Option AgentStateSpec
      → Option AgentContainerSpec
      → Option String
      → Act W (Option AgentStateObserved)
  unfolding save_to
  save none container stop_err = pure none
  save (some spec) container stop_err = save_to spec container stop_err spec.save
