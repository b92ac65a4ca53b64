-- ===== src/DiskManager/Mount.antt =====
-- internal/disk/manager.go and remotes.go: Mount, and how a storage key is asked for. Executing the
-- template of the unit is the filling in of its text.
use yougpu_agent.Prelude.{
  ℕ, zero, suc, ◌-◌, ◌*◌, leb, eqb, String, Char, code, Bool, true, false, not, ◌&&◌, ◌||◌, Option,
  none, some, List, [], ◌∷◌, ◌++◌, ◌==◌, ◌<>◌, is_empty, is_some, itoa, join, if◌then◌else◌,
}
use yougpu_agent.Prelude.Result.{Result, ok, err, Exec, done, fail, ◌>>=◌, ◌>>◌}
use yougpu_agent.Spec.{AgentDiskSpec}
use yougpu_agent.DiskManager.{
  Error, flushing, state_unknown, plain, ReadError, Config, Host, Manager, minute, rclone_bin,
  reserved_free_gb, unit_name_for, remote_name, lift, try, need, in_world, wrapped,
}
use yougpu_agent.DiskManager.Remotes.{Section, find_section, read_conf, put_remote}
use yougpu_agent.DiskManager.Rc.{ensure_rc}
use yougpu_agent.DiskManager.Quota.{per_drive_quota_gb}

abbrev pub key_retry_every : ℕ
key_retry_every = 10 * minute

is_alnum : Char → Bool
is_alnum c =
    (leb b'A' (code c) && leb (code c) b'Z')
    || (leb b'a' (code c) && leb (code c) b'z')
    || (leb b'0' (code c) && leb (code c) b'9')

rest_of_id : String → Bool
unfolding is_alnum
rest_of_id String.[] = true
rest_of_id (String.◌∷◌ c s) = (is_alnum c || eqb (code c) b'_' || eqb (code c) b'-') && rest_of_id s

-- driveIDPattern.MatchString
unfoldable pub is_drive_id : String → Bool
unfolding rest_of_id is_alnum
is_drive_id String.[] = false
is_drive_id (String.◌∷◌ c s) = is_alnum c && rest_of_id s

-- mountArgs
unfoldable pub mount_args : Config → AgentDiskSpec → ℕ → List String
mount_args config spec quota =
    "mount"
    ∷ (remote_name spec.id <> (":" <> (spec.bucket <> ("/" <> spec.s3_path))))
    ∷ spec.mount_path
    ∷ "--config"
    ∷ config.config_path
    ∷ "--vfs-cache-mode"
    ∷ "full"
    ∷ "--vfs-cache-max-size"
    ∷ (itoa quota <> "G")
    ∷ "--vfs-cache-max-age"
    ∷ "24h"
    ∷ "--vfs-cache-min-free-space"
    ∷ (itoa reserved_free_gb <> "G")
    ∷ "--dir-cache-time"
    ∷ "1m"
    ∷ "--vfs-read-chunk-size"
    ∷ "4M"
    ∷ "--vfs-read-chunk-streams"
    ∷ "32"
    ∷ "--transfers"
    ∷ "4"
    ∷ "--s3-upload-concurrency"
    ∷ "8"
    ∷ "--s3-chunk-size"
    ∷ "16M"
    ∷ "--allow-other"
    ∷ "--daemon-timeout"
    ∷ "10m"
    ∷ []

-- unitTemplate, with unitParams.
unfoldable pub unit_text : String → String → String → String → String
unit_text id env_file command mount_path =
    "[Unit]\nDescription=S3 Storage Mount ("
    <> (id
        <> (")\nAfter=network-online.target\nWants=network-online.target\nBefore=docker.service\n\n[Service]\nType=notify\nTimeoutStopSec=1800\nEnvironmentFile="
            <> (env_file
                <> ("\nExecStart="
                    <> (command
                        <> ("\nExecStop=/bin/fusermount -uz "
                            <> (mount_path
                                <> "\nRestart=on-failure\nRestartSec=10\nOOMScoreAdjust=-900\nUser=root\n\n[Install]\nWantedBy=multi-user.target\n")))))))

abbrev pub asked_at : String → List (String × ℕ) → Option ℕ
asked_at id [] = none
asked_at id ((k, at) ∷ ks) = if k == id then some at else asked_at id ks

-- keyRetryDue, at the time `now`.
unfoldable pub is_key_retry_due : ℕ → Option ℕ → Bool
is_key_retry_due now none = true
is_key_retry_due now (some at) = leb key_retry_every (now - at)

-- errors.Is(err, errStateUnknown)
unfoldable pub is_unknown : Error → Bool
is_unknown flushing = false
is_unknown (state_unknown e) = true
is_unknown (plain e) = false

-- fmt.Errorf("%w; %v", err, kerr)
unfoldable pub with_error : Error → Error → Error
with_error flushing k = flushing
with_error (state_unknown e) (plain k) = state_unknown (e <> ("; " <> k))
with_error (plain e) (plain k) = plain (e <> ("; " <> k))
with_error (state_unknown e) k = state_unknown e
with_error (plain e) k = plain e

module _ {W : Type 0} (config : Config) (host : Host W) where
  same_text : String → Result ReadError String → Bool
  same_text t (ok old) = old == t
  same_text t (err e) = is_empty t

  write_unit : String → String → Result ReadError String → Exec W Error (Unit {0})
  unfolding same_text
  write_unit path t old = if same_text t old then done tt else do
    try ("write unit " <> (path <> ": ")) (host.write_file path t)
    try "daemon-reload: " host.daemon_reload

  -- The error of an enable is only logged.
  enabled : String → Exec W Error (Unit {0})
  enabled unit w = (ok tt, (host.enable unit w).1)

  check_active : String → Result String Bool → Exec W Error (Unit {0})
  check_active unit (ok true) = done tt
  check_active unit (ok false) = fail (plain ("unit " <> (unit <> " did not become active")))
  check_active unit (err e) = fail (state_unknown ("is-active check: unit state unknown: " <> e))

  mount_unit : AgentDiskSpec → List String → Exec W Error (Unit {0})
  unfolding write_unit enabled check_active
  mount_unit spec args =
      let unit = unit_name_for spec.id in
      let path = config.units_dir <> ("/" <> unit) in
      do
        env_file ← wrapped "rc access: " (ensure_rc config host spec.id)
        old ← lift (host.read_file path)
        write_unit path
            (unit_text spec.id env_file (rclone_bin <> (" " <> join " " (args ++ "--rc" ∷ [])))
              spec.mount_path)
            old
        enabled unit
        try ("start " <> (unit <> ": ")) (host.start unit)
        active ← lift (host.is_active unit)
        check_active unit active

  -- The rounds of the loop that waits for a direct mount.
  unfoldable pub wait_mounted : ℕ → String → Exec W Error (Unit {0})
  wait_mounted zero path w =
      (err (plain ("mount " <> (path <> " did not become active within timeout"))), w)
  wait_mounted (suc n) path w =
      let (r, w') = host.run ("mountpoint" ∷ "-q" ∷ path ∷ []) w in
      let later = wait_mounted n path in elim r [ ok out ↦ (ok tt, w') | err e ↦ later w' ]

  -- The error of the writing of the marker is only logged.
  noted : AgentDiskSpec → Exec W Error (Unit {0})
  noted spec w =
      (ok tt, (host.write_file (config.markers_dir <> ("/" <> spec.id)) spec.mount_path w).1)

  -- mountDirect
  unfoldable pub mount_direct : AgentDiskSpec → List String → Exec W Error (Unit {0})
  unfolding noted
  mount_direct spec args = do
    try "mkdir markers dir: " (host.make_dir config.markers_dir)
    out ← need "rclone mount: " (host.run (rclone_bin ∷ args ++ ("--daemon" ∷ [])))
    noted spec
    wait_mounted 20 spec.mount_path

  -- mount
  unfoldable pub mount_once : AgentDiskSpec → Exec W Error (Unit {0})
  unfolding mount_unit
  mount_once spec = do
    quota ← lift (per_drive_quota_gb config host)
    if config.direct
        then mount_direct spec (mount_args config spec quota)
        else mount_unit spec (mount_args config spec quota)

  -- renewRemote; the time of the question is noted before it.
  unfoldable pub renew_remote : String → Exec (Manager W) Error (Unit {0})
  renew_remote id m =
      let (now, w) = host.now m.world in
      (do
        creds ← in_world (need "storage key: " (host.get_storage_credentials id))
        in_world (wrapped "write rclone config: " (put_remote config host id creds)))
        (record m { key_asked = (id, now) ∷ m.key_asked; world = w })

  unfoldable pub unless_found : String → List Section → Exec (Manager W) Error (Unit {0})
  unless_found id ss =
      if is_some (find_section (remote_name id) ss) then done tt else renew_remote id

  -- ensureRemote
  unfoldable pub ensure_remote : String → Exec (Manager W) Error (Unit {0})
  unfolding unless_found
  ensure_remote id =
      if not (is_drive_id id) then fail (plain ("invalid drive id " <> host.quote id)) else do
        ss ← in_world (wrapped "read rclone config: " (read_conf config host))
        unless_found id ss

  unfoldable pub renewed :
      AgentDiskSpec → Error → Result Error (Unit {0}) → Exec (Manager W) Error (Unit {0})
  renewed spec e (err k) = fail (with_error e k)
  renewed spec e (ok a) = in_world (mount_once spec)

  -- What Mount does when the first attempt has failed.
  unfoldable pub retry_mount : AgentDiskSpec → Error → Exec (Manager W) Error (Unit {0})
  unfolding renewed is_unknown
  retry_mount spec e m =
      let (stop, w) = host.is_cancelled m.world in
      let (now, w') = host.now w in
      let m' : Manager W = record m { world = w' } in
      if stop || is_unknown e || not (is_key_retry_due now (asked_at spec.id m.key_asked))
      then (err e, m')
      else (let (r, m'') = renew_remote spec.id m' in renewed spec e r m'')

  unfoldable pub tried : AgentDiskSpec → Result Error (Unit {0}) → Exec (Manager W) Error (Unit {0})
  tried spec (ok a) m = (ok tt, m)
  tried spec (err e) m = retry_mount spec e m

  unfoldable pub try_mount : AgentDiskSpec → Exec (Manager W) Error (Unit {0})
  unfolding tried
  try_mount spec m = let (r, w) = mount_once spec m.world in tried spec r (record m { world = w })

  -- Mount
  unfoldable pub mount : AgentDiskSpec → Exec (Manager W) Error (Unit {0})
  unfolding try_mount
  mount spec = do
    in_world (try "mkdir mount path: " (host.make_dir spec.mount_path))
    in_world (try "chmod mount path: " (host.chmod spec.mount_path))
    ensure_remote spec.id
    try_mount spec
