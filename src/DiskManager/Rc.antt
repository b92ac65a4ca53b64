-- ===== src/DiskManager/Rc.antt =====
-- internal/disk/manager.go: the remote control of rclone: its access, its port, its calls, Uploads.
-- What JSON an answer is decoded to is a parameter.
pub mod Ports
use yougpu_agent.Prelude.{
  ℕ, zero, suc, ◌+◌, ◌-◌, ◌*◌, eqb, String, Char, code, Bool, true, false, not, ◌||◌, Option, none,
  some, List, [], ◌∷◌, ◌++◌, ◌==◌, ◌<>◌, is_empty, itoa, atoi, trim_space, trim_prefix,
  if◌then◌else◌, Run,
}
use yougpu_agent.Prelude.Result.{Result, ok, err, Exec, done, fail, continue, ◌>>=◌, ◌>>◌}
use yougpu_agent.Archive.Paths.{split}
use yougpu_agent.Content.Paths.{last_of}
use yougpu_agent.Uploads.{Uploads, no_uploads}
use yougpu_agent.DiskManager.{
  Error, plain, ReadError, not_exist, other, RcAccess, DiskCache, CoreStats, Config, Host, Manager,
  lift, try, need, wrapped,
}
use yougpu_agent.DiskManager.Remotes.{trim_suffix}

abbrev pub rc_port_range_size : ℕ
rc_port_range_size = 1000

-- rcEnvPath
unfoldable pub rc_env_path : Config → String → String
rc_env_path config id = config.config_dir <> ("/rc-" <> (id <> ".env"))

-- strings.Cut(s, "="), without the third result.
unfoldable pub cut_equals : String → String × String
cut_equals String.[] = ("", "")
cut_equals (String.◌∷◌ c s) =
    let (key, value) = cut_equals s in
    if eqb (code c) b'=' then ("", s) else (String.◌∷◌ c key, value)

lines_from : String → String → List String
lines_from word String.[] = word ∷ []
lines_from word (String.◌∷◌ c s) =
    let next = lines_from "" s in
    let longer = lines_from (word <> String.◌∷◌ c "") s in
    if eqb (code c) 10 then word ∷ next else longer

-- strings.Split(s, "\n")
unfoldable pub lines_of : String → List String
unfolding lines_from
lines_of s = lines_from "" s

abbrev set_field : RcAccess → String × String → RcAccess
set_field acc (key, value) =
    if key == "RCLONE_RC_ADDR"
    then record acc { addr = value }
    else if key == "RCLONE_RC_USER"
    then record acc { user = value }
    else if key == "RCLONE_RC_PASS"
    then record acc { pass = value }
    else acc

unfoldable pub read_fields : RcAccess → List String → RcAccess
read_fields acc [] = acc
read_fields acc (line ∷ lines) = read_fields (set_field acc (cut_equals (trim_space line))) lines

abbrev no_access : RcAccess
no_access = record { addr = ""; user = ""; pass = "" }

-- What readRc makes of the text of the file; none is an incomplete access.
unfoldable pub access_of : String → Option RcAccess
access_of raw =
    let acc = read_fields no_access (lines_of raw) in
    if is_empty acc.addr || is_empty acc.user || is_empty acc.pass then none else some acc

-- taken[port], of the list of the ports that are taken.
abbrev pub is_taken : ℕ → List ℕ → Bool
is_taken port [] = false
is_taken port (p ∷ ps) = eqb p port || is_taken port ps

module _ {W : Type 0} (config : Config) (host : Host W) where
  incomplete : String → Option RcAccess → Result Error RcAccess
  incomplete id (some acc) = ok acc
  incomplete id none = err (plain ("incomplete rc access in " <> rc_env_path config id))

  rc_read : String → Result ReadError String → Result Error RcAccess
  unfolding incomplete
  rc_read id (ok raw) = incomplete id (access_of raw)
  rc_read id (err not_exist) = err (plain "file does not exist")
  rc_read id (err (other e)) = err (plain e)

  -- readRc
  unfoldable pub read_rc : String → Exec W Error RcAccess
  unfolding rc_read
  read_rc id w = let (r, w') = host.read_file (rc_env_path config id) w in (rc_read id r, w')

  -- The loop of freeRcPort over the ports from `port` on; none is no free port.
  unfoldable pub free_from : List ℕ → ℕ → ℕ → Run W (Option ℕ)
  free_from taken zero port w = (none, w)
  free_from taken (suc n) port w =
      let later = free_from taken n (port + 1) in
      if is_taken port taken
      then later w
      else let (free, w') = host.listens port w in if free then (some port, w') else later w'

  taken_by : Result Error RcAccess → List ℕ
  taken_by (err e) = []
  taken_by (ok acc) = elim (host.port_of acc.addr) [
    | none ↦ []
    | some p ↦ elim (atoi p) [ none ↦ [] | some n ↦ n ∷ [] ]
  ]

  -- The id in the path of an rc env file.
  id_of_env : String → String
  id_of_env path = trim_suffix ".env" (trim_prefix "rc-" (last_of "" (split path)))

  unfoldable pub taken_ports : List String → Run W (List ℕ)
  unfolding taken_by id_of_env
  taken_ports [] w = ([], w)
  taken_ports (f ∷ fs) w =
      let (r, w') = read_rc (id_of_env f) w in
      let (rest, w'') = taken_ports fs w' in (taken_by r ++ rest, w'')

  -- freeRcPort; none is an error.
  unfoldable pub free_rc_port : Run W (Option ℕ)
  unfolding taken_ports
  free_rc_port w =
      let (files, w') = host.glob (config.config_dir <> "/rc-*.env") w in
      let (taken, w'') = taken_ports files w' in
      free_from taken rc_port_range_size config.rc_port_base w''

  need_port : Option ℕ → Exec W Error ℕ
  need_port (some port) = done port
  need_port none = fail (
      plain (
        "no free rc port in "
        <> (itoa config.rc_port_base
            <> ("-" <> itoa (config.rc_port_base + rc_port_range_size - 1)))))

  env_text : ℕ → String → String → String
  env_text port user pass =
      "RCLONE_RC_ADDR=127.0.0.1:"
      <> (itoa port <> ("\nRCLONE_RC_USER=" <> (user <> ("\nRCLONE_RC_PASS=" <> (pass <> "\n")))))

  new_rc : String → Exec W Error String
  unfolding need_port env_text
  new_rc path = do
    free ← lift free_rc_port
    port ← need_port free
    user ← need "" (host.random_hex 16)
    pass ← need "" (host.random_hex 32)
    try "" (host.make_dir config.config_dir)
    try "" (host.write_file (path <> ".tmp") (env_text port user pass))
    try "" (host.chmod (path <> ".tmp"))
    try "" (host.rename (path <> ".tmp") path)
    done path

  -- ensureRc
  unfoldable pub ensure_rc : String → Exec W Error String
  unfolding new_rc
  ensure_rc id w =
      let (r, w') = read_rc id w in
      elim r [
        | ok acc ↦ (ok (rc_env_path config id), w')
        | err e ↦ new_rc (rc_env_path config id) w'
      ]

  answer : {A : Type 0} → String → (String → Option A) → ℕ × String → Exec W Error A
  answer method decode (status, body) =
      if not (eqb status 200)
      then fail (plain ("rc " <> (method <> (": status " <> itoa status))))
      else elim (decode body) [ none ↦ fail (plain ("rc " <> method)) | some a ↦ done a ]

  -- rc, with what is posted and how the answer is decoded.
  unfoldable pub rc : {A : Type 0} → String → String → String → (String → Option A) → Exec W Error A
  unfolding answer
  rc id method body decode = do
    acc ← wrapped "rc access: " (read_rc id)
    r ← need ("rc " <> (method <> ": ")) (host.post acc method body)
    answer method decode r

  with_cache : Option DiskCache → CoreStats → Uploads
  with_cache none core = record no_uploads {
    sent = core.bytes;
    completed = core.transfers;
    errors = core.errors;
    last_error = core.last_error;
  }
  with_cache (some d) core = record {
    in_progress = d.uploads_in_progress;
    queued = d.uploads_queued;
    errored = d.errored_files;
    out_of_space = d.out_of_space;
    sent = core.bytes;
    completed = core.transfers;
    errors = core.errors;
    last_error = core.last_error;
  }

  -- Uploads
  unfoldable pub uploads : String → Exec W Error Uploads
  unfolding with_cache
  uploads id = if config.direct then done no_uploads else do
    vfs ← rc id "vfs/stats" "{}" host.vfs_stats
    core ← rc id "core/stats" "{\"short\":true}" host.core_stats
    done (with_cache vfs core)
