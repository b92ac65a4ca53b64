-- ===== src/DiskManager.antt =====
-- internal/disk/manager.go: the state of the disk manager, the errors, and what it calls. The
-- durations are in milliseconds.
pub mod Remotes
pub mod Units
pub mod Rc
pub mod Quota
pub mod Mount
pub mod Unmount
use yougpu_agent.Prelude.{ℕ, ◌*◌, String, Bool, Option, none, some, List, ◌<>◌, Run}
use yougpu_agent.Prelude.Result.{Result, ok, err, Exec}

-- ErrFlushing, errStateUnknown, or another error.
pub data Error : Type 0 where
  flushing : Error
  state_unknown plain : String → Error

pub data ReadError : Type 0 where
  not_exist : ReadError
  other : String → ReadError

pub record RcAccess : Type 0 where
  pub addr : String
  pub user : String
  pub pass : String

pub record UnmountWait : Type 0 where
  pub since : ℕ
  pub seen : ℕ

pub record StorageCredentials : Type 0 where
  pub credential_id : String
  pub access_key : String
  pub secret_key : String
  pub endpoint : String

-- The part `diskCache` of the answer of vfs/stats.
pub record DiskCache : Type 0 where
  pub uploads_in_progress : ℕ
  pub uploads_queued : ℕ
  pub errored_files : ℕ
  pub out_of_space : Bool

-- The answer of core/stats.
pub record CoreStats : Type 0 where
  pub bytes : ℕ
  pub transfers : ℕ
  pub errors : ℕ
  pub last_error : String

-- The fields that do not change. `config_dir` is the folder of the configuration of rclone.
pub record Config : Type 0 where
  pub direct : Bool
  pub units_dir : String
  pub config_dir : String
  pub config_path : String
  pub rc_port_base : ℕ
  pub markers_dir : String
  pub flush_limit : ℕ

-- The maps are lists of their entries, the latest first.
pub record Manager (W : Type 0) : Type 0 where
  pub unmounting : List (String × UnmountWait)
  pub key_asked : List (String × ℕ)
  pub world : W

-- What the manager calls. `vfs_stats` and `core_stats` decode an answer, and `port_of` is the port of
-- net.SplitHostPort; none is an error. `quote` is the verb %q.
pub record Host (W : Type 0) : Type 0 where
  pub now : Run W ℕ
  pub is_cancelled : Run W Bool
  pub is_active : String → Run W (Result String Bool)
  pub start : String → Run W (Option String)
  pub stop : String → Run W (Option String)
  pub enable : String → Run W (Option String)
  pub disable : String → Run W (Option String)
  pub daemon_reload : Run W (Option String)
  pub invocation_id : String → Run W (Result String String)
  pub run : List String → Run W (Result String String)
  pub get_storage_credentials : String → Run W (Result String StorageCredentials)
  pub read_file : String → Run W (Result ReadError String)
  pub write_file : String → String → Run W (Option String)
  pub make_dir : String → Run W (Option String)
  pub chmod : String → Run W (Option String)
  pub rename : String → String → Run W (Option String)
  pub remove : String → Run W (Option ReadError)
  pub read_dir : String → Run W (Result ReadError (List (String × Bool)))
  pub glob : String → Run W (List String)
  pub listens : ℕ → Run W Bool
  pub random_hex : ℕ → Run W (Result String String)
  pub post : RcAccess → String → String → Run W (Result String (ℕ × String))
  pub vfs_stats : String → Option (Option DiskCache)
  pub core_stats : String → Option CoreStats
  pub port_of : String → Option String
  pub quote : String → String

abbrev pub unit_prefix : String
unit_prefix = "storage-mount-"

abbrev pub remote_prefix : String
remote_prefix = "disk-"

abbrev pub rclone_bin : String
rclone_bin = "/usr/bin/rclone"

abbrev pub reserved_free_gb : ℕ
reserved_free_gb = 15

abbrev pub minute : ℕ
minute = 60000

-- unitNameFor
unfoldable pub unit_name_for : String → String
unit_name_for id = unit_prefix <> (id <> ".service")

-- remoteName
unfoldable pub remote_name : String → String
remote_name id = remote_prefix <> id

module _ {W : Type 0} where
  -- A call whose result is what it is.
  unfoldable pub lift : {A : Type 0} → Run W A → Exec W Error A
  lift f w = let (a, w') = f w in (ok a, w')

  -- A call that may only fail, and the words before its error.
  unfoldable pub try : String → Run W (Option String) → Exec W Error (Unit {0})
  try what f w =
      let (e, w') = f w in (elim e [ none ↦ ok tt | some x ↦ err (plain (what <> x)) ], w')

  unfoldable pub need : {A : Type 0} → String → Run W (Result String A) → Exec W Error A
  need what f w =
      let (r, w') = f w in (elim r [ ok a ↦ ok a | err x ↦ err (plain (what <> x)) ], w')

  -- os.Remove, where a file that is not there is no error.
  unfoldable pub removed : String → Run W (Option ReadError) → Exec W Error (Unit {0})
  removed what f w =
      let (e, w') = f w in
      (
        elim e [ none ↦ ok tt | some not_exist ↦ ok tt | some (other x) ↦ err (plain (what <> x)) ],
        w',
      )

  -- A step of the manager on its world only.
  unfoldable pub in_world : {A : Type 0} → Exec W Error A → Exec (Manager W) Error A
  in_world f m = let (r, w) = f m.world in (r, record m { world = w })

  -- fmt.Errorf with %w: what an error is stays.
  unfoldable pub wrapped : {A : Type 0} → String → Exec W Error A → Exec W Error A
  wrapped what f w =
      let (r, w') = f w in
      (
        elim r [
          | ok a ↦ ok a
          | err flushing ↦ err flushing
          | err (state_unknown x) ↦ err (state_unknown (what <> x))
          | err (plain x) ↦ err (plain (what <> x))
        ],
        w',
      )
