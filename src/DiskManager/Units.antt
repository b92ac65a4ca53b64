-- ===== src/DiskManager/Units.antt =====
-- internal/disk/manager.go: ListUnits, IsActive, MountID and EnsureRunning.
pub mod Names
use yougpu_agent.Prelude.{
  String, Bool, true, false, not, ◌&&◌, ◌||◌, Option, none, some, List, [], ◌∷◌, ◌++◌, ◌<>◌,
  is_empty, has_prefix, trim_prefix, trim_space, if◌then◌else◌, Run,
}
use yougpu_agent.Prelude.Result.{Result, ok, err, Exec, done, fail, ◌>>=◌, ◌>>◌}
use yougpu_agent.DiskManager.{
  Error, plain, ReadError, not_exist, other, Config, Host, unit_prefix, unit_name_for, lift, try,
  need,
}
use yougpu_agent.DiskManager.Remotes.{has_suffix, trim_suffix}

-- The id in the name of a unit file; none is a file of something else.
unfoldable pub id_of_unit : String → Option String
id_of_unit name =
    let id = trim_suffix ".service" (trim_prefix unit_prefix name) in
    if not (has_prefix unit_prefix name) || not (has_suffix ".service" name) || is_empty id
    then none
    else some id

abbrev pub add_id : Option String → List String → List String
add_id none ids = ids
add_id (some id) ids = id ∷ ids

unfoldable pub ids_of_units : List (String × Bool) → List String
ids_of_units [] = []
ids_of_units ((name, is_dir) ∷ es) = add_id (id_of_unit name) (ids_of_units es)

-- The markers of a direct mount: the entries that are no folders.
abbrev pub ids_of_markers : List (String × Bool) → List String
ids_of_markers [] = []
ids_of_markers ((name, is_dir) ∷ es) =
    let rest = ids_of_markers es in if is_dir then rest else name ∷ rest

abbrev pub listed :
    (List (String × Bool) → List String)
    → Result ReadError (List (String × Bool))
    → Result Error (List String)
listed ids (ok es) = ok (ids es)
listed ids (err not_exist) = ok []
listed ids (err (other e)) = err (plain e)

module _ {W : Type 0} (config : Config) (host : Host W) where
  -- ListUnits
  unfoldable pub list_units : Exec W Error (List String)
  list_units w =
      if config.direct
      then (let (r, w') = host.read_dir config.markers_dir w in (listed ids_of_markers r, w'))
      else (let (r, w') = host.read_dir config.units_dir w in (listed ids_of_units r, w'))

  answers : Result String String → Bool
  answers (ok out) = true
  answers (err e) = false

  marked : Result ReadError String → Exec W Error Bool
  unfolding answers
  marked (err not_exist) w = (ok false, w)
  marked (err (other e)) w = (err (plain e), w)
  marked (ok path) w =
      let (r, w') = host.run ("mountpoint" ∷ "-q" ∷ trim_space path ∷ []) w in (ok (answers r), w')

  is_marked : String → Exec W Error Bool
  unfolding marked
  is_marked id = do r ← lift (host.read_file (config.markers_dir <> ("/" <> id))); marked r

  -- IsActive
  unfoldable pub is_active : String → Exec W Error Bool
  unfolding is_marked
  is_active id = if config.direct then is_marked id else need "" (host.is_active (unit_name_for id))

  -- MountID
  unfoldable pub mount_id : String → Exec W Error String
  mount_id id = if config.direct then done "" else need "" (host.invocation_id (unit_name_for id))

  runs : Result String Bool → Bool
  runs (ok active) = active
  runs (err e) = false

  -- EnsureRunning
  unfoldable pub ensure_running : String → Exec W Error (Unit {0})
  unfolding runs
  ensure_running id = if config.direct then done tt else do
    active ← lift (host.is_active (unit_name_for id))
    if runs active then done tt else try "" (host.start (unit_name_for id))
