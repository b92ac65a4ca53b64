-- ===== src/DiskManager/Unmount.antt =====
-- internal/disk/manager.go: Unmount, flushing and unmountDirect.
pub mod Held
use yougpu_agent.Prelude.{
  ℕ, ◌-◌, ◌*◌, leb, ltb, String, Bool, true, false, Option, none, some, List, [], ◌∷◌, ◌==◌, ◌<>◌,
  trim_space, if◌then◌else◌, Run,
}
use yougpu_agent.Prelude.Result.{Result, ok, err, Exec, done, fail, ◌>>=◌, ◌>>◌}
use yougpu_agent.Uploads.{Uploads, pending}
use yougpu_agent.DiskManager.{
  Error, flushing, plain, ReadError, UnmountWait, Config, Host, Manager, minute, unit_name_for,
  lift, try, need, removed, in_world,
}
use yougpu_agent.DiskManager.Remotes.{drop_remote}
use yougpu_agent.DiskManager.Rc.{uploads, rc_env_path}

abbrev pub unmount_gap : ℕ
unmount_gap = 5 * minute

abbrev pub wait_of : String → List (String × UnmountWait) → Option UnmountWait
wait_of id [] = none
wait_of id ((k, w) ∷ ws) = if k == id then some w else wait_of id ws

abbrev pub without_wait : String → List (String × UnmountWait) → List (String × UnmountWait)
without_wait id [] = []
without_wait id ((k, w) ∷ ws) =
    let rest = without_wait id ws in if k == id then rest else (k, w) ∷ rest

-- The wait of a disk that is asked to be unmounted at the time `now`.
unfoldable pub asked : ℕ → Option UnmountWait → UnmountWait
asked now none = record { since = now; seen = now }
asked now (some w) =
    if ltb unmount_gap (now - w.seen)
    then record { since = now; seen = now }
    else record w { seen = now }

-- Whether the answer to the question for the uploads keeps the disk mounted.
unfoldable pub keeps : Result Error Uploads → Bool
unfolding pending
keeps (err e) = true
keeps (ok up) = ltb 0 (pending up)

module _ {W : Type 0} (config : Config) (host : Host W) where
  -- flushing
  unfoldable pub is_flushing : String → Manager W → Bool × Manager W
  unfolding keeps
  is_flushing id m =
      let (now, w) = host.now m.world in
      let wait = asked now (wait_of id m.unmounting) in
      let m' : Manager W = record m { unmounting = (id, wait) ∷ m.unmounting; world = w } in
      if leb config.flush_limit (now - wait.since)
      then (false, m')
      else let (up, w') = uploads config host id w in (keeps up, record m' { world = w' })

  -- unmountDirect, of what was read from the marker.
  fusermount : String → Exec W Error (Unit {0})
  fusermount path w = (ok tt, (host.run ("fusermount" ∷ "-uz" ∷ trim_space path ∷ []) w).1)

  unmount_marked : String → Result ReadError String → Exec (Manager W) Error (Unit {0})
  unfolding fusermount
  unmount_marked id (err e) = done tt
  unmount_marked id (ok path) = do
    in_world (fusermount path)
    drop_remote config host id
    in_world (removed "remove direct marker: " (host.remove (config.markers_dir <> ("/" <> id))))

  unfoldable pub unmount_direct : String → Exec (Manager W) Error (Unit {0})
  unfolding unmount_marked
  unmount_direct id = do
    r ← in_world (lift (host.read_file (config.markers_dir <> ("/" <> id))))
    unmount_marked id r

  forget_wait : String → Exec (Manager W) Error (Unit {0})
  forget_wait id m = (ok tt, record m { unmounting = without_wait id m.unmounting })

  -- The error of a disable is only logged.
  disabled : String → Exec W Error (Unit {0})
  disabled unit w = (ok tt, (host.disable unit w).1)

  -- The rest of Unmount, once the unit is stopped.
  clean_up : String → Exec (Manager W) Error (Unit {0})
  unfolding forget_wait disabled
  clean_up id = do
    forget_wait id
    in_world (disabled (unit_name_for id))
    drop_remote config host id
    in_world
        (removed "remove unit file: " (host.remove (config.units_dir <> ("/" <> unit_name_for id))))
    in_world (removed "remove rc env file: " (host.remove (rc_env_path config id)))
    in_world (try "daemon-reload after unmount: " host.daemon_reload)

  stop_unit : String → Bool → Exec (Manager W) Error (Unit {0})
  unfolding clean_up
  stop_unit id true = fail flushing
  stop_unit id false = do in_world (try "stop " (host.stop (unit_name_for id))); clean_up id

  unmount_unit : String → Bool → Exec (Manager W) Error (Unit {0})
  unfolding stop_unit clean_up
  unmount_unit id false m = clean_up id m
  unmount_unit id true m = let (held, m') = is_flushing id m in stop_unit id held m'

  -- Unmount
  unfoldable pub unmount : String → Exec (Manager W) Error (Unit {0})
  unfolding unmount_unit
  unmount id = if config.direct then unmount_direct id else do
    active ← in_world (need "is-active " (host.is_active (unit_name_for id)))
    unmount_unit id active
