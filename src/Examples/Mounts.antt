-- ===== src/Examples/Mounts.antt =====
-- Examples of the disk manager.
use yougpu_agent.Prelude.{ℕ, ◌*◌, true, false, none, [], ◌∷◌, ◌≡◌, refl, map, arith}
use yougpu_agent.Prelude.Result.{ok, err}
use yougpu_agent.DiskManager.{Config, Host, Manager, not_exist, minute, unit_name_for}
use yougpu_agent.DiskManager.Units.{ids_of_units}
use yougpu_agent.DiskManager.Units.Names.{ids_of_units-unit_name_for}
use yougpu_agent.DiskManager.Unmount.{is_flushing}
use yougpu_agent.DiskManager.Unmount.Held.{Waits, first, again, flush_ends}

abbrev config : Config
config = record {
  direct = false;
  units_dir = "/etc/systemd/system";
  config_dir = "/root/.config/rclone";
  config_path = "/root/.config/rclone/rclone.conf";
  rc_port_base = 5572;
  markers_dir = "/var/lib/agent/mounts";
  flush_limit = 6 * minute;
}

-- A host whose world is the time; the disks are active and rclone does not answer.
abbrev host : Host ℕ
host = record {
  now = λ w. (w, w);
  is_cancelled = λ w. (false, w);
  is_active = λ u w. (ok true, w);
  start = λ u w. (none, w);
  stop = λ u w. (none, w);
  enable = λ u w. (none, w);
  disable = λ u w. (none, w);
  daemon_reload = λ w. (none, w);
  invocation_id = λ u w. (ok "1", w);
  run = λ c w. (ok "", w);
  get_storage_credentials = λ d w.
      (ok (record { credential_id = "c"; access_key = "a"; secret_key = "s"; endpoint = "e" }), w);
  read_file = λ p w. (err not_exist, w);
  write_file = λ p t w. (none, w);
  make_dir = λ p w. (none, w);
  chmod = λ p w. (none, w);
  rename = λ p q w. (none, w);
  remove = λ p w. (none, w);
  read_dir = λ p w. (err not_exist, w);
  glob = λ p w. ([], w);
  listens = λ p w. (true, w);
  random_hex = λ n w. (ok "00", w);
  post = λ a m b w. (err "connection refused", w);
  vfs_stats = λ t. none;
  core_stats = λ t. none;
  port_of = λ a. none;
  quote = λ s. s;
}

abbrev start : Manager ℕ
start = record { unmounting = []; key_asked = []; world = 0 }

abbrev asked_once : Manager ℕ
unfolding is_flushing
asked_once = (is_flushing config host "one" start).1

abbrev later : ℕ → Manager ℕ → Manager ℕ
later at m = record m { world = at }

-- The disk was asked for at 0 and after four minutes.
two_asks :
    Waits config host "one" 0
      (4 * minute)
      (is_flushing config host "one" (later (4 * minute) (is_flushing config host "one" start).1)).1
two_asks =
    again (first start refl) (later (4 * minute) (is_flushing config host "one" start).1) refl
      (omega arith) (omega arith)

flush_ends_example :
    (is_flushing config host "one" (
      later
        (8 * minute)
        (is_flushing config host "one"
          (later (4 * minute) (is_flushing config host "one" start).1)).1)).0
    ≡ false
flush_ends_example =
    flush_ends config host two_asks
      (later (8 * minute)
        (is_flushing config host "one"
          (later (4 * minute) (is_flushing config host "one" start).1)).1)
      refl (omega arith) (omega arith) (omega arith)

abbrev waited : Manager ℕ
waited = record {
  unmounting = ("one", record { since = 0; seen = 4 * minute }) ∷ [];
  key_asked = [];
  world = 7 * minute;
}

ids_of_units-unit_name_for_example :
    ids_of_units (map (λ id. (unit_name_for id, false)) ("one" ∷ "two" ∷ [])) ≡ "one" ∷ "two" ∷ []
ids_of_units-unit_name_for_example =
    ids_of_units-unit_name_for ("one" ∷ "two" ∷ []) (refl, (refl, tt))
