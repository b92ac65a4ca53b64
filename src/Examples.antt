-- ===== src/Examples.antt =====
-- Concrete inputs at which the theorems of the other modules are applied.
mod Texts
mod Plans
mod Network
mod Archives
mod Shutdowns
mod States
mod Passes
mod Containers
mod Downloads
mod Contents
mod Mounts
mod Tunnels
use yougpu_agent.Prelude.{ℕ, ℤ, pos, String, true, false, Option, none, some, List, [], ◌∷◌}
use yougpu_agent.Spec.{
  AgentSpec, AgentDiskSpec, AgentStateSpec, StateSave, StateCheckpoint, AgentContainerSpec,
  ContainerVolume, AgentTunnelSpec,
}

abbrev pub disk : String → String → AgentDiskSpec
disk id state = record {
  id = id;
  desired_state = state;
  bucket = "b";
  s3_path = "p";
  mount_path = "/workspace/data";
}

abbrev pub two_disks : List AgentDiskSpec
two_disks = disk "one" "mounted" ∷ disk "two" "unmounted" ∷ []

abbrev pub spec_of : ℕ → Option String → AgentSpec
spec_of n ends = record {
  generation = pos n;
  deletion_requested_at = ends;
  container = none;
  firewall = none;
  tunnel = none;
  content = none;
  disks = two_disks;
  ssh = none;
  state = none;
}

abbrev pub app : AgentContainerSpec
app = record {
  image = "app";
  run_command = none;
  env = [];
  volumes = record { host = "/srv/work"; container = "/workspace" } ∷ [];
  shm_size_gb = none;
  gpu = true;
}

abbrev pub saving_spec : AgentStateSpec
saving_spec = record {
  include = "venv" ∷ [];
  exclude = [];
  pending = false;
  restore = none;
  overlay = none;
  save = some (record { upload_url = "https://store/1" });
  checkpoint = some (record { include = []; every_sec = 60; max_bytes = 1000 });
}
