-- ===== src/Spec.antt =====
-- internal/client/types.go: the specification that the backend sends and the status that the
-- agent reports. Optional pointers are `Option`, JSON strings are texts, and integers whose sign
-- the agent never uses are natural numbers.
use yougpu_agent.Prelude.{ℕ, ℤ, String, Bool, Option, List}

pub record AgentDiskSpec : Type 0 where
  pub id : String
  pub desired_state : String
  pub bucket : String
  pub s3_path : String
  pub mount_path : String

abbrev pub desired_mounted : String
desired_mounted = "mounted"

abbrev pub desired_unmounted : String
desired_unmounted = "unmounted"

pub record StateRestore : Type 0 where
  pub url : String
  pub sha256 : String
  pub size_bytes : ℕ

pub record StateOverlay : Type 0 where
  pub archive : StateRestore
  pub include : List String

pub record StateSave : Type 0 where
  pub upload_url : String

pub record StateCheckpoint : Type 0 where
  pub include : List String
  pub every_sec : ℕ
  pub max_bytes : ℕ

pub record AgentStateSpec : Type 0 where
  pub include : List String
  pub exclude : List String
  pub pending : Bool
  pub restore : Option StateRestore
  pub overlay : Option StateOverlay
  pub save : Option StateSave
  pub checkpoint : Option StateCheckpoint

pub record FirewallPort : Type 0 where
  pub port : ℤ
  pub protocol : String

pub record TunnelProxy : Type 0 where
  pub subdomain : String
  pub local_port : ℕ

pub record AgentTunnelSpec : Type 0 where
  pub slug : String
  pub frps_addr : String
  pub frp_token : String
  pub proxies : List TunnelProxy

pub record ContainerVolume : Type 0 where
  pub host : String
  pub container : String

-- The float of shm_size_gb, by what the code reads of it: whether it is above 0, and its digits.
pub record ShmSize : Type 0 where
  pub positive : Bool
  pub digits : String

-- `env` is in the order of the map's iteration.
pub record AgentContainerSpec : Type 0 where
  pub image : String
  pub run_command : Option String
  pub env : List (String × String)
  pub volumes : List ContainerVolume
  pub shm_size_gb : Option ShmSize
  pub gpu : Bool

pub record AgentSshSpec : Type 0 where
  pub user : String
  pub authorized_keys : List String

pub record ContentFile : Type 0 where
  pub url : String
  pub content : String
  pub dest : String
  pub name : String

pub record ContentModel : Type 0 where
  pub url : String
  pub type : String
  pub name : String
  pub sha256 : String
  pub size_bytes : ℕ

pub record ContentRepo : Type 0 where
  pub url : String
  pub ref : String
  pub dest : String

pub record AgentContentSpec : Type 0 where
  pub workspace_files : List ContentFile
  pub models : List ContentModel
  pub dirs : List String
  pub repos : List ContentRepo

pub record AgentFirewallSpec : Type 0 where
  pub ports : List FirewallPort

pub record AgentSpec : Type 0 where
  pub generation : ℤ
  pub deletion_requested_at : Option String
  pub container : Option AgentContainerSpec
  pub firewall : Option AgentFirewallSpec
  pub tunnel : Option AgentTunnelSpec
  pub content : Option AgentContentSpec
  pub disks : List AgentDiskSpec
  pub ssh : Option AgentSshSpec
  pub state : Option AgentStateSpec
