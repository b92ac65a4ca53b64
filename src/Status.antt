-- ===== src/Status.antt =====
-- internal/client/types.go: the status that the agent reports. The observed states of each part
-- are data types with the constants of that part as constructors.
use yougpu_agent.Prelude.{ℕ, ℤ, String, Bool, Option, List}

pub data DiskState : Type 0 where
  mounted unmounted error : DiskState

pub data ContainerState : Type 0 where
  pulling starting running ready absent error : ContainerState

pub data FirewallState : Type 0 where
  applied error : FirewallState

pub data SetupState : Type 0 where
  installing_base installing_docker configuring_gpu installing_storage ready error : SetupState

pub data SavedState : Type 0 where
  waiting restoring restored restore_failed saving saved save_skipped save_failed : SavedState

pub data TunnelState : Type 0 where
  connected disconnected : TunnelState

pub data ContentState : Type 0 where
  downloading ready error : ContentState

-- lifecycle.State*: the states that are reported.
pub data LifecycleState : Type 0 where
  alive syncing synced error : LifecycleState
  other : String → LifecycleState

pub record StatusLifecycle : Type 0 where
  pub observed_state : LifecycleState
  pub last_error : Option String

pub record AgentDiskObserved : Type 0 where
  pub id : String
  pub observed_state : DiskState
  pub last_error : Option String

pub record AgentContainerObserved : Type 0 where
  pub observed_state : ContainerState
  pub progress : Option ℕ
  pub detail : Option String
  pub spec_hash : String
  pub last_error : Option String
  pub unresponsive : Bool

pub record AgentFirewallObserved : Type 0 where
  pub observed_state : FirewallState
  pub last_error : Option String

pub record AgentSetupObserved : Type 0 where
  pub observed_state : SetupState
  pub last_error : Option String

pub record AgentStateObserved : Type 0 where
  pub observed_state : SavedState
  pub sha256 : Option String
  pub size_bytes : Option ℕ
  pub last_error : Option String

pub record AgentTunnelObserved : Type 0 where
  pub observed_state : TunnelState
  pub last_error : Option String

pub record AgentContentObserved : Type 0 where
  pub observed_state : ContentState
  pub progress : Option ℕ
  pub detail : Option String
  pub last_error : Option String

-- The version and the uptime, which every report carries, are left out.
pub record AgentStatus : Type 0 where
  pub observed_generation : ℤ
  pub lifecycle : StatusLifecycle
  pub disks : List AgentDiskObserved
  pub container : Option AgentContainerObserved
  pub firewall : Option AgentFirewallObserved
  pub setup : Option AgentSetupObserved
  pub content : Option AgentContentObserved
  pub state : Option AgentStateObserved
  pub tunnel : Option AgentTunnelObserved
