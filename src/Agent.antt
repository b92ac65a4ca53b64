-- ===== src/Agent.antt =====
-- internal/agent/agent.go: the state of the agent and the parts that it calls. Every part is taken
-- as configured, as cmd/yougpu-agent/main.go does; logging, the version and the uptime are left out.
pub mod Intake
pub mod Disks
pub mod Readiness
pub mod Handle
use yougpu_agent.Prelude.{
  ℕ, ℤ, suc, ltb, eqb, String, Bool, true, false, not, ◌&&◌, Option, none, some, List, is_some,
  if◌then◌else◌, Run, ◌>>=◌, ◌>>◌, pure, modify,
}
use yougpu_agent.Prelude.Result.{Result}
use yougpu_agent.Spec.{
  AgentSpec, AgentDiskSpec, AgentStateSpec, AgentContainerSpec, AgentFirewallSpec, AgentSshSpec,
  AgentTunnelSpec, AgentContentSpec,
}
use yougpu_agent.Status.{
  AgentStatus, AgentStateObserved, AgentContainerObserved, AgentFirewallObserved,
  AgentSetupObserved, AgentContentObserved, StatusLifecycle,
}

-- An error of the disk manager: disk.ErrFlushing, or another.
pub data DiskError : Type 0 where
  flushing : DiskError
  broken : String → DiskError

-- The variables that handleSpec shares with the gate of the container start.
pub record Frame (W : Type 0) : Type 0 where
  pub state_ready : Bool
  pub state_observed : Option AgentStateObserved
  pub hold : String
  pub world : W

-- The interfaces of agent.go (DiskManager, ContainerReconciler and so on), and the clock, the
-- dialling of a port and the contexts. `cancelled` is work.Err() != nil.
pub record Parts (W : Type 0) : Type 0 where
  pub mount : AgentDiskSpec → Run W (Option DiskError)
  pub unmount : String → Run W (Option DiskError)
  pub list_units : Run W (Result String (List String))
  pub is_active : String → Run W (Result String Bool)
  pub mount_id : String → Run W (Result String String)
  pub container_reconcile :
      Option AgentContainerSpec → Run (Frame W) Bool → Run (Frame W) AgentContainerObserved
  pub container_restart : Run W (Option String)
  pub firewall_reconcile : AgentFirewallSpec → Run W AgentFirewallObserved
  pub ssh_reconcile : AgentSshSpec → Run W (Option String)
  pub tunnel_reconcile : Option AgentTunnelSpec → Run W (Unit {0})
  pub tunnel_status : List String → Run W (Bool × String)
  pub setup_reconcile : Run W AgentSetupObserved
  pub content_reconcile : AgentContentSpec → Option AgentContainerSpec → Run W (Unit {0})
  pub content_observe : Run W (AgentContentObserved × Bool)
  pub content_stop : Run W (Unit {0})
  pub state_restore :
      AgentStateSpec → Option AgentContainerSpec → Run W (Bool × Option AgentStateObserved)
  pub state_checkpoint : AgentStateSpec → Option AgentContainerSpec → Run W (Unit {0})
  pub state_outcome : Run W (Option AgentStateObserved)
  pub set_alive : Run W (Unit {0})
  pub handle_termination : AgentSpec → Run W (StatusLifecycle × Option AgentStateObserved)
  pub post : AgentStatus → Run W (Option String)
  pub port_open : ℕ → Run W Bool
  pub now : Run W ℕ
  pub pause : ℕ → Run W (Unit {0})
  pub cancelled : Run W Bool

pub record Agent (W : Type 0) : Type 0 where
  pub applied : ℤ
  pub mount_ids : List (String × String)
  pub container_alive : Bool
  pub ready_hash : String
  pub waited_hash : String
  pub ready_timeout : ℕ
  pub ready_probe : ℕ
  pub state_reports : ℕ
  pub last_state : Option AgentStateObserved
  pub world : W

abbrev pub Act : Type 0 → Type 0 → Type 0
Act W A = Run (Agent W) A

abbrev pub call : {W A : Type 0} → Run W A → Act W A
call f a = let (x, w) = f a.world in (x, record a { world = w })

-- What postStatus sends: the state of the caller, unless one was reported since it looked.
abbrev pub fresher : {W : Type 0} → Option ℕ → AgentStatus → Agent W → AgentStatus
fresher none status a = status
fresher (some seen) status a =
    if is_some status.state && not (eqb a.state_reports seen) && is_some a.last_state
    then record status { state = a.last_state }
    else status

abbrev pub count_report : {W : Type 0} → AgentStatus → Option String → Agent W → Agent W
count_report status none a =
    if is_some status.state
    then record a { state_reports = suc a.state_reports; last_state = status.state }
    else a
count_report status (some e) a = a

-- postStatus; `seen` is none for a negative stateSeen.
unfoldable pub post_status :
    {W : Type 0}
    → (AgentStatus → Run W (Option String))
    → AgentStatus
    → Option ℕ
    → Act W (Option String)
post_status post status seen a =
    let sent = fresher seen status a in
    let (e, w) = post sent a.world in (e, count_report sent e (record a { world = w }))
