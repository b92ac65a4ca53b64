-- ===== src/Agent/Handle.antt =====
-- internal/agent/agent.go: handleSpec, terminate, the gate of the container start and what is
-- reported of the tunnel.
pub mod Gate
pub mod Pass
use yougpu_agent.Prelude.{
  ℕ, ℤ, pos, String, Bool, true, false, not, ◌&&◌, Option, none, some, List, [], ◌∷◌, map, is_empty,
  is_some, if◌then◌else◌, Run, pure, gets, modify, ◌>>=◌, ◌>>◌,
}
use yougpu_agent.Fetch.{clip}
use yougpu_agent.Spec.{
  AgentSpec, AgentTunnelSpec, AgentContentSpec, AgentStateSpec, AgentFirewallSpec, AgentSshSpec,
  TunnelProxy,
}
use yougpu_agent.Status.{
  AgentStatus, AgentStateObserved, AgentContainerObserved, AgentFirewallObserved,
  AgentSetupObserved, AgentContentObserved, AgentDiskObserved, AgentTunnelObserved, StatusLifecycle,
  SetupState, ContainerState, LifecycleState, TunnelState, connected, disconnected,
}
use yougpu_agent.Agent.{Agent, Parts, Act, Frame, call, post_status}
use yougpu_agent.Agent.Disks.{reconcile_disks, disk_hold, follow_remounts, max_error}
use yougpu_agent.Agent.Readiness.{
  Readiness, ready, unknown, unresponsive, container_readiness, proxies_of,
}

abbrev pub is_ready_setup : SetupState → Bool
is_ready_setup SetupState.ready = true
is_ready_setup SetupState.installing_base = false
is_ready_setup SetupState.installing_docker = false
is_ready_setup SetupState.configuring_gpu = false
is_ready_setup SetupState.installing_storage = false
is_ready_setup SetupState.error = false

-- The name of a disk that holds the start, shown while the container would be pulled.
unfoldable pub with_hold : String → AgentContainerObserved → AgentContainerObserved
with_hold hold obs = elim obs.observed_state [
  | ContainerState.pulling ↦
      if is_empty hold
      then obs
      else record obs { observed_state = ContainerState.starting; detail = some hold }
  | ContainerState.starting ↦ obs
  | ContainerState.running ↦ obs
  | ContainerState.ready ↦ obs
  | ContainerState.absent ↦ obs
  | ContainerState.error ↦ obs
]

abbrev pub with_readiness : Option Readiness → AgentContainerObserved → AgentContainerObserved
with_readiness none obs = obs
with_readiness (some unknown) obs = obs
with_readiness (some ready) obs = record obs { observed_state = ContainerState.ready }
with_readiness (some unresponsive) obs = record obs { unresponsive = true }

abbrev pub blank : ℤ → AgentStatus
blank generation = record {
  observed_generation = generation;
  lifecycle = record { observed_state = LifecycleState.alive; last_error = none };
  disks = [];
  container = none;
  firewall = none;
  setup = none;
  content = none;
  state = none;
  tunnel = none;
}

module _ {W : Type 0} (parts : Parts W) where
  -- Calls of a part from the gate.
  abbrev pub inside : {A : Type 0} → Run W A → Run (Frame W) A
  inside f s = let (x, w) = f s.world in (x, record s { world = w })

  -- The closure `restore` of handleSpec.
  unfoldable pub restore_step : AgentSpec → Run (Frame W) (Unit {0})
  restore_step spec = elim spec.state [
    | none ↦ pure tt
    | some st ↦ do
      (ok, seen) ← inside (parts.state_restore st spec.container)
      modify (λ s. record s { state_ready = ok; state_observed = seen })
  ]

  unfoldable pub settled : Option AgentContentSpec → Run W Bool
  settled none = pure true
  settled (some c) = do (obs, done) ← parts.content_observe; pure done

  -- The function that Reconcile of the container asks before it starts anything.
  unfoldable pub gate : (String → String) → AgentSpec → Run (Frame W) Bool
  unfolding settled restore_step
  gate base spec = do
    restore_step spec
    done ← inside (settled spec.content)
    ok ← gets (λ s. s.state_ready)
    let look : Run (Frame W) Bool = (do
      hold ← inside (disk_hold parts base spec)
      modify (λ s. record s { hold = hold })
      pure (is_empty hold))
    if done && ok then look else pure false

  unfoldable pub start_content : Option AgentContentSpec → AgentSpec → Run W (Unit {0})
  start_content none spec = parts.content_stop
  start_content (some c) spec = parts.content_reconcile c spec.container

  unfoldable pub content_seen : Option AgentContentSpec → Run W (Option AgentContentObserved)
  content_seen none = pure none
  content_seen (some c) = do (obs, done) ← parts.content_observe; pure (some obs)

  unfoldable pub firewall_seen : Option AgentFirewallSpec → Run W (Option AgentFirewallObserved)
  firewall_seen none = pure none
  firewall_seen (some f) = do obs ← parts.firewall_reconcile f; pure (some obs)

  -- Whether the ssh keys are as the specification wants them: `complete` of handleSpec.
  unfoldable pub ssh_complete : Option AgentSshSpec → Run W Bool
  ssh_complete none = pure true
  ssh_complete (some k) = do e ← parts.ssh_reconcile k; pure (not (is_some e))

  unfoldable pub tunnel_seen : List TunnelProxy → Run W (Option AgentTunnelObserved)
  tunnel_seen [] = pure none
  tunnel_seen (p ∷ ps) = do
    (ok, reason) ← parts.tunnel_status (map (λ q. q.subdomain) (p ∷ ps))
    pure (
        some (
          if ok
          then record { observed_state = connected; last_error = none }
          else record { observed_state = disconnected; last_error = some (clip reason max_error) }))

  unfoldable pub take_checkpoint : Option AgentStateSpec → AgentSpec → Run W (Unit {0})
  take_checkpoint none spec = pure tt
  take_checkpoint (some st) spec = elim st.checkpoint [
    | none ↦ pure tt
    | some c ↦ parts.state_checkpoint st spec.container
  ]

  unfoldable pub probe_running :
      ℕ → AgentSpec → AgentContainerObserved → Act W AgentContainerObserved
  probe_running rounds spec obs = elim obs.observed_state [
    | ContainerState.running ↦ do
      r ← container_readiness parts rounds spec obs.spec_hash
      pure (with_readiness r obs)
    | ContainerState.pulling ↦ pure obs
    | ContainerState.starting ↦ pure obs
    | ContainerState.ready ↦ pure obs
    | ContainerState.absent ↦ pure obs
    | ContainerState.error ↦ pure obs
  ]

  -- The container's part of the pass: the state of the frame comes back with what was observed.
  unfoldable pub container_pass :
      (String → String) → AgentSpec → Act W (AgentContainerObserved × Option AgentStateObserved)
  unfolding restore_step
  container_pass base spec = do
    w ← gets (λ a. a.world)
    let start : Frame W = record { state_ready = true; state_observed = none; hold = ""; world = w }
    let before = (restore_step spec start).1
    let (obs, after) = parts.container_reconcile spec.container (gate base spec) before
    modify (λ a. record a { world = after.world })
    follow_remounts parts spec (with_hold after.hold obs).observed_state
    pure (with_hold after.hold obs, after.state_observed)

  unfoldable pub store_applied : AgentSpec → Bool → Option String → Act W (Option String)
  store_applied spec true none a = (none, record a { applied = spec.generation })
  store_applied spec false none a = (none, a)
  store_applied spec complete (some e) a = (some e, a)

  -- The end of the pass: the report, and the generation that counts as applied once it is sent.
  unfoldable pub conclude : AgentSpec → Bool → AgentStatus → ℕ → Act W (Option String)
  unfolding store_applied
  conclude spec complete status seen = do
    applied ← gets (λ a. a.applied)
    e ←
        post_status parts.post
          (record status { observed_generation = if complete then spec.generation else applied })
          (some seen)
    store_applied spec complete e

  -- handleSpec from the disks on.
  unfoldable pub full_pass :
      ℕ → (String → String) → AgentSpec → Bool → AgentSetupObserved → Act W (Option String)
  unfolding start_content firewall_seen probe_running take_checkpoint content_seen tunnel_seen
  full_pass rounds base spec complete setup = do
    disks ← call (reconcile_disks parts spec)
    call (start_content spec.content spec)
    seen ← gets (λ a. a.state_reports)
    (obs, state) ← container_pass base spec
    firewall ← call (firewall_seen spec.firewall)
    call (parts.tunnel_reconcile spec.tunnel)
    obs ← probe_running rounds spec obs
    stop ← call parts.cancelled
    let rest : Act W (Option String) = (do
      call (take_checkpoint spec.state spec)
      content ← call (content_seen spec.content)
      tunnel ← call (tunnel_seen (proxies_of spec.tunnel))
      conclude spec complete
          (record (blank (pos 0)) {
            disks = disks;
            container = some obs;
            firewall = firewall;
            setup = some setup;
            content = content;
            state = state;
            tunnel = tunnel;
          })
          seen)
    if stop then pure none else rest

  -- handleSpec while the machine lives.
  unfoldable pub alive_pass : ℕ → (String → String) → AgentSpec → Act W (Option String)
  alive_pass rounds base spec = do
    call parts.set_alive
    complete ← call (ssh_complete spec.ssh)
    setup ← call parts.setup_reconcile
    let full : Act W (Option String) = full_pass rounds base spec complete setup
    let early : Act W (Option String) = (do
      stop ← call parts.cancelled
      applied ← gets (λ a. a.applied)
      let tell : Act W (Option String) =
          post_status parts.post (record (blank applied) { setup = some setup }) none
      if stop then pure none else tell)
    if is_ready_setup setup.observed_state then full else early

  state_or_outcome : Option AgentStateObserved → Run W (Option AgentStateObserved)
  state_or_outcome none = parts.state_outcome
  state_or_outcome (some s) = pure (some s)

  -- terminate; the inbox is stopped by `stop_alive` of Agent.Intake.
  unfoldable pub terminate : AgentSpec → Act W (Option String)
  unfolding state_or_outcome
  terminate spec = do
    call parts.content_stop
    (lifecycle, saved) ← call (parts.handle_termination spec)
    state ← call (state_or_outcome saved)
    post_status parts.post (record (blank spec.generation) { lifecycle = lifecycle; state = state })
        none

  -- handleSpec
  unfoldable pub handle_spec : ℕ → (String → String) → AgentSpec → Act W (Option String)
  handle_spec rounds base spec =
      if is_some spec.deletion_requested_at then terminate spec else alive_pass rounds base spec
