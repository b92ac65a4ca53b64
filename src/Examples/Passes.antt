-- ===== src/Examples/Passes.antt =====
-- Examples of passes of the agent: a machine whose calls succeed, over a clock.
use yougpu_agent.Prelude.{
  inl, ℕ, ◌+◌, ◌≤◌, ◌<◌, arith, pos, String, true, false, is_some, none, some, List, [], ◌∷◌, ◌≡◌,
  ◌↔◌, ◌⊎◌, refl,
}
use yougpu_agent.Prelude.Result.{Result, ok}
use yougpu_agent.Spec.{AgentSpec, TunnelProxy}
use yougpu_agent.Status.{
  AgentStatus, AgentStateObserved, AgentContainerObserved, ContainerState, FirewallState,
  SetupState, ContentState, LifecycleState, saved,
}
use yougpu_agent.Agent.{Agent, Frame, Parts, post_status}
use yougpu_agent.Agent.Disks.{is_alive, follow_remounts, mount_ids}
use yougpu_agent.Agent.Disks.Remounts.{remounted_once, remounted_restarts}
use yougpu_agent.Agent.Readiness.{reachable, ports_listening, container_readiness}
use yougpu_agent.Agent.Readiness.Waiting.{Clock, container_readiness_ends}
use yougpu_agent.Agent.Handle.{blank, gate, handle_spec, ssh_complete}
use yougpu_agent.Agent.Handle.Gate.{MayStart, gate_exact}
use yougpu_agent.Agent.Handle.Pass.{IsAccepted, handle_spec-applied, post_status_newest}
use yougpu_agent.Examples.{spec_of, app, disk}

abbrev running : AgentContainerObserved
running = record {
  observed_state = ContainerState.running;
  progress = none;
  detail = none;
  spec_hash = "h";
  last_error = none;
  unresponsive = false;
}

-- A machine on which everything is in place, except that no port is open.
abbrev parts : Parts ℕ
parts = record {
  mount = λ d w. (none, w);
  unmount = λ id w. (none, w);
  list_units = λ w. (ok ("one" ∷ []), w);
  is_active = λ id w. (ok true, w);
  mount_id = λ id w. (ok "42", w);
  container_reconcile = λ spec may f. (running, f);
  container_restart = λ w. (none, w);
  firewall_reconcile =
      λ spec w. (record { observed_state = FirewallState.applied; last_error = none }, w);
  ssh_reconcile = λ spec w. (none, w);
  tunnel_reconcile = λ spec w. (tt, w);
  tunnel_status = λ names w. ((true, ""), w);
  setup_reconcile = λ w. (record { observed_state = SetupState.ready; last_error = none }, w);
  content_reconcile = λ spec container w. (tt, w);
  content_observe = λ w. (
    (
      record {
        observed_state = ContentState.ready;
        progress = none;
        detail = none;
        last_error = none;
      },
      true,
    ),
    w,
  );
  content_stop = λ w. (tt, w);
  state_restore = λ spec container w. ((true, none), w);
  state_checkpoint = λ spec container w. (tt, w);
  state_outcome = λ w. (none, w);
  set_alive = λ w. (tt, w);
  handle_termination =
      λ spec w. ((record { observed_state = LifecycleState.synced; last_error = none }, none), w);
  post = λ status w. (none, w);
  port_open = λ p w. (false, w);
  now = λ w. (w, w);
  pause = λ n w. (tt, w + n);
  cancelled = λ w. (false, w);
}

abbrev last : AgentStateObserved
last = record { observed_state = saved; sha256 = some "ab"; size_bytes = some 7; last_error = none }

abbrev agent : Agent ℕ
agent = record {
  applied = pos 1;
  mount_ids = [];
  container_alive = false;
  ready_hash = "";
  waited_hash = "";
  ready_timeout = 10;
  ready_probe = 5;
  state_reports = 2;
  last_state = some last;
  world = 100;
}

abbrev base : String → String
base p = "data"

abbrev frame : Frame ℕ
frame = record { state_ready = true; state_observed = none; hold = ""; world = 100 }

gate_exact_example :
    ((gate parts base (spec_of 3 none) frame).0 ≡ true) ↔ MayStart parts (spec_of 3 none) frame
gate_exact_example = gate_exact parts base (spec_of 3 none) frame

handle_spec-applied_example :
    ((handle_spec parts 9 base (spec_of 3 none) agent).1.applied ≡ pos 1)
    ⊎ (((handle_spec parts 9 base (spec_of 3 none) agent).1.applied ≡ pos 3)
        × (is_some (spec_of 3 none).deletion_requested_at ≡ false)
        × ((ssh_complete parts none 100).0 ≡ true)
        × IsAccepted parts (pos 3) (handle_spec parts 9 base (spec_of 3 none) agent))
handle_spec-applied_example = handle_spec-applied parts 9 base (spec_of 3 none) agent

abbrev older : AgentStatus
older = record (blank (pos 3)) { state = some (record last { size_bytes = some 5 }) }

post_status_newest_example :
    ((post_status parts.post older (some 1) agent).0 ≡ none)
    × ((post_status parts.post older (some 1) agent).1.world ≡ 100)
    × ((post_status parts.post older (some 1) agent).1.last_state ≡ some last)
post_status_newest_example = post_status_newest parts.post older 1 agent last refl refl

abbrev tunnelled : AgentSpec
tunnelled = record (spec_of 3 none) {
  container = some app;
  tunnel = some (record {
    slug = "s";
    frps_addr = "a";
    frp_token = "t";
    proxies = record { subdomain = "ui"; local_port = 8080 } ∷ [];
  });
}

look-keeps : (ps : List TunnelProxy) (w : ℕ) → w ≤ (reachable parts ps w).1
unfolding reachable ports_listening
look-keeps [] w = omega arith
look-keeps (p ∷ ps) w = omega arith

pause_later : (n w : ℕ) → w + n ≤ w + n
pause_later n w = omega arith

same_time : (w : ℕ) → w ≤ w
same_time w = omega arith

abbrev clock : Clock parts
clock = record {
  clock = λ w. w;
  now_is = λ w. refl;
  now_keeps = same_time;
  pause_moves = pause_later;
  cancelled_keeps = same_time;
  look_keeps = look-keeps;
}

probe_positive : 0 < agent.ready_probe
probe_positive = omega arith

enough_rounds : agent.ready_timeout < 11
enough_rounds = omega arith

container_readiness_ends_example :
    is_some (container_readiness parts 12 tunnelled "h" agent).0 ≡ true
container_readiness_ends_example =
    container_readiness_ends parts clock 11 tunnelled "h" agent probe_positive enough_rounds

abbrev answer : String → Result String String
answer id = ok "42"

steady : (id : String) (w : ℕ) → (parts.mount_id id w).0 ≡ answer id
steady id w = refl

abbrev two : AgentSpec
two = spec_of 3 none

-- A container that was alive, over disks that had other mount ids.
abbrev before : Agent ℕ
before = record agent { mount_ids = ("one", "41") ∷ []; container_alive = true }

abbrev behind : Agent ℕ
behind = record (follow_remounts parts two ContainerState.running before).1 { world = 200 }

remounted_once_example :
    (follow_remounts parts two ContainerState.ready behind).1.world
    ≡ (mount_ids parts behind.mount_ids two.disks 200).1
remounted_once_example =
    remounted_once parts answer steady two ContainerState.running ContainerState.ready before behind
      refl

remounted_restarts_example :
    (follow_remounts parts two ContainerState.running before).1.world
    ≡ (parts.container_restart (mount_ids parts before.mount_ids two.disks 100).1).1
unfolding is_alive
remounted_restarts_example =
    remounted_restarts parts answer steady two ContainerState.running before (disk "one" "mounted")
      "42" (inl refl) refl refl refl refl refl refl refl
