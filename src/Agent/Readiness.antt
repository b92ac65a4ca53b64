-- ===== src/Agent/Readiness.antt =====
-- internal/agent/agent.go: when a running container counts as ready. The endpoints are the ports of
-- the tunnel's proxies; a tunnel manager is always configured, so the tunnel's status decides.
pub mod Waiting
use yougpu_agent.Prelude.{
  ℕ, zero, suc, ◌+◌, ltb, String, Bool, true, false, not, ◌&&◌, Option, none, some, List, [], ◌∷◌,
  map, ◌==◌, is_empty, if◌then◌else◌, pure, gets, modify, ◌>>=◌, ◌>>◌, Run,
}
use yougpu_agent.Spec.{AgentSpec, AgentTunnelSpec, TunnelProxy}
use yougpu_agent.Agent.{Agent, Parts, Act, call}

pub data Readiness : Type 0 where
  unknown ready unresponsive : Readiness

abbrev pub proxies_of : Option AgentTunnelSpec → List TunnelProxy
proxies_of none = []
proxies_of (some t) = t.proxies

-- The Booleans of readinessOf.
abbrev pub is_settled : String → String → Bool
is_settled hash settled = not (is_empty hash) && settled == hash

module _ {W : Type 0} where
  unfoldable pub settle_readiness : String → Bool → Act W (Unit {0})
  settle_readiness hash true a = (tt, record a { ready_hash = hash; waited_hash = hash })
  settle_readiness hash false a = (tt, record a { waited_hash = hash })

module _ {W : Type 0} (parts : Parts W) where
  unfoldable pub ports_listening : List ℕ → Run W Bool
  ports_listening [] = pure true
  ports_listening (p ∷ ps) = do
    ok ← parts.port_open p
    let rest : Run W Bool = ports_listening ps
    if ok then rest else pure false

  -- Whether the endpoints answer: each port is dialled, then the tunnel asked.
  unfoldable pub reachable : List TunnelProxy → Run W Bool
  unfolding ports_listening
  reachable proxies = do
    listening ← ports_listening (map (λ p. p.local_port) proxies)
    let ask : Run W Bool = (do
      (ok, reason) ← parts.tunnel_status (map (λ p. p.subdomain) proxies)
      pure ok)
    if listening then ask else pure false

  -- The function `open` of containerReadiness.
  unfoldable pub opens : List TunnelProxy → String → Act W Bool
  unfolding reachable settle_readiness
  opens proxies hash = do
    ok ← call (reachable proxies)
    let settle : Act W Bool = (do settle_readiness hash true; pure true)
    if ok then settle else pure false

  -- The wait for the endpoints until the deadline, in at most `rounds` rounds; none when they are
  -- not enough.
  unfoldable pub await : ℕ → ℕ → List TunnelProxy → String → Act W (Option Readiness)
  unfolding settle_readiness
  await zero deadline proxies hash = pure none
  await (suc rounds) deadline proxies hash = do
    ok ← opens proxies hash
    let rest : Act W (Option Readiness) = await rounds deadline proxies hash
    let next : Act W (Option Readiness) = (do
      now ← call parts.now
      let give_up : Act W (Option Readiness) = (do
        settle_readiness hash false
        pure (some unresponsive))
      let again : Act W (Option Readiness) = (do
        probe ← gets (λ a. a.ready_probe)
        call (parts.pause probe)
        stop ← call parts.cancelled
        if stop then pure (some unknown) else rest)
      if ltb deadline now then give_up else again)
    if ok then pure (some ready) else next

  -- One look, once a wait has ended without an answer.
  unfoldable pub look_again : List TunnelProxy → String → Act W (Option Readiness)
  look_again proxies hash = do
    ok ← opens proxies hash
    pure (some (if ok then ready else unresponsive))

  unfoldable pub wait_first : ℕ → List TunnelProxy → String → Act W (Option Readiness)
  wait_first rounds proxies hash = do
    now ← call parts.now
    timeout ← gets (λ a. a.ready_timeout)
    await rounds (now + timeout) proxies hash

  unfoldable pub answer_of : ℕ → List TunnelProxy → String → Act W (Option Readiness)
  unfolding look_again wait_first
  answer_of rounds [] hash = pure (some ready)
  answer_of rounds (p ∷ ps) hash = do
    known ← gets (λ a. is_settled hash a.ready_hash)
    waited ← gets (λ a. is_settled hash a.waited_hash)
    if known
        then pure (some ready)
        else (if waited then look_again (p ∷ ps) hash else wait_first rounds (p ∷ ps) hash)

  -- containerReadiness
  unfoldable pub container_readiness : ℕ → AgentSpec → String → Act W (Option Readiness)
  unfolding answer_of
  container_readiness rounds spec hash = elim spec.container [
    | none ↦ pure (some ready)
    | some c ↦ answer_of rounds (proxies_of spec.tunnel) hash
  ]
