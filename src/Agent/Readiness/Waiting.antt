-- ===== src/Agent/Readiness/Waiting.antt =====
-- internal/agent/agent.go: the wait for the endpoints of a container ends.
use yougpu_agent.Prelude.{
  ℕ, zero, suc, ◌+◌, ◌≤◌, ◌<◌, ltb, lt→ltb, true, String, List, [], ◌∷◌, Option-cases, is_some, ◌≡◌,
  refl, inl, inr, arith, Bool-cases,
}
use yougpu_agent.Spec.{AgentSpec, TunnelProxy}
use yougpu_agent.Agent.{Agent, Parts}
use yougpu_agent.Agent.Readiness.{
  await, opens, reachable, settle_readiness, container_readiness, answer_of, look_again, wait_first,
  proxies_of, is_settled,
}

-- A clock behind the parts: it is what `now` reads, a pause moves it on by at least its length, and
-- nothing that the wait calls moves it back.
pub record Clock {W : Type 0} (parts : Parts W) : Type 0 where
  pub clock : W → ℕ
  pub now_is : (w : W) → (parts.now w).0 ≡ clock w
  pub now_keeps : (w : W) → clock w ≤ clock (parts.now w).1
  pub pause_moves : (n : ℕ) (w : W) → clock w + n ≤ clock (parts.pause n w).1
  pub cancelled_keeps : (w : W) → clock w ≤ clock (parts.cancelled w).1
  pub look_keeps : (ps : List TunnelProxy) (w : W) → clock w ≤ clock (reachable parts ps w).1

module _ {W : Type 0} (parts : Parts W) (c : Clock parts) where
  opens-keeps :
      (ps : List TunnelProxy) (hash : String) (a : Agent W)
      → (c.clock a.world ≤ c.clock (opens parts ps hash a).1.world)
        × ((opens parts ps hash a).1.ready_probe ≡ a.ready_probe)
  unfolding opens settle_readiness
  opens-keeps ps hash a = elim (Bool-cases (reachable parts ps a.world).0) [
    | inl t ↦ rw t (c.look_keeps ps a.world, refl)
    | inr f ↦ rw f (c.look_keeps ps a.world, refl)
  ]

  -- Past the deadline, the next round answers.
  await_late :
      (deadline : ℕ) (ps : List TunnelProxy) (hash : String) (a : Agent W)
      → deadline < c.clock a.world
      → is_some (await parts 1 deadline ps hash a).0 ≡ true
  unfolding await settle_readiness
  await_late deadline ps hash a late =
      let b : Agent W = (opens parts ps hash a).1 in
      let moved = (opens-keeps ps hash a).0 in
      let read = c.now_is b.world in
      elim (Bool-cases (opens parts ps hash a).0) [
        | inl t ↦ rw t refl
        | inr f ↦ rw (f, lt→ltb deadline (parts.now b.world).0 (omega arith)) refl
      ]

  await-ends :
      (rounds deadline : ℕ) (ps : List TunnelProxy) (hash : String) (a : Agent W)
      → 0 < a.ready_probe
      → deadline < rounds + c.clock a.world
      → is_some (await parts (suc rounds) deadline ps hash a).0 ≡ true
  unfolding await settle_readiness
  await-ends zero deadline ps hash a positive enough = await_late deadline ps hash a (omega arith)
  await-ends (suc rounds) deadline ps hash a positive enough =
      let b : Agent W = (opens parts ps hash a).1 in
      let w : W = (parts.now b.world).1 in
      let p : W = (parts.pause b.ready_probe w).1 in
      let moved = (opens-keeps ps hash a).0 in
      let probe = (opens-keeps ps hash a).1 in
      let w_later = c.now_keeps b.world in
      let p_later = c.pause_moves b.ready_probe w in
      let c_later = c.cancelled_keeps p in
      elim (Bool-cases (opens parts ps hash a).0) [
        | inl t ↦ rw t refl
        | inr f ↦ elim (Bool-cases (ltb deadline (parts.now b.world).0)) [
          | inl late ↦ rw (f, late) refl
          | inr early ↦ elim (Bool-cases (parts.cancelled p).0) [
            | inl stop ↦ rw (f, early, stop) refl
            | inr go ↦
                rw (f, early, go)
                  (await-ends rounds deadline ps hash (record b { world = (parts.cancelled p).1 })
                    (omega arith) (omega arith))
          ]
        ]
      ]

  -- The wait for the endpoints ends with an answer: when the probe interval is positive and the
  -- clock moves on by each pause, one round for each unit of time up to the deadline, and one more,
  -- are enough.
  pub container_readiness_ends :
      (rounds : ℕ) (spec : AgentSpec) (hash : String) (a : Agent W)
      → 0 < a.ready_probe
      → a.ready_timeout < rounds
      → is_some (container_readiness parts (suc rounds) spec hash a).0 ≡ true
  unfolding container_readiness answer_of look_again wait_first
  container_readiness_ends rounds spec hash a positive enough = elim (Option-cases spec.container) [
    | inl e ↦ rw e refl
    | inr (k, e) ↦ rw e (answers (proxies_of spec.tunnel))
  ]
    where
      answers : (ps : List TunnelProxy) → is_some (answer_of parts (suc rounds) ps hash a).0 ≡ true
      answers [] = refl
      answers (p ∷ ps) = elim (Bool-cases (is_settled hash a.ready_hash)) [
        | inl t ↦ rw t refl
        | inr f ↦ elim (Bool-cases (is_settled hash a.waited_hash)) [
          | inl w ↦ rw (f, w) refl
          | inr n ↦
              let read = c.now_is a.world in
              let later = c.now_keeps a.world in
              rw (f, n)
                (await-ends rounds _ (p ∷ ps) hash (record a { world = (parts.now a.world).1 })
                  positive (omega arith))
        ]
      ]
