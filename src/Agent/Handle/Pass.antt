-- ===== src/Agent/Handle/Pass.antt =====
-- internal/agent/agent.go: which generation counts as applied after a pass, and what is reported.
use mathlib.Core.Option
use yougpu_agent.Prelude.{
  ℕ, ℤ, zero, suc, ltb, eqb, String, Bool, true, false, ◌&&◌, Option, none, some, List, [], ◌∷◌,
  is_some, ◌≡◌, refl, sym, not, ◌∙◌, ◌⊎◌, inl, inr, Bool-cases, Option-cases,
}
use yougpu_agent.Spec.{AgentSpec, TunnelProxy}
use yougpu_agent.Status.{
  AgentStatus, AgentContainerObserved, AgentSetupObserved, AgentStateObserved, ContainerState,
}
use yougpu_agent.Agent.{Agent, Parts, call, post_status, fresher, count_report}
use yougpu_agent.Agent.Disks.{
  reconcile_disks, follow_remounts, restart, forget_readiness, is_alive, remounted, mount_ids,
}
use yougpu_agent.Agent.Readiness.{
  await, opens, reachable, settle_readiness, container_readiness, answer_of, look_again, wait_first,
  proxies_of, is_settled,
}
use yougpu_agent.Agent.Handle.{
  handle_spec, alive_pass, full_pass, conclude, store_applied, container_pass, probe_running,
  terminate, ssh_complete, is_ready_setup, start_content, firewall_seen,
}

module _ {W : Type 0} where
  count_report-applied :
      (status : AgentStatus) (e : Option String) (a : Agent W)
      → (count_report status e a).applied ≡ a.applied
  count_report-applied status none a = elim (Bool-cases (is_some status.state)) [
    | inl t ↦ rw t refl
    | inr f ↦ rw f refl
  ]
  count_report-applied status (some e) a = refl

  count_report-world :
      (status : AgentStatus) (e : Option String) (a : Agent W)
      → (count_report status e a).world ≡ a.world
  count_report-world status none a = elim (Bool-cases (is_some status.state)) [
    | inl t ↦ rw t refl
    | inr f ↦ rw f refl
  ]
  count_report-world status (some e) a = refl

  post_status-applied :
      (post : AgentStatus → W → Option String × W) (status : AgentStatus) (seen : Option ℕ)
      (a : Agent W)
      → (post_status post status seen a).1.applied ≡ a.applied
  unfolding post_status
  post_status-applied post status seen a =
      let sent : AgentStatus = fresher seen status a in
      count_report-applied sent (post sent a.world).0 (record a { world = (post sent a.world).1 })

module _ {W : Type 0} (parts : Parts W) where
  opens-applied :
      (ps : List TunnelProxy) (hash : String) (a : Agent W)
      → (opens parts ps hash a).1.applied ≡ a.applied
  unfolding opens settle_readiness
  opens-applied ps hash a = elim (Bool-cases (reachable parts ps a.world).0) [
    | inl t ↦ rw t refl
    | inr f ↦ rw f refl
  ]

  await-applied :
      (rounds deadline : ℕ) (ps : List TunnelProxy) (hash : String) (a : Agent W)
      → (await parts rounds deadline ps hash a).1.applied ≡ a.applied
  unfolding await settle_readiness
  await-applied zero deadline ps hash a = refl
  await-applied (suc rounds) deadline ps hash a =
      let b : Agent W = (opens parts ps hash a).1 in
      let p : W = (parts.pause b.ready_probe (parts.now b.world).1).1 in
      let kept = opens-applied ps hash a in
      elim (Bool-cases (opens parts ps hash a).0) [
        | inl t ↦ rw t kept
        | inr f ↦ elim (Bool-cases (ltb deadline (parts.now b.world).0)) [
          | inl late ↦ rw (f, late) kept
          | inr early ↦ elim (Bool-cases (parts.cancelled p).0) [
            | inl stop ↦ rw (f, early, stop) kept
            | inr go ↦ rw (f, early, go) (await-applied rounds deadline ps hash _ ∙ kept)
          ]
        ]
      ]

  answer_of-applied :
      (rounds : ℕ) (ps : List TunnelProxy) (hash : String) (a : Agent W)
      → (answer_of parts rounds ps hash a).1.applied ≡ a.applied
  unfolding answer_of look_again wait_first
  answer_of-applied rounds [] hash a = refl
  answer_of-applied rounds (p ∷ ps) hash a = elim (Bool-cases (is_settled hash a.ready_hash)) [
    | inl t ↦ rw t refl
    | inr f ↦ elim (Bool-cases (is_settled hash a.waited_hash)) [
      | inl w ↦ rw (f, w) (opens-applied (p ∷ ps) hash a)
      | inr n ↦ rw (f, n) (await-applied rounds _ (p ∷ ps) hash _)
    ]
  ]

  container_readiness-applied :
      (rounds : ℕ) (spec : AgentSpec) (hash : String) (a : Agent W)
      → (container_readiness parts rounds spec hash a).1.applied ≡ a.applied
  unfolding container_readiness
  container_readiness-applied rounds spec hash a = elim (Option-cases spec.container) [
    | inl e ↦ rw e refl
    | inr (c, e) ↦ rw e (answer_of-applied rounds (proxies_of spec.tunnel) hash a)
  ]

  probe_state-applied :
      (rounds : ℕ) (spec : AgentSpec) (obs : AgentContainerObserved) (s : ContainerState)
      (a : Agent W)
      → obs.observed_state ≡ s
      → (probe_running parts rounds spec obs a).1.applied ≡ a.applied
  unfolding probe_running
  probe_state-applied rounds spec obs ContainerState.running a e =
      rw e (container_readiness-applied rounds spec obs.spec_hash a)
  probe_state-applied rounds spec obs ContainerState.pulling a e = rw e refl
  probe_state-applied rounds spec obs ContainerState.starting a e = rw e refl
  probe_state-applied rounds spec obs ContainerState.ready a e = rw e refl
  probe_state-applied rounds spec obs ContainerState.absent a e = rw e refl
  probe_state-applied rounds spec obs ContainerState.error a e = rw e refl

  probe_running-applied :
      (rounds : ℕ) (spec : AgentSpec) (obs : AgentContainerObserved) (a : Agent W)
      → (probe_running parts rounds spec obs a).1.applied ≡ a.applied
  probe_running-applied rounds spec obs a =
      probe_state-applied rounds spec obs obs.observed_state a refl

  follow_remounts-applied :
      (spec : AgentSpec) (s : ContainerState) (a : Agent W)
      → (follow_remounts parts spec s a).1.applied ≡ a.applied
  unfolding follow_remounts restart forget_readiness
  follow_remounts-applied spec s a =
      elim (Bool-cases (
        is_alive s
        && a.container_alive
        && remounted a.mount_ids (mount_ids parts a.mount_ids spec.disks a.world).0)) [
          | inl t ↦ rw t refl
          | inr f ↦ rw f refl
        ]

  container_pass-applied :
      (base : String → String) (spec : AgentSpec) (a : Agent W)
      → (container_pass parts base spec a).1.applied ≡ a.applied
  unfolding container_pass
  container_pass-applied base spec a = follow_remounts-applied spec _ _

  -- The last thing that led to r was the report of a status with this generation, and the backend
  -- accepted it.
  abbrev pub IsAccepted : ℤ → Option String × Agent W → Type 0
  IsAccepted generation r =
      (status : AgentStatus) × (w : W) × (status.observed_generation ≡ generation)
      × ((parts.post status w).0 ≡ none)
      × (r.1.world ≡ (parts.post status w).1)
      × (r.0 ≡ none)

  -- After a pass the applied generation is the one before, or that of the specification, and then
  -- the pass was complete and its report was accepted.
  abbrev Advances : AgentSpec → Bool → ℤ → Option String × Agent W → Type 0
  Advances spec complete before r =
      (r.1.applied ≡ before)
      ⊎ ((r.1.applied ≡ spec.generation) × (complete ≡ true) × IsAccepted spec.generation r)

  fresher-generation :
      (status : AgentStatus) (seen : ℕ) (a : Agent W)
      → (fresher (some seen) status a).observed_generation ≡ status.observed_generation
  fresher-generation status seen a =
      elim (Bool-cases
        (is_some status.state && not (eqb a.state_reports seen) && is_some a.last_state)) [
          | inl t ↦ rw t refl
          | inr f ↦ rw f refl
        ]

  post_status-world :
      (status : AgentStatus) (seen : ℕ) (a : Agent W)
      → (post_status parts.post status (some seen) a).1.world
        ≡ (parts.post (fresher (some seen) status a) a.world).1
  unfolding post_status
  post_status-world status seen a =
      let sent : AgentStatus = fresher (some seen) status a in
      count_report-world sent (parts.post sent a.world).0
        (record a { world = (parts.post sent a.world).1 })

  post_status-answer :
      (status : AgentStatus) (seen : ℕ) (a : Agent W)
      → (post_status parts.post status (some seen) a).0
        ≡ (parts.post (fresher (some seen) status a) a.world).0
  unfolding post_status
  post_status-answer status seen a = refl

  conclude-Advances :
      (spec : AgentSpec) (complete : Bool) (status : AgentStatus) (seen : ℕ) (a : Agent W) (n : ℤ)
      → a.applied ≡ n
      → Advances spec complete n (conclude parts spec complete status seen a)
  unfolding conclude store_applied
  conclude-Advances spec true status seen a n kept =
      let told : AgentStatus = record status { observed_generation = spec.generation } in
      elim (Option-cases (post_status parts.post told (some seen) a).0) [
        | inl sent ↦
            let accepted : (parts.post (fresher (some seen) told a) a.world).0 ≡ none =
              sym (post_status-answer told seen a) ∙ sent in
            let world = post_status-world told seen a in
            let gen = fresher-generation told seen a in
            rw sent
              (inr (refl, refl, (fresher (some seen) told a, a.world, gen, accepted, world, refl)))
        | inr (e, failed) ↦ rw failed (inl (post_status-applied parts.post _ (some seen) a ∙ kept))
      ]
  conclude-Advances spec false status seen a n kept =
      elim (Option-cases
        (post_status parts.post (record status { observed_generation = a.applied }) (some seen)
          a).0) [
            | inl sent ↦ rw sent (inl (post_status-applied parts.post _ (some seen) a ∙ kept))
            | inr (e, failed) ↦
                rw failed (inl (post_status-applied parts.post _ (some seen) a ∙ kept))
          ]

  full_pass-Advances :
      (rounds : ℕ) (base : String → String) (spec : AgentSpec) (complete : Bool)
      (setup : AgentSetupObserved) (a : Agent W)
      → Advances spec complete a.applied (full_pass parts rounds base spec complete setup a)
  unfolding full_pass
  full_pass-Advances rounds base spec complete setup a =
      let a1 : Agent W = (call (reconcile_disks parts spec) a).1 in
      let a2 : Agent W = (call (start_content parts spec.content spec) a1).1 in
      let cp : (AgentContainerObserved × Option AgentStateObserved) × Agent W =
        container_pass parts base spec a2 in
      let a3 : Agent W = (call (firewall_seen parts spec.firewall) cp.1).1 in
      let a4 : Agent W = (call (parts.tunnel_reconcile spec.tunnel) a3).1 in
      let pr : AgentContainerObserved × Agent W = probe_running parts rounds spec cp.0.0 a4 in
      let kept : pr.1.applied ≡ a.applied =
        probe_running-applied rounds spec cp.0.0 a4 ∙ container_pass-applied base spec a2 in
      elim (Bool-cases (parts.cancelled pr.1.world).0) [
        | inl stop ↦ rw stop (inl kept)
        | inr go ↦ rw go (conclude-Advances spec complete _ _ _ _ kept)
      ]

  alive_pass-applied :
      (rounds : ℕ) (base : String → String) (spec : AgentSpec) (a : Agent W)
      → Advances spec
          (ssh_complete parts spec.ssh (parts.set_alive a.world).1).0
          a.applied
          (alive_pass parts rounds base spec a)
  unfolding alive_pass
  alive_pass-applied rounds base spec a =
      let k : Bool × W = ssh_complete parts spec.ssh (parts.set_alive a.world).1 in
      let st : AgentSetupObserved × W = parts.setup_reconcile k.1 in
      elim (Bool-cases (is_ready_setup st.0.observed_state)) [
        | inl t ↦ rw t (full_pass-Advances rounds base spec k.0 st.0 (record a { world = st.1 }))
        | inr f ↦ elim (Bool-cases (parts.cancelled st.1).0) [
          | inl stop ↦ rw (f, stop) (inl refl)
          | inr go ↦ rw (f, go) (inl (post_status-applied parts.post _ none _))
        ]
      ]

  terminate-applied :
      (spec : AgentSpec) (a : Agent W) → (terminate parts spec a).1.applied ≡ a.applied
  unfolding terminate
  terminate-applied spec a = post_status-applied parts.post _ none _

  -- A pass moves the applied generation only to that of its specification, and only when the machine
  -- is not being deleted, the ssh keys are in place, and the pass ended with the report of a status
  -- that names this generation, which the backend accepted.
  pub handle_spec-applied :
      (rounds : ℕ) (base : String → String) (spec : AgentSpec) (a : Agent W)
      → ((handle_spec parts rounds base spec a).1.applied ≡ a.applied)
        ⊎ (((handle_spec parts rounds base spec a).1.applied ≡ spec.generation)
            × (is_some spec.deletion_requested_at ≡ false)
            × ((ssh_complete parts spec.ssh (parts.set_alive a.world).1).0 ≡ true)
            × IsAccepted spec.generation (handle_spec parts rounds base spec a))
  unfolding handle_spec
  handle_spec-applied rounds base spec a = elim (Bool-cases (is_some spec.deletion_requested_at)) [
    | inl e ↦ rw e (inl (terminate-applied spec a))
    | inr e ↦ rw e (with_alive (alive_pass-applied rounds base spec a))
  ]
    where
      with_alive :
          Advances spec
            (ssh_complete parts spec.ssh (parts.set_alive a.world).1).0
            a.applied
            (alive_pass parts rounds base spec a)
          → ((alive_pass parts rounds base spec a).1.applied ≡ a.applied)
            ⊎ (((alive_pass parts rounds base spec a).1.applied ≡ spec.generation)
                × (false ≡ false)
                × ((ssh_complete parts spec.ssh (parts.set_alive a.world).1).0 ≡ true)
                × IsAccepted spec.generation (alive_pass parts rounds base spec a))
      with_alive (inl kept) = inl kept
      with_alive (inr (moved, full, sent)) = inr (moved, refl, full, sent)

module _ {W : Type 0} where
  -- A report made before another one named a newer saved state never brings the older state back:
  -- the one status that is posted carries the newer state wherever the caller's carries a state and
  -- is the caller's in all else, and the newer state stays the last one known, whether the report is
  -- accepted or not.
  pub post_status_newest :
      (post : AgentStatus → W → Option String × W) (status : AgentStatus) (seen : ℕ) (a : Agent W)
      (newer : AgentStateObserved)
      → eqb a.state_reports seen ≡ false
      → a.last_state ≡ some newer
      → ((post_status post status (some seen) a).0
          ≡ (post (record status { state = Option.map (λ old. newer) status.state }) a.world).0)
        × ((post_status post status (some seen) a).1.world
            ≡ (post (record status { state = Option.map (λ old. newer) status.state }) a.world).1)
        × ((post_status post status (some seen) a).1.last_state ≡ some newer)
  unfolding post_status
  post_status_newest post status seen a newer moved last =
      let put : AgentStatus = record status { state = Option.map (λ old. newer) status.state } in
      let same : fresher (some seen) status a ≡ put = sends (Option-cases status.state) in
      rw same (
        refl,
        count_report-world put (post put a.world).0 (record a { world = (post put a.world).1 }),
        counted put (carries (Option-cases status.state)),
      )
    where
      sends :
          (status.state ≡ none) ⊎ ((old : AgentStateObserved) × (status.state ≡ some old))
          → fresher (some seen) status a
            ≡ record status { state = Option.map (λ old. newer) status.state }
      sends (inl silent) = rw silent refl
      sends (inr (old, told)) = rw (told, moved, last) refl

      carries :
          (status.state ≡ none) ⊎ ((old : AgentStateObserved) × (status.state ≡ some old))
          → is_some (Option.map (λ old. newer) status.state) ≡ true
          → Option.map (λ old. newer) status.state ≡ some newer
      carries (inl silent) = rw silent (λ h. absurd (cc h))
      carries (inr (old, told)) = rw told (λ h. refl)

      counted :
          (sent : AgentStatus)
          → (is_some sent.state ≡ true → sent.state ≡ some newer)
          → (count_report sent
              (post sent a.world).0
              (record a { world = (post sent a.world).1 })).last_state
            ≡ some newer
      counted sent h = elim (Option-cases (post sent a.world).0) [
        | inl accepted ↦ elim (Bool-cases (is_some sent.state)) [
          | inl t ↦ rw (accepted, t) (h t)
          | inr f ↦ rw (accepted, f) last
        ]
        | inr (x, refused) ↦ rw refused last
      ]
