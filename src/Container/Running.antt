-- ===== src/Container/Running.antt =====
-- internal/container/manager.go: a container that is reported as running, and the gate of its start.
use yougpu_agent.Prelude.{
  String, Bool, true, ◌&&◌, ◌==◌, Option, none, some, ◌≡◌, refl, ◌∙◌, inl, inr, Bool-cases, Run,
  pure, ◌>>◌, if◌then◌else◌, false,
}
use yougpu_agent.Prelude.Result.{ok}
use yougpu_agent.Spec.{AgentContainerSpec}
use yougpu_agent.Status.{AgentContainerObserved, ContainerState}
use yougpu_agent.Container.{
  Docker, Manager, Observed, ApplyError, gate_closed, failed, decide, read_inspect, observe, report,
  told_after_run, call, applied, kept, apply_wanted, perform, converge, reconcile_seen, reconcile,
}

-- What is relied on of docker: an inspection shows the container and changes nothing, and neither
-- does the note that the container was started.
pub record Lawful {W : Type 0} (docker : Docker W) : Type 0 where
  pub container : W → Observed
  pub shown : (o : Observed) (w : W) → read_inspect (docker.inspect w).0 ≡ ok o → container w ≡ o
  pub inspected : (w : W) → container (docker.inspect w).1 ≡ container w
  pub marked : (w : W) → container (docker.mark w).1 ≡ container w

-- The container is there and runs, with the label that is reported.
abbrev pub RunsAs : AgentContainerObserved → Observed → Type 0
RunsAs told o = (o.exists ≡ true) × (o.running ≡ true) × (o.spec_hash ≡ told.spec_hash)

report-RunsAs :
    (hash : String) (o : Observed)
    → (report (some hash) o).observed_state ≡ ContainerState.running
    → RunsAs (report (some hash) o) o
unfolding report
report-RunsAs hash o told = elim (Bool-cases o.exists) [
  | inr f ↦ absurd (cc (rw f at told))
  | inl t ↦ elim (Bool-cases o.running) [
    | inr g ↦ absurd (cc (rw (t, g) at told))
    | inl u ↦ rw (t, u) (refl, refl, refl)
  ]
]

module _ {W : Type 0} (docker : Docker W) (laws : Lawful docker)
    (answers : (w : W) → (o : Observed) × (read_inspect (docker.inspect w).0 ≡ ok o)) where
  applied-RunsAs :
      (hash : String) (e : Option ApplyError) (m : Manager W)
      → (applied docker hash e m).0.observed_state ≡ ContainerState.running
      → RunsAs (applied docker hash e m).0 (laws.container (applied docker hash e m).1.world)
  unfolding applied observe told_after_run
  applied-RunsAs hash (some gate_closed) m told = absurd (cc)
  applied-RunsAs hash (some (failed e)) m told = absurd (cc)
  applied-RunsAs hash none m told =
      let (o, answered) = answers m.world in
      rw (answered, laws.inspected m.world, laws.shown o m.world answered)
        (report-RunsAs hash o (rw answered at told))

  kept-container :
      (spec : AgentContainerSpec) (hash : String) (o : Observed) (m : Manager W)
      → ((kept docker (some (spec, hash)) o m).0 ≡ report (some hash) o)
        × (laws.container (kept docker (some (spec, hash)) o m).1.world ≡ laws.container m.world)
  unfolding kept
  kept-container spec hash o m = of_running o.running
    where
      of_running :
          (b : Bool)
          → ((((if b then call docker docker.mark else pure tt) >> pure (report (some hash) o)) m).0
              ≡ report (some hash) o)
            × (laws.container
                  (((if b then call docker docker.mark else pure tt) >> pure (report (some hash) o))
                    m).1.world
                ≡ laws.container m.world)
      of_running true = (refl, laws.marked m.world)
      of_running false = (refl, refl)

  kept-RunsAs :
      (spec : AgentContainerSpec) (hash : String) (o : Observed) (m : Manager W)
      → laws.container m.world ≡ o
      → (kept docker (some (spec, hash)) o m).0.observed_state ≡ ContainerState.running
      → RunsAs
          (kept docker (some (spec, hash)) o m).0
          (laws.container (kept docker (some (spec, hash)) o m).1.world)
  kept-RunsAs spec hash o m same told =
      let (says, stays) = kept-container spec hash o m in
      rw (says, stays, same) (report-RunsAs hash o (rw says at told))

  converge-RunsAs :
      (spec : AgentContainerSpec) (hash : String) (gate : Run W Bool) (o : Observed) (m : Manager W)
      → laws.container m.world ≡ o
      → (converge docker (some (spec, hash)) gate o m).0.observed_state ≡ ContainerState.running
      → RunsAs
          (converge docker (some (spec, hash)) gate o m).0
          (laws.container (converge docker (some (spec, hash)) gate o m).1.world)
  unfolding converge decide perform apply_wanted
  converge-RunsAs spec hash gate o m same told =
      elim (Bool-cases (o.exists && o.running && o.spec_hash == hash)) [
        | inl right ↦ rw right (kept-RunsAs spec hash o m same (rw right at told))
        | inr other ↦ rw other (applied-RunsAs hash _ _ (rw other at told))
      ]

  -- While docker answers every inspection, a container that a pass reports as running is there and
  -- runs when the pass ends, with the label that is reported, whichever way the pass took: it was
  -- kept, or it was started anew, whatever became of the start, and looked at again.
  pub reconcile_running :
      (spec : AgentContainerSpec) (gate : Run W Bool) (m : Manager W)
      → (reconcile docker (some spec) gate m).0.observed_state ≡ ContainerState.running
      → RunsAs
          (reconcile docker (some spec) gate m).0
          (laws.container (reconcile docker (some spec) gate m).1.world)
  unfolding reconcile reconcile_seen observe
  reconcile_running spec gate m told =
      let (o, answered) = answers m.world in
      rw answered (
        converge-RunsAs spec (docker.hash spec) gate o
          (record m { world = (docker.inspect m.world).1 })
          (laws.inspected m.world ∙ laws.shown o m.world answered) (rw answered at told))
