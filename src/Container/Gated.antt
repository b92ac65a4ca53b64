-- ===== src/Container/Gated.antt =====
-- internal/container/manager.go: the container while the gate of its start is closed.
use yougpu_agent.Prelude.{
  String, Bool, false, ◌&&◌, ◌==◌, Option, none, some, List, [], ◌∷◌, is_empty, ◌≡◌, ◌≢◌, refl, ◌∙◌,
  inl, inr, Bool-cases, Option-cases, Run,
}
use yougpu_agent.Prelude.Result.{Result-cases}
use yougpu_agent.Spec.{AgentContainerSpec, ContainerVolume}
use yougpu_agent.Container.{
  Docker, Manager, Observed, ApplyError, gate_closed, failed, decide, read_inspect, observe, pulled,
  with_volumes, apply, applied, kept, apply_wanted, perform, converge, told_silent, reconcile_seen,
  reconcile, after, make_volumes,
}
use yougpu_agent.Container.Running.{Lawful}

-- A gate that is closed at every look, and calls before the start that leave the container alone.
pub record Closed {W : Type 0} (docker : Docker W) (laws : Lawful docker) (gate : Run W Bool)
    : Type 0 where
  pub shut : (w : W) → (gate w).0 ≡ false
  pub asked : (w : W) → laws.container (gate w).1 ≡ laws.container w
  pub made : (host : String) (w : W) → laws.container (docker.mkdir host w).1 ≡ laws.container w
  pub fetched : (image : String) (w : W) → laws.container (docker.pull image w).1 ≡ laws.container w

module _ {W : Type 0} (docker : Docker W) (laws : Lawful docker) (gate : Run W Bool)
    (c : Closed docker laws gate) where
  make_volumes-keeps :
      (vs : List ContainerVolume) (m : Manager W)
      → laws.container (make_volumes docker vs m).1.world ≡ laws.container m.world
  unfolding make_volumes after
  make_volumes-keeps [] m = refl
  make_volumes-keeps (v ∷ vs) m = elim (Bool-cases (is_empty v.host)) [
    | inl t ↦ rw t (make_volumes-keeps vs m)
    | inr f ↦ elim (Option-cases (docker.mkdir v.host m.world).0) [
      | inr (e, g) ↦ rw (f, g) (c.made v.host m.world)
      | inl t ↦ rw (f, t) (make_volumes-keeps vs _ ∙ c.made v.host m.world)
    ]
  ]

  with_volumes-keeps :
      (spec : AgentContainerSpec) (hash : String) (e : Option String) (m : Manager W)
      → ((with_volumes docker spec hash gate e m).0 ≢ none)
        × (laws.container (with_volumes docker spec hash gate e m).1.world ≡ laws.container m.world)
  unfolding with_volumes pulled
  with_volumes-keeps spec hash (some e) m = ((λ h. absurd (cc)), refl)
  with_volumes-keeps spec hash none m =
      let p = docker.pull spec.image m.world in
      elim (Option-cases p.0) [
        | inr (e, f) ↦ rw f ((λ h. absurd (cc)), c.fetched spec.image m.world)
        | inl t ↦
            rw (t, c.shut p.1) ((λ h. absurd (cc)), c.asked p.1 ∙ c.fetched spec.image m.world)
      ]

  applied-keeps :
      (hash : String) (e : Option ApplyError) (m : Manager W)
      → e ≢ none
      → laws.container (applied docker hash e m).1.world ≡ laws.container m.world
  unfolding applied
  applied-keeps hash none m h = absurd (h refl)
  applied-keeps hash (some gate_closed) m h = refl
  applied-keeps hash (some (failed e)) m h = refl

  apply_wanted-keeps :
      (spec : AgentContainerSpec) (hash : String) (o : Observed) (m : Manager W)
      → laws.container (apply_wanted docker (some (spec, hash)) gate o m).1.world
        ≡ laws.container m.world
  unfolding apply_wanted apply
  apply_wanted-keeps spec hash o m =
      let v = make_volumes docker spec.volumes m in
      let (fails, same) = with_volumes-keeps spec hash v.0 v.1 in
      applied-keeps hash _ _ fails ∙ (same ∙ make_volumes-keeps spec.volumes m)

  converge-keeps :
      (spec : AgentContainerSpec) (hash : String) (o : Observed) (m : Manager W)
      → laws.container (converge docker (some (spec, hash)) gate o m).1.world
        ≡ laws.container m.world
  unfolding converge decide perform kept
  converge-keeps spec hash o m = elim (Bool-cases (o.exists && o.running && o.spec_hash == hash)) [
    | inr other ↦ rw other (apply_wanted-keeps spec hash o m)
    | inl right ↦ elim (Bool-cases o.running) [
      | inl runs ↦ rw (right, runs) (laws.marked m.world)
      | inr rests ↦ rw (right, rests) refl
    ]
  ]

  -- While the gate of the start is closed, a pass over a specification leaves the container as it is:
  -- the old one is neither removed nor replaced, whatever docker and the puller answer.
  pub reconcile_gated :
      (spec : AgentContainerSpec) (m : Manager W)
      → laws.container (reconcile docker (some spec) gate m).1.world ≡ laws.container m.world
  unfolding reconcile reconcile_seen observe told_silent
  reconcile_gated spec m = elim (Result-cases (read_inspect (docker.inspect m.world).0)) [
    | inr (e, f) ↦ rw f (laws.inspected m.world)
    | inl (o, t) ↦ rw t (converge-keeps spec (docker.hash spec) o _ ∙ laws.inspected m.world)
  ]
