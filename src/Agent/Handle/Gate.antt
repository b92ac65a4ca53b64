-- ===== src/Agent/Handle/Gate.antt =====
-- internal/agent/agent.go: what the gate of the container start in handleSpec asks for.
use yougpu_agent.Prelude.{
  String, Bool, true, Option, none, some, ◌≡◌, refl, ◌↔◌, inl, inr, All, Bool-cases,
}
use yougpu_agent.Spec.{AgentSpec, AgentStateSpec, AgentContainerSpec, AgentContentSpec}
use yougpu_agent.Agent.{Parts, Frame}
use yougpu_agent.Agent.Disks.{observe_disks, disk_hold}
use yougpu_agent.Agent.Disks.Report.{IsServed, first_hold_exact}
use yougpu_agent.Agent.Handle.{gate, restore_step, settled}

module _ {W : Type 0} (parts : Parts W) (container : Option AgentContainerSpec) where
  -- The saved state is in place: Restore says so, or there is none to restore and it was ready before.
  abbrev pub IsRestored : Option AgentStateSpec → Frame W → Type 0
  IsRestored none s = s.state_ready ≡ true
  IsRestored (some st) s = (parts.state_restore st container s.world).0.0 ≡ true

  -- The world once Restore was asked.
  abbrev pub after_restore : Option AgentStateSpec → W → W
  after_restore none w = w
  after_restore (some st) w = (parts.state_restore st container w).1

module _ {W : Type 0} (parts : Parts W) where
  -- The content is in place: the downloads say so, or none is wanted.
  abbrev pub IsDownloaded : Option AgentContentSpec → W → Type 0
  IsDownloaded none w = Unit {0}
  IsDownloaded (some c) w = (parts.content_observe w).0.1 ≡ true

  -- The world once the downloads were asked.
  abbrev pub after_content : Option AgentContentSpec → W → W
  after_content none w = w
  after_content (some c) w = (parts.content_observe w).1

-- What holds when a container may start: the saved state is in place, then the content is
-- downloaded, then every wanted disk is mounted, each asked in the world that the one before left.
pub record MayStart {W : Type 0} (parts : Parts W) (spec : AgentSpec) (s : Frame W) : Type 0 where
  pub restored : IsRestored parts spec.container spec.state s
  pub downloaded :
      IsDownloaded parts spec.content (after_restore parts spec.container spec.state s.world)
  pub served :
      All
        (IsServed
          (observe_disks parts (
            after_content parts spec.content
              (after_restore parts spec.container spec.state s.world))).0.mounted_disk_ids)
        spec.disks

module _ {W : Type 0} (parts : Parts W) where
  restore_step-IsRestored :
      (spec : AgentSpec) (st : Option AgentStateSpec) (s : Frame W)
      → spec.state ≡ st
      → ((restore_step parts spec s).1.world ≡ after_restore parts spec.container st s.world)
        × (((restore_step parts spec s).1.state_ready ≡ true)
            ↔ IsRestored parts spec.container st s)
  unfolding restore_step
  restore_step-IsRestored spec none s e = rw e (refl, ((λ h. h), λ h. h))
  restore_step-IsRestored spec (some st) s e = rw e (refl, ((λ h. h), λ h. h))

  settled-IsDownloaded :
      (c : Option AgentContentSpec) (w : W)
      → ((settled parts c w).1 ≡ after_content parts c w)
        × (((settled parts c w).0 ≡ true) ↔ IsDownloaded parts c w)
  unfolding settled
  settled-IsDownloaded none w = (refl, ((λ h. tt), λ h. refl))
  settled-IsDownloaded (some c) w = (refl, ((λ h. h), λ h. h))

module _ {W : Type 0} (parts : Parts W) (base : String → String) (spec : AgentSpec)
    (s : Frame W) where
  -- The frame once Restore was asked, and the answer of the downloads.
  abbrev asked : Frame W
  asked = (restore_step parts spec s).1

  abbrev content : Bool × W
  content = settled parts spec.content asked.world

  -- The gate by its three questions.
  gate-asked : ((gate parts base spec s).0 ≡ true) ↔ (
      (asked.state_ready ≡ true)
      × (content.0 ≡ true)
      × All (IsServed (observe_disks parts content.1).0.mounted_disk_ids) spec.disks)
  unfolding gate disk_hold
  gate-asked = elim (Bool-cases content.0) [
    | inr f ↦ rw f ((λ h. absurd (cc h)), λ h. absurd (cc (h.1)))
    | inl t ↦ elim (Bool-cases asked.state_ready) [
      | inr g ↦ rw (t, g) ((λ h. absurd (cc h)), λ h. absurd (cc (h.0)))
      | inl u ↦
          let disks = first_hold_exact base _ spec.disks in
          rw (t, u) ((λ h. (refl, refl, disks.0 h)), λ h. disks.1 (h.2))
    ]
  ]

  -- The gate lets the container start exactly when the saved state is in place, the content is
  -- downloaded and every wanted disk is mounted: the restore, the downloads and the disks are asked
  -- in this order, each in the world that the one before left.
  pub gate_exact : ((gate parts base spec s).0 ≡ true) ↔ MayStart parts spec s
  gate_exact =
      let (w1, state) = restore_step-IsRestored parts spec spec.state s refl in
      let (w2, files) =
        settled-IsDownloaded parts spec.content
          (after_restore parts spec.container spec.state s.world) in
      (
        λ h.
            let (r, d, m) = gate-asked.0 h in
            record {
              restored = state.0 r;
              downloaded = files.0 (rw w1 at d);
              served = rw (w1, w2) at m;
            },
        λ h. gate-asked.1 (state.1 h.restored, rw w1 (files.1 h.downloaded), rw (w1, w2) h.served),
      )
