-- ===== src/Reconcile.antt =====
-- internal/reconcile/reconcile.go and action.go: which disks to mount and to unmount.
-- Observed sets are lists of the ids that they hold; the list of units stands in the order in
-- which Go happens to range over that map.
pub mod Plan
use yougpu_agent.Prelude.{
  String, Bool, true, false, ◌||◌, not, Option, none, some, List, [], ◌∷◌, ◌++◌, has, ◌==◌,
  if◌then◌else◌,
}
use yougpu_agent.Spec.{AgentDiskSpec, AgentSpec, desired_mounted, desired_unmounted}

pub data Action : Type 0 where
  mount_disk : AgentDiskSpec → Action
  unmount_disk : String → Action
  unmount_orphan : String → Action

unfoldable pub kind : Action → String
kind (mount_disk d) = "mount"
kind (unmount_disk id) = "unmount"
kind (unmount_orphan id) = "unmount_orphan"

pub record ObservedState : Type 0 where
  pub mounted_disk_ids : List String
  pub unit_disk_ids : List String

-- The body of the loop over the specification's disks: what it appends.
unfoldable pub disk_actions : ObservedState → AgentDiskSpec → List Action
disk_actions observed disk =
    if disk.desired_state == desired_mounted
    then (if has observed.mounted_disk_ids disk.id then [] else mount_disk disk ∷ [])
    else if disk.desired_state == desired_unmounted
    then (if has observed.mounted_disk_ids disk.id || has observed.unit_disk_ids disk.id
        then unmount_disk disk.id ∷ []
        else [])
    else []

unfoldable pub spec_actions : ObservedState → List AgentDiskSpec → List Action
unfolding disk_actions
spec_actions observed [] = []
spec_actions observed (d ∷ ds) = disk_actions observed d ++ spec_actions observed ds

-- `specIDs`.
abbrev pub spec_ids : List AgentDiskSpec → List String
spec_ids [] = []
spec_ids (d ∷ ds) = d.id ∷ spec_ids ds

-- The loop over the units.
unfoldable pub orphan_actions : List String → List String → List Action
orphan_actions ids [] = []
orphan_actions ids (u ∷ us) =
    let rest = orphan_actions ids us in if has ids u then rest else unmount_orphan u ∷ rest

unfoldable pub reconcile : Option AgentSpec → ObservedState → List Action
unfolding spec_actions orphan_actions
reconcile none observed = []
reconcile (some spec) observed =
    spec_actions observed spec.disks ++ orphan_actions (spec_ids spec.disks) observed.unit_disk_ids
