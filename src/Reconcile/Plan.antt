-- ===== src/Reconcile/Plan.antt =====
-- What the plan of internal/reconcile/reconcile.go holds, and when it is empty.
use yougpu_agent.Prelude.{
  String, true, false, none, some, List, [], ◌∷◌, has, has→In, In→has, In, In-append,
  In-append_left, In-append_right, ◌==◌, eq_iff, ◌≡◌, refl, sym, subst, ◌⊎◌, inl, inr, ◌↔◌, arith,
  Bool-cases, ◌||◌,
}
use yougpu_agent.Spec.{AgentDiskSpec, AgentSpec, desired_mounted, desired_unmounted}
use yougpu_agent.Reconcile.{
  Action, mount_disk, unmount_disk, unmount_orphan, ObservedState, disk_actions, spec_actions,
  spec_ids, orphan_actions, reconcile,
}

-- Why an action belongs into a plan, said of the specification and the observation alone.
abbrev pub IsDue : AgentSpec → ObservedState → Action → Type 0
IsDue spec o (mount_disk d) =
    In d spec.disks × (d.desired_state ≡ desired_mounted) × (has o.mounted_disk_ids d.id ≡ false)
IsDue spec o (unmount_disk id) =
    (d : AgentDiskSpec) × In d spec.disks
    × (d.id ≡ id)
    × (d.desired_state ≡ desired_unmounted)
    × (In id o.mounted_disk_ids ⊎ In id o.unit_disk_ids)
IsDue spec o (unmount_orphan id) = In id o.unit_disk_ids × (has (spec_ids spec.disks) id ≡ false)

or_In :
    (o : ObservedState) (id : String)
    → (has o.mounted_disk_ids id || has o.unit_disk_ids id) ≡ true
    → In id o.mounted_disk_ids ⊎ In id o.unit_disk_ids
or_In o id h = elim (Bool-cases (has o.mounted_disk_ids id)) [
  | inl m ↦ inl (has→In _ _ m)
  | inr n ↦ inr (has→In _ _ (rw n at h))
]

either_side :
    (o : ObservedState) (id : String)
    → In id o.mounted_disk_ids ⊎ In id o.unit_disk_ids
    → (has o.mounted_disk_ids id || has o.unit_disk_ids id) ≡ true
either_side o id (inl m) = rw (In→has _ _ m)
either_side o id (inr u) = ground (arith, In→has o.unit_disk_ids id u)

-- What the body of the loop appends for a disk that has something due.
mount-disk_actions :
    (o : ObservedState) (d : AgentDiskSpec)
    → d.desired_state ≡ desired_mounted
    → has o.mounted_disk_ids d.id ≡ false
    → In (mount_disk d) (disk_actions o d)
unfolding disk_actions
mount-disk_actions o d up absent = rw ((eq_iff _ _).1 up, absent) (inl refl)

unmount-disk_actions :
    (o : ObservedState) (d : AgentDiskSpec) (id : String)
    → d.id ≡ id
    → d.desired_state ≡ desired_unmounted
    → In id o.mounted_disk_ids ⊎ In id o.unit_disk_ids
    → In (unmount_disk id) (disk_actions o d)
unfolding disk_actions
unmount-disk_actions o d id e down there = rw (down, e, either_side o id there) (inl refl)

module _ (spec : AgentSpec) (o : ObservedState) where
  disk_actions_sound :
      (d : AgentDiskSpec) (a : Action) → In d spec.disks → In a (disk_actions o d) → IsDue spec o a
  unfolding disk_actions
  disk_actions_sound d a m h = elim (Bool-cases (d.desired_state == desired_mounted)) [
    | inl up ↦ elim (Bool-cases (has o.mounted_disk_ids d.id)) [
      | inl there ↦ absurd (rw (up, there) at h)
      | inr absent ↦ elim (rw (up, absent) at h) [
        | inl e ↦ subst (IsDue spec o) e (m, (eq_iff _ _).0 up, absent)
        | inr none_left ↦ absurd none_left
      ]
    ]
    | inr not_up ↦ elim (Bool-cases (d.desired_state == desired_unmounted)) [
      | inl down ↦ elim (Bool-cases (has o.mounted_disk_ids d.id || has o.unit_disk_ids d.id)) [
        | inl there ↦ elim (rw (not_up, down, there) at h) [
          | inl e ↦ subst (IsDue spec o) e (d, m, refl, (eq_iff _ _).0 down, or_In o d.id there)
          | inr none_left ↦ absurd none_left
        ]
        | inr absent ↦ absurd (rw (not_up, down, absent) at h)
      ]
      | inr not_down ↦ absurd (rw (not_up, not_down) at h)
    ]
  ]

  spec_actions_sound :
      (ds : List AgentDiskSpec) (a : Action)
      → ((d : AgentDiskSpec) → In d ds → In d spec.disks)
      → In a (spec_actions o ds)
      → IsDue spec o a
  unfolding spec_actions
  spec_actions_sound [] a sub h = absurd h
  spec_actions_sound (d ∷ ds) a sub h = elim (In-append a (disk_actions o d) _ h) [
    | inl now ↦ disk_actions_sound d a (sub d (inl refl)) now
    | inr later ↦ spec_actions_sound ds a (λ e m. sub e (inr m)) later
  ]

  orphan_actions_sound :
      (us : List String) (a : Action)
      → ((u : String) → In u us → In u o.unit_disk_ids)
      → In a (orphan_actions (spec_ids spec.disks) us)
      → IsDue spec o a
  unfolding orphan_actions
  orphan_actions_sound [] a sub h = absurd h
  orphan_actions_sound (u ∷ us) a sub h = elim (Bool-cases (has (spec_ids spec.disks) u)) [
    | inl known ↦ orphan_actions_sound us a (λ v m. sub v (inr m)) (rw known at h)
    | inr unknown ↦ elim (rw unknown at h) [
      | inl e ↦ subst (IsDue spec o) e (sub u (inl refl), unknown)
      | inr later ↦ orphan_actions_sound us a (λ v m. sub v (inr m)) later
    ]
  ]

-- What one disk has due is in the plan of all.
disk_actions-In :
    (o : ObservedState) (ds : List AgentDiskSpec) (d : AgentDiskSpec) (a : Action)
    → In d ds
    → In a (disk_actions o d)
    → In a (spec_actions o ds)
unfolding spec_actions
disk_actions-In o [] d a m h = absurd m
disk_actions-In o (x ∷ ds) d a (inl e) h =
    In-append_left a (disk_actions o x) _ (subst (λ y. In a (disk_actions o y)) (sym e) h)
disk_actions-In o (x ∷ ds) d a (inr m) h =
    In-append_right a (disk_actions o x) _ (disk_actions-In o ds d a m h)

orphan-In :
    (ids us : List String) (u : String)
    → In u us
    → has ids u ≡ false
    → In (unmount_orphan u) (orphan_actions ids us)
unfolding orphan_actions
orphan-In ids [] u m h = absurd m
orphan-In ids (v ∷ us) u (inl e) h = rw (e, h) (inl refl)
orphan-In ids (v ∷ us) u (inr m) h = elim (Bool-cases (has ids v)) [
  | inl known ↦ rw known (orphan-In ids us u m h)
  | inr unknown ↦ rw unknown (inr (orphan-In ids us u m h))
]

reconcile_complete :
    (spec : AgentSpec) (o : ObservedState) (a : Action)
    → IsDue spec o a
    → In a (reconcile (some spec) o)
unfolding reconcile
reconcile_complete spec o (mount_disk d) (m, up, absent) =
    In-append_left _ (spec_actions o spec.disks) _
      (disk_actions-In o spec.disks d _ m (mount-disk_actions o d up absent))
reconcile_complete spec o (unmount_disk id) (d, m, e, down, there) =
    In-append_left _ (spec_actions o spec.disks) _
      (disk_actions-In o spec.disks d _ m (unmount-disk_actions o d id e down there))
reconcile_complete spec o (unmount_orphan u) (m, unknown) =
    In-append_right _ (spec_actions o spec.disks) _
      (orphan-In (spec_ids spec.disks) o.unit_disk_ids u m unknown)

reconcile_sound :
    (spec : AgentSpec) (o : ObservedState) (a : Action)
    → In a (reconcile (some spec) o)
    → IsDue spec o a
unfolding reconcile
reconcile_sound spec o a h = elim (In-append a (spec_actions o spec.disks) _ h) [
  | inl l ↦ spec_actions_sound spec o spec.disks a (λ d m. m) l
  | inr r ↦ orphan_actions_sound spec o o.unit_disk_ids a (λ u m. m) r
]

-- The plan for a specification holds exactly the actions that are due: a disk to be mounted that is
-- not, a disk to be unmounted that is mounted or has a unit, and a unit that no disk of the
-- specification has.
pub reconcile-exact :
    (spec : AgentSpec) (o : ObservedState) (a : Action)
    → In a (reconcile (some spec) o) ↔ IsDue spec o a
reconcile-exact spec o a = (reconcile_sound spec o a, reconcile_complete spec o a)

nothing_In : {A : Type 0} (l : List A) → ((a : A) → ¬ In a l) → l ≡ []
nothing_In [] h = refl
nothing_In (a ∷ l) h = absurd (h a (inl refl))

-- The plan is empty exactly when no action is due, and without a specification it always is.
reconcile_settled :
    (spec : AgentSpec) (o : ObservedState)
    → ((reconcile (some spec) o ≡ []) ↔ ((a : Action) → ¬ IsDue spec o a)) × (reconcile none o ≡ [])
unfolding reconcile
reconcile_settled spec o = (
  (
    λ e a due. subst (In a) e (reconcile_complete spec o a due),
    λ h. nothing_In _ (λ a m. h a (reconcile_sound spec o a m)),
  ),
  refl,
)
