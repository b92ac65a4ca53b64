-- ===== src/Agent/Disks/Report.antt =====
-- internal/agent/agent.go: what the agent says of the disks, and which disk holds the container.
use yougpu_agent.Prelude.{
  String, true, false, none, List, [], ◌∷◌, ◌==◌, ◌<>◌, is_empty, ◌≡◌, refl, inl, inr, ◌↔◌, All, In,
  has, has→In, In→has, Bool-cases, Option-cases, eq_refl, eq_iff, map,
}
use yougpu_agent.Fetch.{clip, clip_from, rune_len}
use yougpu_agent.Spec.{AgentDiskSpec, desired_mounted}
use yougpu_agent.Status.{AgentDiskObserved, mounted, unmounted}
use yougpu_agent.Agent.Disks.{
  Errors, error_of, disk_state, disk_reports, hold_name, first_hold, max_container_detail,
}

-- A wanted disk is mounted.
abbrev pub IsServed : List String → AgentDiskSpec → Type 0
IsServed up d = d.desired_state ≡ desired_mounted → In d.id up

hold_text-is_empty :
    (name : String) → is_empty (clip ("ждём диск " <> name) max_container_detail) ≡ false
unfolding clip clip_from rune_len
hold_text-is_empty name = refl

first_hold-All :
    (base : String → String) (up : List String) (ds : List AgentDiskSpec)
    → is_empty (first_hold base up ds) ≡ true
    → All (IsServed up) ds
unfolding first_hold
first_hold-All base up [] h = tt
first_hold-All base up (d ∷ ds) h = elim (Bool-cases (d.desired_state == desired_mounted)) [
  | inr f ↦
      ((λ e. absurd (cc (f, e, eq_refl desired_mounted))), first_hold-All base up ds (rw f at h))
  | inl t ↦ elim (Bool-cases (has up d.id)) [
    | inl m ↦ ((λ e. has→In up d.id m), first_hold-All base up ds (rw (t, m) at h))
    | inr n ↦ absurd (cc (rw (t, n) at h, hold_text-is_empty (hold_name base d)))
  ]
]

All-first_hold :
    (base : String → String) (up : List String) (ds : List AgentDiskSpec)
    → All (IsServed up) ds
    → is_empty (first_hold base up ds) ≡ true
unfolding first_hold
All-first_hold base up [] h = refl
All-first_hold base up (d ∷ ds) (served, h) =
    elim (Bool-cases (d.desired_state == desired_mounted)) [
      | inr f ↦ rw f (All-first_hold base up ds h)
      | inl t ↦
          rw (t, In→has up d.id (served ((eq_iff d.desired_state desired_mounted).0 t)))
            (All-first_hold base up ds h)
    ]

-- The container is held back for no disk exactly when every disk that the specification wants
-- mounted is mounted.
pub first_hold_exact :
    (base : String → String) (up : List String) (ds : List AgentDiskSpec)
    → (is_empty (first_hold base up ds) ≡ true) ↔ All (IsServed up) ds
first_hold_exact base up ds = (first_hold-All base up ds, All-first_hold base up ds)

-- What a report of a disk may say, given the mounted disks and the errors of the pass.
abbrev pub Tells : List String → Errors → AgentDiskObserved → Type 0
Tells up errs r =
    ((r.observed_state ≡ mounted) ↔ (In r.id up × (r.last_error ≡ none)))
    × ((r.observed_state ≡ unmounted) ↔ ((In r.id up → ⊥) × (r.last_error ≡ none)))
    × (r.last_error ≡ error_of errs r.id)

disk_state-Tells :
    (up : List String) (errs : Errors) (id : String)
    → Tells up errs (record {
      id = id;
      observed_state = disk_state (has up id) (error_of errs id);
      last_error = error_of errs id;
    })
unfolding disk_state
disk_state-Tells up errs id = elim (Option-cases (error_of errs id)) [
  | inr (e, failed) ↦ rw failed (((λ h. cc), (λ (m, h). cc)), ((λ h. cc), (λ (m, h). cc)), refl)
  | inl clean ↦ elim (Bool-cases (has up id)) [
    | inl m ↦
        rw (clean, m)
          (
            ((λ h. (has→In up id m, refl)), (λ h. refl)),
            ((λ h. cc), (λ (out, h). absurd (out (has→In up id m)))),
            refl,
          )
    | inr n ↦
        rw (clean, n)
          (
            ((λ h. cc), (λ (i, h). cc (In→has up id i, n))),
            ((λ h. ((λ i. cc (In→has up id i, n)), refl)), (λ h. refl)),
            refl,
          )
  ]
]

-- The report has one entry for each disk of the specification, in its order; an entry says mounted
-- exactly for a mounted disk without an error, unmounted exactly for another one without an
-- error, and carries the error of the disk when there is one.
pub disk_reports_exact :
    (up : List String) (errs : Errors) (ds : List AgentDiskSpec)
    → (map (λ r. r.id) (disk_reports up errs ds) ≡ map (λ d. d.id) ds)
      × All (Tells up errs) (disk_reports up errs ds)
unfolding disk_reports
disk_reports_exact up errs [] = (refl, tt)
disk_reports_exact up errs (d ∷ ds) =
    let (ids, rest) = disk_reports_exact up errs ds in
    (rw ids refl, (disk_state-Tells up errs d.id, rest))
