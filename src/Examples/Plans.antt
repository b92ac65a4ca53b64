-- ===== src/Examples/Plans.antt =====
-- Examples of plans, of the inbox, of the reports of disks and of the firewall.
use yougpu_agent.Prelude.{
  pos, ◌≤ℤ◌, String, false, none, some, [], ◌∷◌, ◌≡◌, refl, ◌↔◌, inl, inr, In, All, map,
}
use yougpu_agent.Spec.{AgentFirewallSpec}
use yougpu_agent.Reconcile.{mount_disk, ObservedState, reconcile}
use yougpu_agent.Reconcile.Plan.{IsDue, reconcile-exact}
use yougpu_agent.Agent.Intake.{Inbox, fresh, intake, receive, intake_newest}
use yougpu_agent.Agent.Disks.{disk_reports}
use yougpu_agent.Agent.Disks.Report.{Tells, disk_reports_exact}
use yougpu_agent.Examples.{disk, two_disks, spec_of}

abbrev seen : ObservedState
seen = record { mounted_disk_ids = "two" ∷ []; unit_disk_ids = "two" ∷ "old" ∷ [] }

reconcile-exact_example :
    In (mount_disk (disk "one" "mounted")) (reconcile (some (spec_of 3 none)) seen)
    ↔ IsDue (spec_of 3 none) seen (mount_disk (disk "one" "mounted"))
reconcile-exact_example = reconcile-exact (spec_of 3 none) seen (mount_disk (disk "one" "mounted"))

intake_newest_example : (spec_of 2 none).generation ≤ℤ (spec_of 5 none).generation
unfolding intake receive
intake_newest_example =
    intake_newest (spec_of 5 none ∷ spec_of 2 none ∷ []) (spec_of 5 none) (spec_of 2 none) refl
      (inr (inl refl))

-- The inbox of a machine whose work was given its context.
abbrev working : Inbox
working = record fresh { alive = some false }

abbrev base : String → String
base p = "data"

disk_reports_exact_example :
    (map (λ r. r.id) (disk_reports ("one" ∷ []) (("two", "busy") ∷ []) two_disks)
      ≡ map (λ d. d.id) two_disks)
    × All
        (Tells ("one" ∷ []) (("two", "busy") ∷ []))
        (disk_reports ("one" ∷ []) (("two", "busy") ∷ []) two_disks)
disk_reports_exact_example = disk_reports_exact ("one" ∷ []) (("two", "busy") ∷ []) two_disks

abbrev web : AgentFirewallSpec
web = record { ports = record { port = pos 8080; protocol = " UDP" } ∷ [] }
