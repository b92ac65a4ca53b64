-- ===== src/State/Restore/Gate.antt =====
-- When the restore of internal/state/manager.go lets the container start.
use yougpu_agent.Prelude.{
  String, Bool, true, false, not, ◌||◌, ◌&&◌, Option, none, some, ◌≡◌, ◌⊎◌, refl, inl, inr, arith,
  Bool-cases, is_some, Run, subst, sym, eq_iff,
}
use yougpu_agent.Fetch.{workspace_root}
use yougpu_agent.Spec.{AgentStateSpec, AgentContainerSpec}
use yougpu_agent.Status.{AgentStateObserved, restoring}
use yougpu_agent.State.{
  Manager, RestoreJob, Written, written, refused, torn, Error, restored_marker, plain_obs, has,
  write_file, stored,
}
use yougpu_agent.State.Restore.{
  restore_key, start_restore, with_job, ended_job, nothing_to_restore, restore_into, restore_spec,
  restore, finish_job, finish,
}

module _ {W : Type 0} (write : String → Run W Written) where
  stored_marker :
      (content : String) (w : Written) (m : Manager W)
      → (stored restored_marker content w m).0 ≡ none
      → has restored_marker (stored restored_marker content w m).1 ≡ true
  unfolding stored
  stored_marker content written m e = refl
  stored_marker content (refused x) m e = cc
  stored_marker content (torn x rest) m e = cc

  nothing_gate :
      (o : Option String) (m : Manager W)
      → (nothing_to_restore write o m).0.0 ≡ true
      → (o ≡ none) × ((nothing_to_restore write o m).1 ≡ m)
  unfolding nothing_to_restore
  nothing_gate none m e = (refl, refl)
  nothing_gate (some x) m e = cc

  into_gate :
      (spec : AgentStateSpec) (root : String) (m : Manager W)
      → (restore_into write spec root m).0.0 ≡ false
  unfolding restore_into
  into_gate spec root m = ground arith

  -- The container may start only if no state is asked for, or the marker of a finished restore is
  -- there; while the state is pending it never may, unless that marker is there already.
  pub restore_gate :
      (spec : AgentStateSpec) (container : Option AgentContainerSpec) (m : Manager W)
      → (restore write (some spec) container m).0.0 ≡ true
      → (has restored_marker (restore write (some spec) container m).1 ≡ true)
        × ((has restored_marker m ≡ true) ⊎ (spec.pending ≡ false))
  unfolding restore restore_spec write_file
  restore_gate spec container m e = elim (Bool-cases (has restored_marker m)) [
    | inl there ↦ rw there (there, inl refl)
    | inr absent ↦ elim (Bool-cases spec.pending) [
      | inl pending ↦ cc (rw (absent, pending) at e)
      | inr ready ↦ elim (Bool-cases (not (is_some spec.restore) && not (is_some spec.overlay))) [
        | inl nothing ↦
            let r = write_file write restored_marker "none" m in
            let (fine, same) = nothing_gate r.0 r.1 (rw (absent, ready, nothing) at e) in
            rw (absent, ready, nothing)
              (
                subst (λ n. has restored_marker n ≡ true) (sym same)
                    (stored_marker "none" _ _ fine),
                inr refl,
              )
        | inr something ↦
            cc (rw (absent, ready, something) at e, into_gate spec (workspace_root container) m)
      ]
    ]
  ]

  -- A job that was stopped, or whose agent is going away, leaves neither a marker nor a report.
  finish-stopped :
      (cancelled : Bool) (e : Option Error) (j : RestoreJob) (m : Manager W)
      → m.job ≡ some j
      → (j.stopped || cancelled) ≡ true
      → ((finish write cancelled e m).1.files ≡ m.files)
        × ((finish write cancelled e m).1.reports ≡ m.reports)
        × ((finish write cancelled e m).1.world ≡ m.world)
  unfolding finish finish_job
  finish-stopped cancelled e j m has_job stop = elim (Bool-cases j.finished) [
    | inl over ↦ rw (has_job, finish_job, over) (refl, refl, refl)
    | inr busy ↦ rw (has_job, finish_job, busy, stop) (refl, refl, refl)
  ]

  -- While the job of a specification runs, asking for it again starts no other job; when it has
  -- ended with a result, that result is repeated.
  start_restore_once :
      (spec : AgentStateSpec) (j : RestoreJob) (m : Manager W)
      → m.job ≡ some j
      → j.key ≡ restore_key spec
      → (j.finished ≡ false → start_restore spec m ≡ (plain_obs restoring, m))
        × ((obs : AgentStateObserved)
            → j.finished ≡ true
            → j.result ≡ some obs
            → start_restore spec m ≡ (obs, m))
  unfolding start_restore
  start_restore_once spec j m has_job same = (
    λ busy. rw (has_job, with_job, busy, (eq_iff _ _).1 same),
    λ obs over told. rw (has_job, with_job, over, (eq_iff _ _).1 same, told, ended_job),
  )
