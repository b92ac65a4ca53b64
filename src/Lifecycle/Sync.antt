-- ===== src/Lifecycle/Sync.antt =====
-- What internal/lifecycle/manager.go has checked when it reports the disks as synced.
use yougpu_agent.Prelude.{
  ◌+◌, eqb, String, Bool, true, false, ◌&&◌, none, List, [], ◌∷◌, ◌≡◌, refl, ◌↔◌, inl, inr, arith,
  Bool-cases, Option-cases, ◌>>=◌, is_empty, subst,
}
use yougpu_agent.Status.{synced}
use yougpu_agent.Uploads.{Uploads, no_uploads, pending, sum}
use yougpu_agent.Lifecycle.{
  Manager, add_failure, Host, Answer, ok, err, Answer-cases, count_uploads, collect, flush_units,
  seal, decide_sync, sync_units, finish_sync, unit_of, keep_waiting, syncing_status, watch,
}

module _ {W : Type 0} (host : Host W) where
  -- The answer of a disk that has nothing left to upload.
  abbrev pub IsIdle : Answer Uploads → Type 0
  IsIdle (ok u) = pending u ≡ 0
  IsIdle (err e) = ⊥

  -- Every disk, asked in turn from the world w, is idle; `asked` is the world after.
  abbrev pub Drained : List String → W → Type 0
  Drained [] w = Unit {0}
  Drained (id ∷ ids) w = IsIdle (host.uploads id w).0 × Drained ids (host.uploads id w).1

  abbrev pub asked : List String → W → W
  asked [] w = w
  asked (id ∷ ids) w = asked ids (host.uploads id w).1

  -- Every unit, stopped in turn from the world w, is stopped with no error.
  abbrev pub Stopped : List String → W → Type 0
  Stopped [] w = Unit {0}
  Stopped (id ∷ ids) w =
      ((host.stop (unit_of id) w).0 ≡ none) × Stopped ids (host.stop (unit_of id) w).1

  collect_unknown :
      (ids : List String) (total : Uploads) (m : Manager W)
      → (collect host ids total false m).0.1 ≡ false
  unfolding collect
  collect_unknown [] total m = refl
  collect_unknown (id ∷ ids) total m = elim (Answer-cases (host.uploads id m.world).0) [
    | inl (u, e) ↦ rw (e, count_uploads) (collect_unknown ids (sum total u) _)
    | inr (x, e) ↦ rw (e, count_uploads) (collect_unknown ids total _)
  ]

  -- Before the total is 0 every part of it is.
  pending-sum : (a b : Uploads) → pending (sum a b) ≡ pending a + pending b
  unfolding pending sum
  pending-sum a b = omega arith

  collect-Drained :
      (ids : List String) (total : Uploads) (m : Manager W)
      → (collect host ids total true m).0.1 ≡ true
      → pending (collect host ids total true m).0.0 ≡ 0
      → (pending total ≡ 0)
        × Drained ids m.world
        × ((collect host ids total true m).1 ≡ record m { world = asked ids m.world })
  unfolding collect
  collect-Drained [] total m k z = (z, tt, refl)
  collect-Drained (id ∷ ids) total m k z = elim (Answer-cases (host.uploads id m.world).0) [
    | inl (u, e) ↦
        let (zero_sum, rest, after) =
          collect-Drained ids (sum total u) (record m { world = (host.uploads id m.world).1 })
            (rw (e, count_uploads) at k) (rw (e, count_uploads) at z) in
        rw (e, count_uploads)
          (omega (arith, pending-sum total u), (omega (arith, pending-sum total u), rest), after)
    | inr (x, e) ↦ cc (
      collect_unknown ids total
          (record m { world = (host.ensure_running id (host.uploads id m.world).1).1 }),
      rw (e, count_uploads) at k,
    )
  ]

  -- The same read backwards.
  Drained-collect :
      (ids : List String) (total : Uploads) (m : Manager W)
      → pending total ≡ 0
      → Drained ids m.world
      → (t : Uploads) × (pending t ≡ 0)
        × (collect host ids total true m ≡ ((t, true), record m { world = asked ids m.world }))
  unfolding collect
  Drained-collect [] total m z d = (total, z, refl)
  Drained-collect (id ∷ ids) total m z (idle, d) = elim (Answer-cases (host.uploads id m.world).0) [
    | inl (u, e) ↦
        let idle' : IsIdle (ok u) = rw e at idle in
        rw (e, count_uploads)
          (Drained-collect ids (sum total u) (record m { world = (host.uploads id m.world).1 })
            (omega (arith, pending-sum total u)) d)
    | inr (x, e) ↦ absurd (rw e at idle)
  ]

  flush_units-Stopped :
      (ids : List String) (m : Manager W) → (flush_units host ids m).0 ≡ [] → Stopped ids m.world
  unfolding flush_units
  flush_units-Stopped [] m e = tt
  flush_units-Stopped (id ∷ ids) m e = elim (Option-cases (host.stop (unit_of id) m.world).0) [
    | inl fine ↦ (
      fine,
      flush_units-Stopped ids (record m { world = (host.stop (unit_of id) m.world).1 })
          (rw (fine, add_failure) at e),
    )
    | inr (x, bad) ↦ cc (rw (bad, add_failure) at e)
  ]

  Stopped-flush_units :
      (ids : List String) (m : Manager W) → Stopped ids m.world → (flush_units host ids m).0 ≡ []
  unfolding flush_units
  Stopped-flush_units [] m s = refl
  Stopped-flush_units (id ∷ ids) m (fine, s) =
      rw (fine, add_failure)
        (Stopped-flush_units ids (record m { world = (host.stop (unit_of id) m.world).1 }) s)

  syncing_status_ne : (m : Manager W) → ¬ ((syncing_status m).observed_state ≡ synced)
  unfolding syncing_status
  syncing_status_ne m = ground arith

  seal-synced :
      (errs : List String) (m : Manager W)
      → (seal host errs m).0.0.observed_state ≡ synced
      → errs ≡ []
  unfolding seal
  seal-synced [] m e = refl
  seal-synced (x ∷ xs) m e = absurd (syncing_status_ne m e)

  keep_waiting_ne :
      (total : Uploads) (known : Bool) (m : Manager W)
      → ¬ ((keep_waiting host total known m).0.0.observed_state ≡ synced)
  unfolding keep_waiting
  keep_waiting_ne total known m e = elim (Bool-cases (is_empty (watch host total known m).0)) [
    | inl quiet ↦ absurd (syncing_status_ne _ (rw (quiet, ◌>>=◌) at e))
    | inr stalled ↦ cc (rw (stalled, ◌>>=◌) at e)
  ]

  -- What has to hold of the world for the disks to be reported as synced.
  abbrev pub Flushed : W → Type 0
  Flushed w =
      (ids : List String) × ((host.list_units w).0 ≡ ok ids)
      × Drained ids (host.list_units w).1
      × Stopped ids (asked ids (host.list_units w).1)

  drained_test :
      (t : Uploads) (k : Bool) → (k && eqb (pending t) 0) ≡ true → (k ≡ true) × (pending t ≡ 0)
  drained_test t k h = ground arith

  decide_sync-Flushed :
      (ids : List String) (m : Manager W)
      → (decide_sync host ids
          (collect host ids no_uploads true m).0
          (collect host ids no_uploads true m).1).0.0.observed_state
        ≡ synced
      → Drained ids m.world × Stopped ids (asked ids m.world)
  unfolding decide_sync
  decide_sync-Flushed ids m e =
      let r = collect host ids no_uploads true m in
      elim (Bool-cases (r.0.1 && eqb (pending r.0.0) 0)) [
        | inl idle ↦
            let (k, z) = drained_test r.0.0 r.0.1 idle in
            let (zero, drained, after) = collect-Drained ids no_uploads m k z in
            (
              drained,
              subst (λ n. Stopped ids n.world) after
                  (flush_units-Stopped ids r.1 (seal-synced _ _ (rw (idle, ◌>>=◌) at e))),
            )
        | inr busy ↦ absurd (keep_waiting_ne r.0.0 r.0.1 r.1 (rw (busy, ◌>>=◌) at e))
      ]

  pub finish_sync-Flushed :
      (m : Manager W) → (finish_sync host m).0.0.observed_state ≡ synced → Flushed m.world
  unfolding finish_sync sync_units
  finish_sync-Flushed m e = elim (Answer-cases (host.list_units m.world).0) [
    | inl (ids, listed) ↦
        let (drained, stopped) =
          decide_sync-Flushed ids (record m { world = (host.list_units m.world).1 })
            (rw (listed, sync_units) at e) in
        (ids, listed, drained, stopped)
    | inr (x, bad) ↦ absurd (syncing_status_ne _ (rw (bad, sync_units) at e))
  ]

  Flushed-finish_sync :
      (m : Manager W) → Flushed m.world → (finish_sync host m).0.0.observed_state ≡ synced
  unfolding finish_sync sync_units decide_sync seal
  Flushed-finish_sync m (ids, listed, drained, stopped) =
      let start : Manager W = record m { world = (host.list_units m.world).1 } in
      let (t, zero, e) =
        Drained-collect ids no_uploads start (unfold pending in omega arith) drained in
      rw (
        listed,
        sync_units,
        e,
        zero,
        Stopped-flush_units ids (record start { world = asked ids start.world }) stopped,
      )

  -- The end of a shutdown reports the disks as synced exactly when the units could be listed, every
  -- disk of theirs answered that nothing is left to upload, and every unit was then stopped.
  pub finish_sync_exact :
      (m : Manager W) → ((finish_sync host m).0.0.observed_state ≡ synced) ↔ Flushed m.world
  finish_sync_exact m = (finish_sync-Flushed m, Flushed-finish_sync m)
