-- ===== src/Lifecycle/Shutdown.antt =====
-- The shutdown of internal/lifecycle/manager.go from each persisted state.
use yougpu_agent.Prelude.{
  String, false, ◌||◌, Option, none, some, ◌≡◌, ◌⊎◌, inl, inr, ◌==◌, eq_iff, Bool-cases,
  Option-cases, is_empty, trim_space,
}
use yougpu_agent.Status.{synced}
use yougpu_agent.Lifecycle.{
  Manager, Host, Hook, current_state, set_state, stored, finish_sync, sync_with, ask, begin_sync,
  stop_containers, handle_termination, state_syncing, state_synced, state_error,
  state_destroying_self,
}
use yougpu_agent.Lifecycle.Sync.{Flushed, finish_sync-Flushed}

-- The state file after a write that may have failed.
abbrev pub after_write : {W : Type 0} → Option String → String → Manager W → String
after_write none s m = s
after_write (some e) s m = current_state m

-- A state in which the disks are already done with.
abbrev pub IsDone : {W : Type 0} → Manager W → Type 0
IsDone m = (current_state m ≡ state_synced) ⊎ (current_state m ≡ state_destroying_self)

not_done_test :
    {W : Type 0} (m : Manager W)
    → ¬ IsDone m
    → (current_state m == state_synced || current_state m == state_destroying_self) ≡ false
not_done_test m fresh = elim (Bool-cases (current_state m == state_synced)) [
  | inl is ↦ absurd (fresh (inl ((eq_iff _ _).0 is)))
  | inr not_synced ↦ elim (Bool-cases (current_state m == state_destroying_self)) [
    | inl is ↦ absurd (fresh (inr ((eq_iff _ _).0 is)))
    | inr not_destroying ↦ rw (not_synced, not_destroying)
  ]
]

module _ {W : Type 0} (host : Host W) where
  -- A state that is stored is the current one, and a write that fails leaves the current state.
  current_state-set_state :
      (s : String) (m : Manager W)
      → trim_space s ≡ s
      → is_empty s ≡ false
      → current_state (set_state host s m).1 ≡ after_write (host.write s m.world).0 s m
  unfolding current_state set_state
  current_state-set_state s m e h = elim (Option-cases (host.write s m.world).0) [
    | inl fine ↦ rw (fine, stored, e, h)
    | inr (x, bad) ↦ rw (bad, stored)
  ]

  -- The part after the containers are stopped, by the answer of the hook.
  sync_with-synced :
      (hook : Option (Hook W)) (m : Manager W)
      → (sync_with host hook m).0.0.observed_state ≡ synced
      → (n : Manager W) × (sync_with host hook m ≡ finish_sync host n)
  unfolding sync_with
  sync_with-synced hook m e =
      let stopped = stop_containers host m in
      let answer = ask host hook stopped.0 stopped.1 in
      elim (Bool-cases answer.0) [ inl on ↦ (answer.1, rw on) | inr off ↦ cc (rw off at e) ]

  begin_sync-synced :
      (hook : Option (Hook W)) (failed : Option String) (m : Manager W)
      → (begin_sync host hook failed m).0.0.observed_state ≡ synced
      → (n : Manager W) × (begin_sync host hook failed m ≡ finish_sync host n)
  unfolding begin_sync
  begin_sync-synced hook none m e = sync_with-synced hook m e
  begin_sync-synced hook (some x) m e = cc

  handle_termination-finish :
      (hook : Option (Hook W)) (m : Manager W)
      → ¬ IsDone m
      → (handle_termination host hook m).0.0.observed_state ≡ synced
      → (n : Manager W) × (handle_termination host hook m ≡ finish_sync host n)
  unfolding handle_termination
  handle_termination-finish hook m fresh e =
      let not_done : (current_state m == state_synced || current_state m == state_destroying_self)
          ≡ false =
        not_done_test m fresh in
      elim (Bool-cases (current_state m == state_syncing || current_state m == state_error)) [
        | inl again ↦ rw (not_done, again) (sync_with-synced hook m (rw (not_done, again) at e))
        | inr first ↦
            rw (not_done, first)
              (begin_sync-synced hook _ (set_state host state_syncing m).1
                (rw (not_done, first) at e))
      ]

  -- A termination that starts while the disks are not yet done with reports them as synced only as
  -- the answer of a final sync at which the units were listed, every disk answered that it has
  -- nothing left to upload, and every unit was then stopped.
  pub handle_termination_safe :
      (hook : Option (Hook W)) (m : Manager W)
      → ¬ IsDone m
      → (handle_termination host hook m).0.0.observed_state ≡ synced
      → (n : Manager W) × (handle_termination host hook m ≡ finish_sync host n)
        × Flushed host n.world
  handle_termination_safe hook m fresh e =
      let (n, same) = handle_termination-finish hook m fresh e in
      (n, same, finish_sync-Flushed host n (rw same at e))
