-- ===== src/Examples/Shutdowns.antt =====
-- Examples of shutdowns: a machine with one disk, whose answers do not change.
use yougpu_agent.Prelude.{
  ◌⊎◌, ℕ, ◌+◌, ◌<◌, String, true, false, is_empty, Option, none, some, [], ◌∷◌, ◌==◌, ◌≡◌, ◌↔◌,
  refl, inl, inr, ap,
}
use yougpu_agent.Uploads.{Uploads, pending, sum}
use yougpu_agent.Status.{synced}
use yougpu_agent.Lifecycle.{
  ok, Host, Manager, current_state, set_state, sync_with, sync_units, decide_sync, collect, seal,
  flush_units, watch, finish_sync, handle_termination,
}
use yougpu_agent.Lifecycle.Sync.{Flushed, finish_sync_exact}
use yougpu_agent.Lifecycle.Stall.{HasMoved, watch_exact}
use yougpu_agent.Lifecycle.Shutdown.{IsDone, handle_termination_safe}

abbrev idle : Uploads
idle = record {
  in_progress = 0;
  queued = 0;
  errored = 0;
  out_of_space = false;
  sent = 9;
  completed = 7;
  errors = 0;
  last_error = "";
}

abbrev host : Host ℕ
host = record {
  write = λ s w. (none, w);
  run = λ args w. (ok "", w);
  stop = λ unit w. (none, w);
  poweroff = λ w. (none, w);
  list_units = λ w. (ok ("one" ∷ []), w);
  uploads = λ id w. (ok idle, w);
  ensure_running = λ id w. (none, w);
  now = λ w. (w, w);
  duration = λ n. "10m";
}

abbrev manager : Option String → String → Manager ℕ
manager sentinel stall = record {
  sentinel = sentinel;
  stall_after = 600;
  mark = none;
  moved_at = none;
  stall = stall;
  world = 5;
}

finish_sync_exact_example :
    ((finish_sync host (manager (some "syncing") "")).0.0.observed_state ≡ synced)
    ↔ Flushed host (manager (some "syncing") "").world
finish_sync_exact_example = finish_sync_exact host (manager (some "syncing") "")

abbrev watching : Manager ℕ
watching = manager (some "syncing") ""

watch_exact_example :
    ((at : ℕ) × ((watch host idle true watching).1.moved_at ≡ some at)
      × ((is_empty (watch host idle true watching).0 ≡ true) ↔ (5 < at + 600))
      × ((watch host idle true watching).1.stall ≡ (watch host idle true watching).0)
      × (((at ≡ 5) × (true ≡ true) × HasMoved watching.mark idle)
          ⊎ (¬ ((true ≡ true) × HasMoved watching.mark idle)
              × ((watching.moved_at ≡ some at) ⊎ ((watching.moved_at ≡ none) × (at ≡ 5))))))
    × (((true ≡ true) × ((watch host idle true watching).1.mark ≡ some idle))
        ⊎ ((true ≡ false) × ((watch host idle true watching).1.mark ≡ watching.mark)))
watch_exact_example = watch_exact host idle true watching refl

not-IsDone : ¬ IsDone (manager none "")
unfolding current_state
not-IsDone (inl e) = absurd (cc (ap (λ s. s == "alive") e))
not-IsDone (inr e) = absurd (cc (ap (λ s. s == "alive") e))

handle_termination_safe_example :
    (n : Manager ℕ) × (handle_termination host none (manager none "") ≡ finish_sync host n)
    × Flushed host n.world
unfolding handle_termination finish_sync current_state set_state sync_with sync_units decide_sync
    collect pending sum seal flush_units
handle_termination_safe_example =
    handle_termination_safe host none (manager none "") not-IsDone refl
