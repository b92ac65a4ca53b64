-- ===== src/Lifecycle.antt =====
-- internal/lifecycle/manager.go: the persisted lifecycle state and the shutdown of a machine. The
-- world W holds everything outside the manager: docker, systemd, the clock and the disks.
pub mod Sync
pub mod Shutdown
pub mod Stall
use yougpu_agent.Prelude.{
  ℕ, ◌+◌, ltb, eqb, String, Bool, true, false, ◌&&◌, ◌||◌, Option, none, some, List, [], ◌∷◌, ◌++◌,
  ◌==◌, ◌<>◌, is_empty, trim_space, fields, join, itoa, if◌then◌else◌, Run, pure, gets, modify, ◌≡◌,
  refl, ◌⊎◌, inl, inr, ◌>>=◌, ◌>>◌,
}
use yougpu_agent.Fetch.{clip}
use yougpu_agent.Status.{LifecycleState, StatusLifecycle, alive, syncing, synced, error}
use yougpu_agent.Uploads.{Uploads, no_uploads, pending, sum, moved}

-- The constants, as they are written to the sentinel file.
abbrev pub state_alive : String
state_alive = "alive"

abbrev pub state_syncing : String
state_syncing = "syncing"

abbrev pub state_synced : String
state_synced = "synced"

abbrev pub state_destroying_self : String
state_destroying_self = "destroying_self"

abbrev pub state_error : String
state_error = "error"

abbrev pub max_last_error : ℕ
max_last_error = 2048

-- The answer of a command or a call: its output, or the text of its error.
pub data Answer (A : Type 0) : Type 0 where
  ok : A → Answer A
  err : String → Answer A

pub Answer-cases :
    {A : Type 0} (a : Answer A) → ((x : A) × (a ≡ ok x)) ⊎ ((e : String) × (a ≡ err e))
Answer-cases (ok x) = inl (x, refl)
Answer-cases (err e) = inr (e, refl)

-- What the manager calls: os (whether a write of the sentinel succeeds), the executor, systemd,
-- the disk manager, the clock, and the rendering of a duration.
pub record Host (W : Type 0) : Type 0 where
  pub write : String → Run W (Option String)
  pub run : List String → Run W (Answer String)
  pub stop : String → Run W (Option String)
  pub poweroff : Run W (Option String)
  pub list_units : Run W (Answer (List String))
  pub uploads : String → Run W (Answer Uploads)
  pub ensure_running : String → Run W (Option String)
  pub now : Run W ℕ
  pub duration : ℕ → String

-- `sentinel` is the content of the state file, none when it cannot be read; `moved_at` is none for
-- the zero time.
pub record Manager (W : Type 0) : Type 0 where
  pub sentinel : Option String
  pub stall_after : ℕ
  pub mark : Option Uploads
  pub moved_at : Option ℕ
  pub stall : String
  pub world : W

-- hooks.AfterStop, given the error of the stop.
abbrev pub Hook : Type 0 → Type 0
Hook W = Option String → Run W Bool

unfoldable pub current_state : {W : Type 0} → Manager W → String
current_state m = elim m.sentinel [
  | none ↦ state_alive
  | some raw ↦ if is_empty (trim_space raw) then state_alive else trim_space raw
]

unfoldable pub syncing_status : {W : Type 0} → Manager W → StatusLifecycle
syncing_status m =
    if is_empty m.stall
    then record { observed_state = syncing; last_error = none }
    else record { observed_state = error; last_error = some m.stall }

-- The last listing, after the kill.
still_running : Answer (List String) → Option String
still_running (err e) = some e
still_running (ok []) = none
still_running (ok (id ∷ ids)) = some ("контейнер не остановился: " <> join " " (id ∷ ids))

abbrev pub unit_of : String → String
unit_of id = "storage-mount-" <> (id <> ".service")

abbrev pub shows_progress : Option Uploads → Uploads → Bool
shows_progress none cur = false
shows_progress (some prev) cur = moved prev cur

abbrev pub started : Option ℕ → ℕ → ℕ
started none now = now
started (some at) now = at

-- The clock mark of `watch`: the first call starts it, progress restarts it.
unfoldable pub follow : {W : Type 0} → Uploads → Bool → ℕ → Manager W → Manager W
follow cur known now m =
    let since = started m.moved_at now in
    if known
    then record m {
      moved_at = some (if shows_progress m.mark cur then now else since);
      mark = some cur;
    }
    else record m { moved_at = some since }

-- Whether the mark is still young: now - movedAt < stallAfter, on signed durations.
unfoldable pub is_young : {W : Type 0} → ℕ → Manager W → Bool
is_young now m = elim m.moved_at [ none ↦ true | some at ↦ ltb now (at + m.stall_after) ]

abbrev pub wrapped : String → Option String → Option String
wrapped prefix none = none
wrapped prefix (some e) = some (prefix <> e)

abbrev pub add_failure : String → Option String → List String → List String
add_failure unit none rest = rest
add_failure unit (some e) rest = ("stop " <> (unit <> (": " <> e))) ∷ rest

listed : Answer String → Answer (List String)
listed (err e) = err ("docker ps: " <> e)
listed (ok text) = ok (fields text)

module _ {W : Type 0} (host : Host W) where
  abbrev pub Act : Type 0 → Type 0
  Act A = Run (Manager W) A

  -- A call of the world.
  abbrev pub call : {A : Type 0} → Run W A → Run (Manager W) A
  call f m = let (a, w) = f m.world in (a, record m { world = w })

  stored : String → Option String → Act (Option String)
  stored s (some e) = pure (some e)
  stored s none = do modify (λ m. record m { sentinel = some s }); pure none

  -- The file is written beside and renamed, so a failure leaves the old content.
  unfoldable pub set_state : String → Act (Option String)
  unfolding stored
  set_state s = do failed ← call (host.write s); stored s failed

  running : Act (Answer (List String))
  unfolding listed
  running = do out ← call (host.run ("docker" ∷ "ps" ∷ "-q" ∷ [])); pure (listed out)

  -- `docker stop` or `docker kill` of the containers, whose error is only logged.
  docker : List String → List String → Act (Unit {0})
  docker command ids = do ignored ← call (host.run ("docker" ∷ command ++ ids)); pure tt

  after_stop : Answer (List String) → Act (Option String)
  unfolding still_running
  after_stop (err e) = pure (some e)
  after_stop (ok []) = pure none
  after_stop (ok (id ∷ ids)) = do
    docker ("kill" ∷ []) (id ∷ ids)
    left ← running
    pure (still_running left)

  after_list : Answer (List String) → Act (Option String)
  unfolding docker running after_stop
  after_list (err e) = pure (some e)
  after_list (ok []) = pure none
  after_list (ok (id ∷ ids)) = do
    docker ("stop" ∷ "-t" ∷ "30" ∷ []) (id ∷ ids)
    left ← running
    after_stop left

  with_docker : Answer String → Act (Option String)
  unfolding running after_list
  with_docker (err e) = pure none
  with_docker (ok text) = do ids ← running; after_list ids

  -- No docker on the machine is no error.
  unfoldable pub stop_containers : Act (Option String)
  unfolding with_docker
  stop_containers = do
    present ← call (host.run ("sh" ∷ "-c" ∷ "command -v docker" ∷ []))
    with_docker present

  -- One disk of the loop, whose next rounds are `next`.
  count_uploads :
      String
      → Answer Uploads
      → Uploads
      → Bool
      → (Uploads → Bool → Act (Uploads × Bool))
      → Act (Uploads × Bool)
  count_uploads id (ok u) total known next = next (sum total u) known
  count_uploads id (err e) total known next = do
    ignored ← call (host.ensure_running id)
    next total false

  -- The loop over the units: the sum of the known uploads, and whether all are known.
  unfoldable pub collect : List String → Uploads → Bool → Act (Uploads × Bool)
  unfolding count_uploads
  collect [] total known = pure (total, known)
  collect (id ∷ ids) total known = do
    up ← call (host.uploads id)
    count_uploads id up total known (collect ids)

  -- Every unit is stopped, also after a failure; the failures are joined.
  unfoldable pub flush_units : List String → Act (List String)
  flush_units [] = pure []
  flush_units (id ∷ ids) = do
    failed ← call (host.stop (unit_of id))
    rest ← flush_units ids
    pure (add_failure (unit_of id) failed rest)

  stall_message : ℕ → Uploads → Bool → String
  stall_message after cur known =
      "выгрузка кэша дисков не движется "
      <> (host.duration after
          <> (": в работе "
              <> (itoa cur.in_progress
                  <> (", в очереди "
                      <> (itoa cur.queued
                          <> (", с ошибками "
                              <> (itoa cur.errored
                                  <> ((if cur.out_of_space then ", кэшу не хватает места" else "")
                                      <> ((if known then "" else ", rclone не отвечает")
                                          <> (if is_empty cur.last_error
                                              then ""
                                              else "; последняя ошибка rclone: "
                                                <> cur.last_error))))))))))

  unfoldable pub watch : Uploads → Bool → Act String
  unfolding follow is_young stall_message
  watch cur known m =
      if is_empty m.stall
      then (let (now, m') = call host.now m in
          let m'' = follow cur known now m' in
          if is_young now m''
          then ("", m'')
          else (let text = clip (stall_message m.stall_after cur known) max_last_error in
              (text, record m'' { stall = text })))
      else (m.stall, m)

  -- The end of finishSync, where uploads are left or unknown.
  unfoldable pub keep_waiting : Uploads → Bool → Act (StatusLifecycle × Option String)
  keep_waiting total known = do
    msg ← watch total known
    if is_empty msg then gets (λ m. (syncing_status m, none)) else (do
      ignored ← set_state state_error
      pure (record { observed_state = error; last_error = some msg }, none))

  -- After the units are stopped; the errors are those of the stops.
  unfoldable pub seal : List String → Act (StatusLifecycle × Option String)
  seal (e ∷ es) = gets (λ m. (syncing_status m, some (join "\n" (e ∷ es))))
  seal [] = do
    failed ← set_state state_synced
    pure (
      record { observed_state = synced; last_error = none },
      wrapped "persist synced state: " failed,
    )

  unfoldable pub decide_sync : List String → Uploads × Bool → Act (StatusLifecycle × Option String)
  decide_sync ids (total, known) =
      if known && eqb (pending total) 0
      then (do errs ← flush_units ids; seal errs)
      else keep_waiting total known

  unfoldable pub sync_units : Answer (List String) → Act (StatusLifecycle × Option String)
  sync_units (err e) = gets (λ m. (syncing_status m, some ("list units: " <> e)))
  sync_units (ok ids) = do result ← collect ids no_uploads true; decide_sync ids result

  unfoldable pub finish_sync : Act (StatusLifecycle × Option String)
  finish_sync = do units ← call host.list_units; sync_units units

  ask : Option (Hook W) → Option String → Act Bool
  ask none stop_err = pure true
  ask (some hook) stop_err = call (hook stop_err)

  unfoldable pub sync_with : Option (Hook W) → Act (StatusLifecycle × Option String)
  unfolding ask
  sync_with hook = do
    stop_err ← stop_containers
    go_on ← ask hook stop_err
    if go_on
        then finish_sync
        else pure (record { observed_state = syncing; last_error = none }, none)

  begin_sync : Option (Hook W) → Option String → Act (StatusLifecycle × Option String)
  begin_sync hook none = sync_with hook
  begin_sync hook (some e) =
      pure (
        record { observed_state = alive; last_error = none },
        some ("persist syncing state: " <> e),
      )

  unfoldable pub handle_termination : Option (Hook W) → Act (StatusLifecycle × Option String)
  unfolding begin_sync
  handle_termination hook m =
      let state = current_state m in
      if state == state_synced || state == state_destroying_self
      then ((record { observed_state = synced; last_error = none }, none), m)
      else if state == state_syncing || state == state_error
      then sync_with hook m
      else (do failed ← set_state state_syncing; begin_sync hook failed) m

  -- A failure to persist is only logged.
  unfoldable pub poweroff : Act (Option String)
  poweroff = do ignored ← set_state state_destroying_self; call host.poweroff
