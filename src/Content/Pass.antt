-- ===== src/Content/Pass.antt =====
-- internal/content/manager.go: pass, run, Reconcile, Observe and Stop. The reports of progress while
-- a body is read are left out.
pub mod Settled
use yougpu_agent.Prelude.{
  ℕ, suc, ◌+◌, ◌*◌, ◌/◌, eqb, String, Bool, true, false, not, ◌&&◌, ◌||◌, Option, none, some, List,
  [], ◌∷◌, ◌++◌, ◌<>◌, ◌==◌, is_empty, join, if◌then◌else◌, Run, pure, get, gets, modify, when,
  ◌>>=◌, ◌>>◌,
}
use yougpu_agent.Prelude.Result.{Result, ok, err}
use yougpu_agent.Fetch.{clip}
use yougpu_agent.Spec.{AgentContentSpec}
use yougpu_agent.Status.{AgentContentObserved}
use yougpu_agent.Content.{
  Error, is_permanent, text, Task, Failure, Manager, Act, Job, no_job, running, ended, call, emit,
  ready_obs, err_obs, downloading_obs, clamp, max_detail, max_item_error,
}
use yougpu_agent.Content.Host.{Host, Texts}
use yougpu_agent.Content.Paths.{clean_dir}
use yougpu_agent.Content.Failures.{entry, without, is_held, fail}
use yougpu_agent.Content.Plan.{plan, tasks_of, invalid_of}
use yougpu_agent.Content.Fetch.{mkdir_all, fetch}

-- A task with the failure that it is left out for.
abbrev pub Queue : Type 0
Queue = List (Task × Option Failure)

unfoldable pub held_by : ℕ → Option Failure → Option Failure
held_by now none = none
held_by now (some f) = if is_held now (some f) then some f else none

abbrev pub queue_of : ℕ → List (String × Failure) → List Task → Queue
queue_of now fs [] = []
queue_of now fs (t ∷ ts) = (t, held_by now (entry t.target fs)) ∷ queue_of now fs ts

-- The number of tasks that are not left out.
abbrev pub queued : Queue → ℕ
queued [] = 0
queued ((t, none) ∷ q) = suc (queued q)
queued ((t, some f) ∷ q) = queued q

abbrev pub held_msgs : Queue → List String
held_msgs [] = []
held_msgs ((t, none) ∷ q) = held_msgs q
held_msgs ((t, some f) ∷ q) = f.msg ∷ held_msgs q

abbrev pub after : List String → Option (List String) → Option (List String)
after msgs none = none
after msgs (some more) = some (msgs ++ more)

unfoldable pub verdict : List String → AgentContentObserved
verdict [] = ready_obs
verdict (e ∷ es) = err_obs (join "; " (e ∷ es))

abbrev pub outcome : Option (List String) → AgentContentObserved
outcome none = err_obs "cancelled"
outcome (some failed) = verdict failed

module _ {W : Type 0} (host : Host W) (texts : Texts) where
  mkdir_msg : String → Result Error (Unit {0}) → List String
  mkdir_msg d (ok a) = []
  mkdir_msg d (err e) = ("mkdir " <> (d <> (": " <> clip (text e) max_item_error))) ∷ []

  -- The loop over the folders of the spec.
  unfoldable pub make_dirs : List String → Act W (List String)
  unfolding mkdir_msg
  make_dirs [] = pure []
  make_dirs (d ∷ ds) = do
    r ← call (mkdir_all host texts (clean_dir d))
    rest ← make_dirs ds
    pure (mkdir_msg d r ++ rest)

  -- What is done after the fetch of a task: its failure is noted or dropped.
  unfoldable pub note : Task → Option Error → Act W (List String)
  note t none = modify (λ m. record m { failures = without t.target m.failures }) >> pure []
  note t (some e) = do
    now ← call host.now
    modify (fail now t.target (t.label <> (": " <> clip (text e) max_item_error)) (is_permanent e))
    pure ((t.label <> (": " <> clip (text e) max_item_error)) ∷ [])

  unfoldable pub unless_stopped : Bool → Act W (Option (List String)) → Act W (Option (List String))
  unless_stopped true act = pure none
  unless_stopped false act = act

  -- The end of a round, and the rounds after it.
  unfoldable pub go_on :
      Task → Option Error → Act W (Option (List String)) → Act W (Option (List String))
  go_on t e later = do msgs ← note t e; rest ← later; pure (after msgs rest)

  -- The loop over the tasks; none is a cancelled context. `idx` counts the tasks fetched before and
  -- `total` the queued ones.
  unfoldable pub work : ℕ → ℕ → Queue → Act W (Option (List String))
  unfolding unless_stopped go_on
  work total idx [] = pure (some [])
  work total idx ((t, some f) ∷ q) = do rest ← work total idx q; pure (after (f.msg ∷ []) rest)
  work total idx ((t, none) ∷ q) = do
    emit (downloading_obs (clamp (idx * 100 / total)) (clip t.label max_detail))
    e ← fetch host texts t
    stop ← call host.is_cancelled
    unless_stopped stop (go_on t e (work total (idx + 1) q))

  -- The part of pass after the plan; `failed` is what has failed before.
  unfoldable pub carry_out : List String → List Task → Act W (AgentContentObserved × Bool)
  carry_out failed tasks = do
    now ← call host.now
    q ← gets (λ m. queue_of now m.failures tasks)
    if eqb (queued q) 0 then pure (verdict (failed ++ held_msgs q), false) else do
      modify (λ m. record m { settled = false })
      emit (downloading_obs 0 "подготовка")
      r ← work (queued q) 0 q
      pure (outcome (after failed r), true)

  in_workspace : AgentContentSpec → String → Option Error → Act W (AgentContentObserved × Bool)
  in_workspace spec root (some e) = pure (err_obs ("workspace: " <> text e), false)
  in_workspace spec root none = do
    failed ← make_dirs spec.dirs
    items ← plan host texts spec root
    stop ← call host.is_cancelled
    if stop
        then pure (err_obs "cancelled", false)
        else carry_out (failed ++ invalid_of items) (tasks_of items)

  -- The workspace opened, and made first where that fails.
  enter : String → Act W (Option Error)
  enter root = do
    e ← call (host.open_root root)
    elim e [
      | none ↦ pure none
      | some x ↦ do
        made ← call (host.make_all root)
        elim made [ some y ↦ pure (some y) | none ↦ call (host.open_root root) ]
    ]

  has_none : AgentContentSpec → Bool
  has_none spec =
      none_of spec.workspace_files && none_of spec.models && none_of spec.dirs && none_of spec.repos
    where
      none_of : {A : Type 0} → List A → Bool
      none_of [] = true
      none_of (x ∷ xs) = false

  -- pass: the observation, and whether anything was fetched.
  unfoldable pub pass : Option AgentContentSpec → String → Act W (AgentContentObserved × Bool)
  unfolding in_workspace enter has_none
  pass none root = pure (ready_obs, false)
  pass (some spec) root =
      if has_none spec
      then pure (ready_obs, false)
      else if is_empty root
      then pure (err_obs "no /workspace volume to place content", false)
      else do e ← enter root; in_workspace spec root e

  settle : AgentContentObserved × Bool → Bool → Act W (Unit {0})
  settle (obs, attempted) first = do
    modify (λ m. record m { observed = obs; settled = true })
    when attempted (emit obs)
    when (attempted || first) (modify (λ m. record m { notified = suc m.notified }))

  -- close(done)
  abbrev pub closed : Job → Job
  closed no_job = no_job
  closed running = ended
  closed ended = ended

  -- run, of a job that a Reconcile started; its context may be cancelled by its end.
  unfoldable pub run : Option AgentContentSpec → String → Bool → Act W (Unit {0})
  unfolding settle
  run spec root first = do
    r ← pass spec root
    stop ← call host.is_cancelled
    when (not stop) (settle r first)
    modify (λ m. record m { job = closed m.job })

  -- The job cancelled and its end waited for; what it does until then is `cancel`.
  abbrev pub cancel_job : Act W (Unit {0}) → Job → Act W (Unit {0})
  cancel_job cancel no_job = pure tt
  cancel_job cancel running = cancel
  cancel_job cancel ended = pure tt

  -- The manager of a new key.
  abbrev pub reset : String → Manager W → Manager W
  reset key m = record m {
    key = key;
    job = no_job;
    failures = [];
    settled = false;
    observed = downloading_obs 0 "подготовка";
  }

  start_job : Job → Act W (Option Bool)
  start_job running m = (none, m)
  start_job no_job m = (some (not m.settled), record m { job = running })
  start_job ended m = (some (not m.settled), record m { job = running })

  -- Reconcile, of the key of the spec: none, or the job that it starts, by whether it is the first.
  unfoldable pub reconcile : Act W (Unit {0}) → String → Act W (Option Bool)
  unfolding start_job
  reconcile cancel key = do
    m ← get
    when (not (key == m.key)) (cancel_job cancel m.job >> modify (reset key))
    job ← gets (λ m. m.job)
    start_job job

  -- Observe
  unfoldable pub observe : Act W (AgentContentObserved × Bool)
  observe = gets (λ m. (m.observed, m.settled))

  -- Stop
  unfoldable pub stop : Act W (Unit {0}) → Act W (Unit {0})
  stop cancel = do
    job ← gets (λ m. m.job)
    modify (λ m. record m { key = ""; job = no_job; settled = false })
    cancel_job cancel job
