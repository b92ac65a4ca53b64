-- ===== src/Container.antt =====
-- internal/container/manager.go: the container of the application. docker, the puller with its
-- reports of progress, os.MkdirAll, sort.Strings and the hash of a specification are parameters.
pub mod Running
pub mod Gated
use yougpu_agent.Prelude.{
  ℕ, String, code, eqb, Bool, true, false, not, ◌&&◌, ◌||◌, Option, none, some, List, [], ◌∷◌, ◌++◌,
  ◌==◌, ◌<>◌, is_empty, trim_space, contains, if◌then◌else◌, Run, pure, gets, modify, ◌>>=◌, ◌>>◌,
}
use yougpu_agent.Prelude.Result.{Result, ok, err}
use yougpu_agent.Fetch.{clip}
use yougpu_agent.Spec.{AgentContainerSpec, ContainerVolume, ShmSize}
use yougpu_agent.Status.{AgentContainerObserved, ContainerState}

pub data Action : Type 0 where
  action_none action_apply action_remove : Action

pub record Observed : Type 0 where
  pub exists : Bool
  pub running : Bool
  pub spec_hash : String

-- The calls that the manager makes; an error is its text. `mark` is markStarted.
pub record Docker (W : Type 0) : Type 0 where
  pub inspect : Run W (Result String String)
  pub rm : Run W (Option String)
  pub run : List String → Run W (Option String)
  pub pull : String → Run W (Option String)
  pub mkdir : String → Run W (Option String)
  pub mark : Run W (Unit {0})
  pub sorted : List (String × String) → List (String × String)
  pub hash : AgentContainerSpec → String

-- `emitted` is every observation handed to the reporter, the last one first.
pub record Manager (W : Type 0) : Type 0 where
  pub name : String
  pub last : Option AgentContainerObserved
  pub emitted : List AgentContainerObserved
  pub world : W

abbrev pub Act : Type 0 → Type 0 → Type 0
Act W A = Run (Manager W) A

abbrev pub seen : ContainerState → String → AgentContainerObserved
seen s hash = record {
  observed_state = s;
  progress = none;
  detail = none;
  spec_hash = hash;
  last_error = none;
  unresponsive = false;
}

unfoldable pub decide : Option String → Observed → Action
decide none obs = if obs.exists then action_remove else action_none
decide (some hash) obs =
    if obs.exists && obs.running && obs.spec_hash == hash then action_none else action_apply

-- isNotFound
unfoldable pub is_not_found : String → Bool
is_not_found e = contains e "no such object" || contains e "No such object"

-- strings.SplitN(s, "|", 2): the second part is none when there is no bar.
unfoldable pub cut_bar : String → String × Option String
cut_bar String.[] = ("", none)
cut_bar (String.◌∷◌ c s) =
    let (before, after) = cut_bar s in
    if eqb (code c) b'|' then ("", some s) else (String.◌∷◌ c before, after)

abbrev pub label_of : Option String → String
label_of none = ""
label_of (some h) = if trim_space h == "<no value>" then "" else trim_space h

unfoldable pub parse : String → Observed
unfolding cut_bar
parse out =
    let (state, label) = cut_bar (trim_space out) in
    record { exists = true; running = trim_space state == "true"; spec_hash = label_of label }

abbrev pub absent : Observed
absent = record { exists = false; running = false; spec_hash = "" }

unfoldable pub read_inspect : Result String String → Result String Observed
unfolding parse is_not_found
read_inspect (ok out) = ok (parse out)
read_inspect (err e) = if is_not_found e then ok absent else err e

abbrev pub max_error : ℕ
max_error = 1024

abbrev pub error_report : String → String → AgentContainerObserved
error_report hash e = record (seen ContainerState.error hash) {
  last_error = some (clip e max_error);
}

-- report, where applying made no error.
unfoldable pub report : Option String → Observed → AgentContainerObserved
report none obs = seen ContainerState.absent ""
report (some hash) obs =
    if not obs.exists
    then seen ContainerState.absent ""
    else if obs.running
    then seen ContainerState.running obs.spec_hash
    else seen ContainerState.error obs.spec_hash

-- An error of apply: errGateClosed, or another.
pub data ApplyError : Type 0 where
  gate_closed : ApplyError
  failed : String → ApplyError

abbrev pub volume_args : List ContainerVolume → List String
volume_args [] = []
volume_args (v ∷ vs) =
    let rest = volume_args vs in
    if is_empty v.host || is_empty v.container
    then rest
    else "-v" ∷ (v.host <> (":" <> (v.container <> ":rw,rslave"))) ∷ rest

abbrev pub env_args : List (String × String) → List String
env_args [] = []
env_args ((k, v) ∷ env) = "-e" ∷ (k <> ("=" <> v)) ∷ env_args env

abbrev pub shm_args : Option ShmSize → List String
shm_args none = "--ipc=host" ∷ []
shm_args (some s) =
    if s.positive then ("--shm-size=" <> (s.digits <> "g")) ∷ [] else "--ipc=host" ∷ []

abbrev pub command_args : Option String → List String
command_args none = []
command_args (some c) = if is_empty (trim_space c) then [] else "sh" ∷ "-c" ∷ c ∷ []

module _ {W : Type 0} (docker : Docker W) where
  -- runArgs
  unfoldable pub run_args : String → AgentContainerSpec → String → List String
  run_args name spec hash =
      ("run"
        ∷ "-d"
        ∷ "--name"
        ∷ name
        ∷ "--init"
        ∷ "--restart"
        ∷ "unless-stopped"
        ∷ "--network"
        ∷ "host"
        ∷ "--label"
        ∷ "yougpu.managed=true"
        ∷ "--label"
        ∷ ("yougpu.spec.hash=" <> hash)
        ∷ [])
      ++ ((if spec.gpu then "--gpus" ∷ "all" ∷ [] else [])
          ++ (shm_args spec.shm_size_gb
              ++ (volume_args spec.volumes
                  ++ (env_args (docker.sorted spec.env)
                      ++ (spec.image ∷ command_args spec.run_command)))))

  abbrev pub call : {A : Type 0} → Run W A → Act W A
  call f m = let (a, w) = f m.world in (a, record m { world = w })

  abbrev pub emit : AgentContainerObserved → Act W (Unit {0})
  emit obs = modify (λ m. record m { emitted = obs ∷ m.emitted })

  unfoldable pub observe : Act W (Result String Observed)
  unfolding read_inspect
  observe = do out ← call docker.inspect; pure (read_inspect out)

  unfoldable pub removed : Option String → Option String
  unfolding is_not_found
  removed none = none
  removed (some e) = if is_not_found e then none else some e

  unfoldable pub remove : Act W (Option String)
  unfolding removed
  remove = do e ← call docker.rm; pure (removed e)

  unfoldable pub after : String → Option String → Act W (Option String) → Act W (Option String)
  after host none rest = rest
  after host (some e) rest = pure (some ("mkdir volume " <> (host <> (": " <> e))))

  unfoldable pub make_volumes : List ContainerVolume → Act W (Option String)
  unfolding after
  make_volumes [] = pure none
  make_volumes (v ∷ vs) = do
    let rest : Act W (Option String) = make_volumes vs
    let make : Act W (Option String) = (do e ← call (docker.mkdir v.host); after v.host e rest)
    if is_empty v.host then rest else make

  unfoldable pub started : String → Option String → Act W (Option ApplyError)
  started hash (some e) = pure (some (failed ("run: " <> e)))
  started hash none = do call docker.mark; emit (seen ContainerState.running hash); pure none

  unfoldable pub start : AgentContainerSpec → String → Option String → Act W (Option ApplyError)
  unfolding started
  start spec hash (some e) = pure (some (failed ("remove old: " <> e)))
  start spec hash none = do
    emit (seen ContainerState.starting hash)
    name ← gets (λ m. m.name)
    e ← call (docker.run (run_args name spec hash))
    started hash e

  unfoldable pub pulled :
      AgentContainerSpec → String → Run W Bool → Option String → Act W (Option ApplyError)
  unfolding start
  pulled spec hash gate (some e) = pure (some (failed ("pull " <> (spec.image <> (": " <> e)))))
  pulled spec hash gate none = do
    may ← call gate
    let go : Act W (Option ApplyError) = (do e ← remove; start spec hash e)
    if may then go else pure (some gate_closed)

  unfoldable pub with_volumes :
      AgentContainerSpec → String → Run W Bool → Option String → Act W (Option ApplyError)
  unfolding pulled
  with_volumes spec hash gate (some e) = pure (some (failed e))
  with_volumes spec hash gate none = do
    emit (seen ContainerState.pulling hash)
    e ← call (docker.pull spec.image)
    pulled spec hash gate e

  unfoldable pub apply : AgentContainerSpec → String → Run W Bool → Act W (Option ApplyError)
  unfolding make_volumes with_volumes
  apply spec hash gate = do e ← make_volumes spec.volumes; with_volumes spec hash gate e

  unfoldable pub told_after_run : String → Result String Observed → AgentContainerObserved
  told_after_run hash (err e) = seen ContainerState.running hash
  told_after_run hash (ok obs) = report (some hash) obs

  unfoldable pub applied : String → Option ApplyError → Act W AgentContainerObserved
  unfolding told_after_run
  applied hash (some gate_closed) = pure (seen ContainerState.pulling hash)
  applied hash (some (failed e)) = pure (error_report hash e)
  applied hash none = do obs ← observe; pure (told_after_run hash obs)

  unfoldable pub gone : Option String → AgentContainerObserved
  gone none = seen ContainerState.absent ""
  gone (some e) = error_report "" e

  -- The container's specification with its hash, none when there is none.
  abbrev pub Wanted : Type 0
  Wanted = Option (AgentContainerSpec × String)

  abbrev pub hash_of : Wanted → Option String
  hash_of none = none
  hash_of (some (spec, hash)) = some hash

  -- markStarted is called for a running container that is wanted.
  unfoldable pub kept : Wanted → Observed → Act W AgentContainerObserved
  kept none obs = pure (report none obs)
  kept (some (spec, hash)) obs = do
    let note : Act W (Unit {0}) = call docker.mark
    if obs.running then note else pure tt
    pure (report (some hash) obs)

  unfoldable pub apply_wanted : Wanted → Run W Bool → Observed → Act W AgentContainerObserved
  unfolding applied
  apply_wanted none gate obs = pure (report none obs)
  apply_wanted (some (spec, hash)) gate obs = do e ← apply spec hash gate; applied hash e

  unfoldable pub perform : Action → Wanted → Run W Bool → Observed → Act W AgentContainerObserved
  unfolding gone kept apply_wanted
  perform action_none wanted gate obs = kept wanted obs
  perform action_remove wanted gate obs = do e ← remove; pure (gone e)
  perform action_apply wanted gate obs = apply_wanted wanted gate obs

  -- converge
  unfoldable pub converge : Wanted → Run W Bool → Observed → Act W AgentContainerObserved
  converge wanted gate obs = perform (decide (hash_of wanted) obs) wanted gate obs

  abbrev pub docker_silent : String
  docker_silent = "docker не отвечает"

  -- unknown
  unfoldable pub unknown : Option AgentContainerObserved → String → AgentContainerObserved
  unknown (some last) hash = last
  unknown none hash = record (seen ContainerState.starting hash) { detail = some docker_silent }

  unfoldable pub told_silent : Wanted → Act W AgentContainerObserved
  unfolding unknown
  told_silent none = pure (seen ContainerState.absent "")
  told_silent (some (spec, hash)) = gets (λ m. unknown m.last hash)

  unfoldable pub reconcile_seen :
      Wanted → Run W Bool → Result String Observed → Act W AgentContainerObserved
  unfolding told_silent
  reconcile_seen wanted gate (err e) = told_silent wanted
  reconcile_seen wanted gate (ok obs) = do
    result ← converge wanted gate obs
    modify (λ m. record m { last = some result })
    pure result

  abbrev pub wanted_of : Option AgentContainerSpec → Wanted
  wanted_of none = none
  wanted_of (some spec) = some (spec, docker.hash spec)

  -- Reconcile; `gate` is beforeStart.
  unfoldable pub reconcile : Option AgentContainerSpec → Run W Bool → Act W AgentContainerObserved
  unfolding reconcile_seen
  reconcile spec gate = do obs ← observe; reconcile_seen (wanted_of spec) gate obs
