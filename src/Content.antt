-- ===== src/Content.antt =====
-- internal/content/manager.go: the errors, the tasks and the state of the content manager. The
-- reports of progress while a body is read, and the mutex, are left out.
pub mod Ranges
pub mod Paths
pub mod Failures
pub mod Host
pub mod Fetch
pub mod Plan
pub mod Pass
use yougpu_agent.Prelude.{
  ℕ, ltb, String, Bool, true, false, Option, none, some, List, [], ◌∷◌, if◌then◌else◌, Run, modify,
}
use yougpu_agent.Prelude.Result.{Result}
use yougpu_agent.Fetch.{clip}
use yougpu_agent.Spec.{ContentRepo}
use yougpu_agent.Status.{AgentContentObserved, ContentState}

-- An error of a fetch: a permanentError or ENOSPC, the error of a cancelled context, or another.
pub data Error : Type 0 where
  permanent : String → Error
  cancelled : Error
  plain : String → Error

-- isPermanent
unfoldable pub is_permanent : Error → Bool
is_permanent (permanent e) = true
is_permanent cancelled = false
is_permanent (plain e) = false

-- Error
unfoldable pub text : Error → String
text (permanent e) = e
text cancelled = "context canceled"
text (plain e) = e

pub record Task : Type 0 where
  pub target : String
  pub dir : String
  pub base : String
  pub url : String
  pub inline : String
  pub sha256 : String
  pub size : ℕ
  pub label : String
  pub model : Bool
  pub repo : Option ContentRepo

-- `next` is 0 for the zero time.
pub record Failure : Type 0 where
  pub attempts : ℕ
  pub next : ℕ
  pub permanent : Bool
  pub msg : String

pub record Stamp : Type 0 where
  pub size : ℕ
  pub mod_time : ℕ
  pub sha256 : String

-- What os.Stat tells of a file.
pub record FileInfo : Type 0 where
  pub regular : Bool
  pub size : ℕ
  pub mod_time : ℕ

-- The job of a pass: none, one that runs, or one that has ended.
pub data Job : Type 0 where
  no_job running ended : Job

-- The maps are lists of their entries, the latest first. `reports` is every observation handed to
-- the reporter and `notified` counts the calls of notify.
pub record Manager (W : Type 0) : Type 0 where
  pub key : String
  pub job : Job
  pub observed : AgentContentObserved
  pub settled : Bool
  pub verified : List (String × Stamp)
  pub failures : List (String × Failure)
  pub range_min : ℕ
  pub retry_base : ℕ
  pub reports : List AgentContentObserved
  pub notified : ℕ
  pub world : W

abbrev pub Act : Type 0 → Type 0 → Type 0
Act W A = Run (Manager W) A

abbrev pub max_error : ℕ
max_error = 1024

abbrev pub max_item_error : ℕ
max_item_error = 200

abbrev pub max_detail : ℕ
max_detail = 255

-- ready
abbrev pub ready_obs : AgentContentObserved
ready_obs = record {
  observed_state = ContentState.ready;
  progress = some 100;
  detail = none;
  last_error = none;
}

-- errObs
unfoldable pub err_obs : String → AgentContentObserved
err_obs msg = record {
  observed_state = ContentState.error;
  progress = none;
  detail = none;
  last_error = some (clip msg max_error);
}

-- The observation that `report` emits while a pass works.
abbrev pub downloading_obs : ℕ → String → AgentContentObserved
downloading_obs progress detail = record {
  observed_state = ContentState.downloading;
  progress = some progress;
  detail = some detail;
  last_error = none;
}

-- clamp, of a number that is not negative.
unfoldable pub clamp : ℕ → ℕ
clamp n = if ltb 100 n then 100 else n

module _ {W : Type 0} where
  abbrev pub call : {A : Type 0} → Run W A → Act W A
  call f m = let (a, w) = f m.world in (a, record m { world = w })

  unfoldable pub emit : AgentContentObserved → Act W (Unit {0})
  emit obs = modify (λ m. record m { observed = obs; reports = obs ∷ m.reports })
