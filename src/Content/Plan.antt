-- ===== src/Content/Plan.antt =====
-- internal/content/manager.go: plan and what it calls: which targets of the content spec are to be
-- fetched, and which are refused.
pub mod Inside
use yougpu_agent.Prelude.{
  ℕ, ltb, eqb, String, Bool, true, false, not, ◌&&◌, ◌||◌, Option, none, some, List, [], ◌∷◌, ◌++◌,
  ◌<>◌, ◌==◌, is_empty, if◌then◌else◌, Run, pure, gets, modify, ◌>>=◌, ◌>>◌,
}
use yougpu_agent.Fetch.{clip}
use yougpu_agent.Spec.{ContentFile, ContentModel, ContentRepo, AgentContentSpec}
use yougpu_agent.Archive.Paths.{clean}
use yougpu_agent.Content.{Task, Stamp, FileInfo, Manager, Act, call, max_item_error}
use yougpu_agent.Content.Host.{Host, Texts}
use yougpu_agent.Content.Paths.{
  PathError, path_text, path_join, clean_dir, clean_text, check_rel, check_model,
  file_name_from_url, dir_of, base_of,
}

-- newTask
unfoldable pub new_task : String → String → String → String → String → ℕ → String → Task
new_task root rel raw_url label sum size inline = record {
  target = path_join (root ∷ rel ∷ []);
  dir = dir_of rel;
  base = base_of rel;
  url = raw_url;
  inline = inline;
  sha256 = sum;
  size = size;
  label = label;
  model = false;
  repo = none;
}

-- What plan makes of one entry of the spec.
pub data Item : Type 0 where
  present : Item
  invalid : String → Item
  wanted : Task → Item

abbrev pub tasks_of : List Item → List Task
tasks_of [] = []
tasks_of (present ∷ is) = tasks_of is
tasks_of (invalid e ∷ is) = tasks_of is
tasks_of (wanted t ∷ is) = t ∷ tasks_of is

abbrev pub invalid_of : List Item → List String
invalid_of [] = []
invalid_of (present ∷ is) = invalid_of is
invalid_of (invalid e ∷ is) = e ∷ invalid_of is
invalid_of (wanted t ∷ is) = invalid_of is

abbrev pub or_url : String → String → String
or_url name url = if is_empty name then file_name_from_url url else name

abbrev pub stamp_of : String → List (String × Stamp) → Option Stamp
stamp_of target [] = none
stamp_of target ((t, s) ∷ ss) = if t == target then some s else stamp_of target ss

-- regularFile
abbrev pub is_regular : Option FileInfo → Bool
is_regular none = false
is_regular (some i) = i.regular

module _ {W : Type 0} (host : Host W) (texts : Texts) where
  refused : String → String → Item
  refused name e = invalid (texts.quote (clip name max_item_error) <> (": " <> e))

  unless_present : Task → Bool → Item
  unless_present t there = if there then present else wanted t

  file_item : String → ContentFile → String → String → Option PathError → Act W Item
  unfolding refused unless_present
  file_item root f name rel (some e) = pure (refused name (path_text texts.quote e))
  file_item root f name rel none = do
    info ← call (host.stat rel)
    pure (unless_present (new_task root rel f.url name "" 0 f.content) (is_regular info))

  -- The round of the first loop.
  unfoldable pub plan_file : String → ContentFile → Act W Item
  unfolding file_item
  plan_file root f =
      let name = or_url f.name f.url in
      let rel = path_join (clean_dir f.dest ∷ name ∷ []) in
      if is_empty name
      then pure (invalid "workspace file without name/url")
      else file_item root f name rel (check_rel rel)

  -- remember
  unfoldable pub remember : String → FileInfo → String → Act W (Unit {0})
  remember target info sum = modify (λ m. record m {
    verified =
        (target, record { size = info.size; mod_time = info.mod_time; sha256 = sum }) ∷ m.verified;
  })

  is_known : Task → FileInfo → Option Stamp → Bool
  is_known t info none = false
  is_known t info (some s) =
      eqb s.size info.size && eqb s.mod_time info.mod_time && texts.equal_fold s.sha256 t.sha256

  after_hash : Task → FileInfo → Option String → Act W Bool
  unfolding remember
  after_hash t info none = pure false
  after_hash t info (some sum) =
      if texts.equal_fold sum t.sha256
      then (remember t.target info t.sha256 >> pure true)
      else pure false

  hashed : String → Task → FileInfo → Act W Bool
  unfolding after_hash
  hashed rel t info = do sum ← call (host.hash rel); after_hash t info sum

  present_by : String → Task → Option FileInfo → Act W Bool
  unfolding is_known hashed
  present_by rel t none = pure false
  present_by rel t (some info) =
      if not info.regular || (ltb 0 t.size && not (eqb info.size t.size))
      then pure false
      else if is_empty t.sha256
      then pure true
      else do
        known ← gets (λ m. is_known t info (stamp_of t.target m.verified))
        if known then pure true else hashed rel t info

  -- modelPresent; the file is opened and hashed in one call.
  unfoldable pub model_present : String → Task → Act W Bool
  unfolding present_by
  model_present rel t = do info ← call (host.stat rel); present_by rel t info

  model_item : String → ContentModel → String → Option String → Act W Item
  unfolding refused unless_present
  model_item root mdl name (some e) = pure (refused name e)
  model_item root mdl name none =
      let rel = path_join ("models" ∷ mdl.type ∷ name ∷ []) in
      let t : Task = record (new_task root rel mdl.url name mdl.sha256 mdl.size_bytes "") {
        model = true;
      } in
      do there ← model_present rel t; pure (unless_present t there)

  -- The round of the second loop.
  unfoldable pub plan_model : String → ContentModel → Act W Item
  unfolding model_item
  plan_model root mdl =
      let name = or_url mdl.name mdl.url in
      if is_empty name
      then pure (invalid "model without name/url")
      else model_item root mdl name (check_model texts.quote mdl.type name)

  repo_task : String → ContentRepo → Task
  repo_task root r = record {
    target = path_join (root ∷ clean_text (clean ("/" <> r.dest)) ∷ []);
    dir = "";
    base = "";
    url = "";
    inline = "";
    sha256 = "";
    size = 0;
    label = file_name_from_url r.url;
    model = false;
    repo = some r;
  }

  -- The round of the third loop.
  unfoldable pub plan_repo : String → ContentRepo → Act W Item
  unfolding repo_task unless_present
  plan_repo root r = do
    there ← call (host.dir_exists (repo_task root r).target)
    pure (unless_present (repo_task root r) there)

  unfoldable pub each : {A : Type 0} → (A → Act W Item) → List A → Act W (List Item)
  each f [] = pure []
  each f (x ∷ xs) = do i ← f x; is ← each f xs; pure (i ∷ is)

  -- plan
  unfoldable pub plan : AgentContentSpec → String → Act W (List Item)
  plan spec root = do
    files ← each (plan_file root) spec.workspace_files
    models ← each (plan_model root) spec.models
    repos ← each (plan_repo root) spec.repos
    pure (files ++ models ++ repos)
