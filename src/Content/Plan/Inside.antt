-- ===== src/Content/Plan/Inside.antt =====
-- What plan of internal/content/manager.go asks to be fetched stays in the workspace.
use yougpu_agent.Prelude.{
  ℕ, String, Bool, true, false, Option, none, some, List, [], ◌∷◌, ◌++◌, ◌<>◌, ◌≡◌, refl, sym, ◌⊎◌,
  All, is_empty, join, Bool-cases, inl, inr, arith, subst,
}
use yougpu_agent.Spec.{ContentFile, ContentModel, ContentRepo, AgentContentSpec}
use yougpu_agent.Archive.Paths.{clean, split_from, split, is_rooted}
use yougpu_agent.Archive.Proper.{rooted-all_proper}
use yougpu_agent.Archive.Files.{is_proper, all_proper}
use yougpu_agent.Content.{Task, Manager}
use yougpu_agent.Content.Host.{Host, Texts}
use yougpu_agent.Content.Paths.{
  PathError, check_folder, check_name, path_join, clean_text, check_rel, check_model, dir_of,
  base_of,
}
use yougpu_agent.Content.Paths.Local.{
  local_some, IsLocal, IsName, check_rel-IsLocal, clean_text-clean, split-append,
}
use yougpu_agent.Content.Plan.{
  Item, present, invalid, wanted, tasks_of, new_task, or_url, plan_file, plan_model, plan_repo,
  each, plan, file_item, model_item, unless_present, refused, repo_task,
}

-- A target in the workspace: a local path, or a folder whose path has no "..".
abbrev pub InFolder : String → Task → Type 0
InFolder root t =
    (rel : String) × IsLocal rel
    × (t.target ≡ path_join (root ∷ rel ∷ []))
    × (t.dir ≡ dir_of rel)
    × (t.base ≡ base_of rel)

abbrev pub IsRepo : String → Task → Type 0
IsRepo root t =
    (r : ContentRepo) × (t.repo ≡ some r)
    × (t.target ≡ path_join (root ∷ clean_text (clean ("/" <> r.dest)) ∷ []))
    × (all_proper (clean ("/" <> r.dest)).key ≡ true)

-- Which targets a plan may have.
abbrev pub IsInside : String → Task → Type 0
IsInside root t = ((t.repo ≡ none) × InFolder root t) ⊎ IsRepo root t

abbrev Fine : String → Item → Type 0
Fine root present = Unit {0}
Fine root (invalid e) = Unit {0}
Fine root (wanted t) = IsInside root t

tasks_of-IsInside :
    (root : String) (is : List Item) → All (Fine root) is → All (IsInside root) (tasks_of is)
tasks_of-IsInside root [] h = tt
tasks_of-IsInside root (present ∷ is) (i, h) = tasks_of-IsInside root is h
tasks_of-IsInside root (invalid e ∷ is) (i, h) = tasks_of-IsInside root is h
tasks_of-IsInside root (wanted t ∷ is) (i, h) = (i, tasks_of-IsInside root is h)

All-append : {A : Type 0} (P : A → Type 0) (xs ys : List A) → All P xs → All P ys → All P (xs ++ ys)
All-append P [] ys h k = k
All-append P (x ∷ xs) ys (p, h) k = (p, All-append P xs ys h k)

IsLocal-append : (a b : String) → IsLocal a → IsLocal b → IsLocal (a <> ("/" <> b))
unfolding is_rooted
IsLocal-append a b (ra, na) (rb, nb) = (
  rooted a (local_some a (ra, na)) ra,
  subst (All IsName) (sym (split-append a b)) (All-append IsName (split a) (split b) na nb),
)
  where
    rooted :
        (a : String)
        → is_empty a ≡ false
        → is_rooted a ≡ false
        → is_rooted (a <> ("/" <> b)) ≡ false
    rooted String.[] h k = cc
    rooted (String.◌∷◌ c s) h k = k

models-IsLocal : IsLocal "models"
unfolding split split_from is_proper is_rooted
models-IsLocal = (refl, ((refl, ground arith), tt))

-- The path of a model is the one that its folder and name spell.
model_rel-IsLocal :
    (folder name : String)
    → IsLocal folder
    → IsLocal name
    → IsLocal (path_join ("models" ∷ folder ∷ name ∷ []))
unfolding path_join join
model_rel-IsLocal folder name f n =
    let h =
      IsLocal-append "models" (folder <> ("/" <> name)) models-IsLocal
        (IsLocal-append folder name f n) in
    subst IsLocal (sym (clean_text-clean _ h)) h

model_checked :
    (quote : String → String) (folder name : String)
    → check_model quote folder name ≡ none
    → (check_rel folder ≡ none) × (check_rel name ≡ none)
unfolding check_model
model_checked quote folder name h = both (check_rel folder) (check_rel name) h
  where
    both :
        (a b : Option PathError)
        → check_folder quote a (check_name quote b) ≡ none
        → (a ≡ none) × (b ≡ none)
    both none none h = (refl, refl)
    both none (some e) h = cc
    both (some e) b h = cc

module _ {W : Type 0} (host : Host W) (texts : Texts) (root : String) where
  unless_present-Fine :
      (t : Task) (b : Bool) → IsInside root t → Fine root (unless_present host texts t b)
  unfolding unless_present
  unless_present-Fine t true h = tt
  unless_present-Fine t false h = h

  new_task-IsInside :
      (rel url label sum : String) (size : ℕ) (inline : String)
      → IsLocal rel
      → IsInside root (new_task root rel url label sum size inline)
  unfolding new_task
  new_task-IsInside rel url label sum size inline h = inl (refl, (rel, h, refl, refl, refl))

  plan_file-Fine : (f : ContentFile) (m : Manager W) → Fine root (plan_file host texts root f m).0
  unfolding plan_file file_item refused
  plan_file-Fine f m = elim (Bool-cases (is_empty (or_url f.name f.url))) [
    | inl nameless ↦ rw nameless tt
    | inr named ↦ rw named (checked _ _ _ refl)
  ]
    where
      checked :
          (name rel : String) (e : Option PathError)
          → check_rel rel ≡ e
          → Fine root (file_item host texts root f name rel e m).0
      checked name rel (some e) h = tt
      checked name rel none h =
          unless_present-Fine _ _ (new_task-IsInside rel _ _ _ _ _ (check_rel-IsLocal rel h))

  plan_model-Fine :
      (f : ContentModel) (m : Manager W) → Fine root (plan_model host texts root f m).0
  unfolding plan_model model_item refused new_task
  plan_model-Fine f m = elim (Bool-cases (is_empty (or_url f.name f.url))) [
    | inl nameless ↦ rw nameless tt
    | inr named ↦ rw named (checked _ _ refl)
  ]
    where
      checked :
          (name : String) (e : Option String)
          → check_model texts.quote f.type name ≡ e
          → Fine root (model_item host texts root f name e m).0
      checked name (some e) h = tt
      checked name none h =
          let (folder, file) = model_checked texts.quote f.type name h in
          unless_present-Fine _ _ (
            inl (
              refl,
              (
                _,
                model_rel-IsLocal f.type name (check_rel-IsLocal _ folder)
                    (check_rel-IsLocal _ file),
                refl,
                refl,
                refl,
              ),
            ))

  plan_repo-Fine : (f : ContentRepo) (m : Manager W) → Fine root (plan_repo host texts root f m).0
  unfolding plan_repo repo_task
  plan_repo-Fine f m = unless_present-Fine _ _ (inr (f, refl, refl, rooted-all_proper f.dest))

  each-Fine :
      {A : Type 0} (f : A → Manager W → Item × Manager W)
      → ((a : A) (m : Manager W) → Fine root (f a m).0)
      → (xs : List A) (m : Manager W) → All (Fine root) (each host texts f xs m).0
  unfolding each
  each-Fine f h [] m = tt
  each-Fine f h (x ∷ xs) m = (h x m, each-Fine f h xs (f x m).1)

  -- What a plan asks to be fetched stays in the workspace: a file or a model has a path of proper
  -- names of at most 255 bytes each, a repository a folder whose path has no "..".
  pub plan-IsInside :
      (spec : AgentContentSpec) (m : Manager W)
      → All (IsInside root) (tasks_of (plan host texts spec root m).0)
  unfolding plan
  plan-IsInside spec m =
      let files = each host texts (plan_file host texts root) spec.workspace_files m in
      let models = each host texts (plan_model host texts root) spec.models files.1 in
      tasks_of-IsInside root _ (
        All-append (Fine root) _ _
          (All-append (Fine root) _ _
            (each-Fine (plan_file host texts root) plan_file-Fine spec.workspace_files m)
            (each-Fine (plan_model host texts root) plan_model-Fine spec.models files.1))
          (each-Fine (plan_repo host texts root) plan_repo-Fine spec.repos models.1))
