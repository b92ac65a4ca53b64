-- ===== src/Archive/Files.antt =====
-- The file system below the folder that an archive is unpacked into, as the os package shows it.
-- Any call may fail. A call on a path that leads through a symbolic link, or that is no path below
-- the folder, acts somewhere else: `escaped` records that.
use yougpu_agent.Prelude.{
  ℕ, suc, String, Bool, true, not, ◌&&◌, Option, none, some, List, [], ◌∷◌, ◌==◌, is_empty,
  if◌then◌else◌,
}
use yougpu_agent.Prelude.Result.{ok, err, Exec, done, fail}
use yougpu_agent.Archive.Paths.{Key, key_eq}

pub data Node : Type 0 where
  dir : Node
  file : (mode size mtime : ℕ) → Node
  symlink : String → Node

abbrev pub Nodes : Type 0
Nodes = List (Key × Node)

unfoldable pub lookup : Key → Nodes → Option Node
lookup k [] = none
lookup k ((j, n) ∷ m) = if key_eq j k then some n else lookup k m

unfoldable pub without : Key → Nodes → Nodes
without k [] = []
without k ((j, n) ∷ m) = let rest = without k m in if key_eq j k then rest else (j, n) ∷ rest

pub record Fs : Type 0 where
  pub nodes : Nodes
  pub calls : ℕ
  pub escaped : Bool

pub data Error : Type 0 where
  os not_a_directory directory_in_place unsafe_path too_many_entries too_many_bytes broken_archive :
      Error

abbrev pub Act : Type 0 → Type 0
Act A = Exec Fs Error A

-- A segment that names an entry of its folder.
unfoldable pub is_proper : String → Bool
is_proper s = not (is_empty s) && not (s == ".") && not (s == "..")

abbrev pub all_proper : Key → Bool
all_proper [] = true
all_proper (s ∷ ks) = is_proper s && all_proper ks

pub data Walk : Type 0 where
  clear missing not_dir through_link : Walk

abbrev pub enter : Option Node → Walk
enter none = missing
enter (some dir) = clear
enter (some (file mode size mtime)) = not_dir
enter (some (symlink target)) = through_link

abbrev pub then_enter : Walk → Option Node → Walk
then_enter clear o = enter o
then_enter missing o = missing
then_enter not_dir o = not_dir
then_enter through_link o = through_link

-- The way through the folders of a path.
unfoldable pub walk : Nodes → Key → Walk
walk m [] = clear
walk m (s ∷ ks) = then_enter (walk m ks) (lookup (s ∷ ks) m)

abbrev pub way : Nodes → Key → Walk
way m [] = through_link
way m (s ∷ ks) = if all_proper (s ∷ ks) then walk m ks else through_link

module _ (fails : ℕ → Bool) where
  -- One call of the os package on a path, once its folders are passed; `absent` is what it does
  -- where a folder is missing.
  unfoldable pub along : {A : Type 0} → Walk → Act A → Act A → Act A
  along clear act absent fs = act fs
  along missing act absent fs = absent fs
  along not_dir act absent fs = (err os, fs)
  along through_link act absent fs = (err os, record fs { escaped = true })

  unfoldable pub on_path : {A : Type 0} → Key → Act A → Act A → Act A
  unfolding along
  on_path k act absent fs =
      let fs' : Fs = record fs { calls = suc fs.calls } in
      if fails fs.calls then (err os, fs') else along (way fs.nodes k) act absent fs'

  -- os.Lstat; none is fs.ErrNotExist.
  unfoldable pub lstat : Key → Act (Option Node)
  unfolding on_path
  lstat k = on_path k (λ fs. (ok (lookup k fs.nodes), fs)) (done none)

  unfoldable pub put : Key → Node → Act (Unit {0})
  put k n fs = (ok tt, record fs { nodes = (k, n) ∷ without k fs.nodes })

  unfoldable pub unless_there : Option Node → Act (Unit {0}) → Act (Unit {0})
  unless_there none act = act
  unless_there (some n) act = fail os

  -- os.Mkdir, os.Symlink and os.OpenFile with O_EXCL: nothing may be there.
  unfoldable pub create : Key → Node → Act (Unit {0})
  unfolding on_path put unless_there
  create k n = on_path k (λ fs. unless_there (lookup k fs.nodes) (put k n) fs) (fail os)

  -- The end of a regular file's writing and os.Chtimes on it.
  unfoldable pub rewrite : Key → Node → Act (Unit {0})
  unfolding on_path put
  rewrite k n = on_path k (put k n) (fail os)

  unfoldable pub remove_node : Key → Option Node → Act (Unit {0})
  remove_node k none fs = (err os, fs)
  remove_node k (some n) fs = (ok tt, record fs { nodes = without k fs.nodes })

  -- os.Remove, here of what is no folder.
  unfoldable pub remove : Key → Act (Unit {0})
  unfolding on_path remove_node
  remove k = on_path k (λ fs. remove_node k (lookup k fs.nodes) fs) (fail os)
