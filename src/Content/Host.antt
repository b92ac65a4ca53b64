-- ===== src/Content/Host.antt =====
-- What internal/content/manager.go calls: the workspace by os.Root, the package os, the HTTP client,
-- git, and the clock. Paths of the workspace are relative to it.
use yougpu_agent.Prelude.{ℕ, String, Bool, Option, List, Run}
use yougpu_agent.Prelude.Result.{Result}
use yougpu_agent.Content.{Error, FileInfo}

-- The result of a Mkdir.
pub data Made : Type 0 where
  made exists : Made
  not_made : Error → Made

-- A response: its status, its Content-Type and Content-Range, its length with 0 where it is not
-- known, and the URL that it came from.
pub record Response : Type 0 where
  pub status : ℕ
  pub content_type : String
  pub content_range : String
  pub length : ℕ
  pub final_url : String

-- `write`, `close`, `info`, `hash_written`, `copy` and `ranged` act on the part file that `create`
-- opened; `free` is the free space of its file system. None is no error, in what may fail only.
pub record Host (W : Type 0) : Type 0 where
  pub now : Run W ℕ
  pub is_cancelled : Run W Bool
  pub open_root : String → Run W (Option Error)
  pub make_all : String → Run W (Option Error)
  pub mkdir : String → Run W Made
  pub stat : String → Run W (Option FileInfo)
  pub hash : String → Run W (Option String)
  pub dir_exists : String → Run W Bool
  pub open_folder : String → Run W (Option Error)
  pub create : String → String → Run W (Option Error)
  pub write : String → Run W (Option Error)
  pub close : Run W (Option Error)
  pub info : Run W (Result Error ℕ)
  pub hash_written : Run W (Result Error String)
  pub remove : String → String → Run W (Unit {0})
  pub rename : String → String → String → Run W (Option Error)
  pub get : String → Run W (Result Error Response)
  pub free : Run W (Option ℕ)
  pub copy : Run W (ℕ × Option Error)
  pub ranged : String → ℕ → Run W (Option Error)
  pub git : List String → Run W (Option Error × String)
  pub remove_all : String → Run W (Unit {0})

-- Functions of Go's packages: the verb %q, strings.EqualFold, the name of the part file, which is a
-- hash of the name, and the test of the media type.
pub record Texts : Type 0 where
  pub quote : String → String
  pub equal_fold : String → String → Bool
  pub part_name : String → String
  pub is_html : String → Bool
