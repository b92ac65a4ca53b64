-- ===== src/Content/Paths.antt =====
-- internal/content/manager.go: the paths and names of content (cleanDir, checkRel, checkModel,
-- fileNameFromURL), and the functions of the packages path and strings that they use.
pub mod Local
use yougpu_agent.Prelude.{
  ℕ, ◌+◌, leb, ltb, eqb, String, Char, code, Bool, true, false, not, ◌&&◌, ◌||◌, Option, none, some,
  List, [], ◌∷◌, ◌++◌, ◌==◌, ◌<>◌, is_empty, join, if◌then◌else◌,
}
use yougpu_agent.Archive.Paths.{Key, Clean, clean, split, is_rooted}

abbrev pub reversed : Key → Key → Key
reversed [] out = out
reversed (s ∷ ks) out = reversed ks (s ∷ out)

-- The text of a cleaned path.
unfoldable pub clean_text : Clean → String
clean_text c =
    let body = join "/" (reversed c.key []) in
    if c.rooted then "/" <> body else if is_empty body then "." else body

-- path.Join
unfoldable pub path_join : List String → String
unfolding clean_text
path_join [] = ""
path_join (a ∷ rest) =
    let later = path_join rest in
    if is_empty a then later else clean_text (clean (join "/" (a ∷ rest)))

-- cleanDir
unfoldable pub clean_dir : String → String
clean_dir p = join "/" (reversed (clean ("/" <> p)).key [])

-- unicode.IsControl
unfoldable pub is_control : Char → Bool
is_control c = ltb (code c) 32 || (leb 0x7f (code c) && ltb (code c) 0xa0)

abbrev pub any_char : (Char → Bool) → String → Bool
any_char f String.[] = false
any_char f (String.◌∷◌ c s) = f c || any_char f s

-- The length in bytes of a text in UTF-8.
abbrev pub byte_length : String → ℕ
byte_length String.[] = 0
byte_length (String.◌∷◌ c s) =
    (if ltb (code c) 0x80
      then 1
      else if ltb (code c) 0x800
      then 2
      else if ltb (code c) 0x10000
      then 3
      else 4)
    + byte_length s

abbrev pub max_segment : ℕ
max_segment = 255

-- The errors of checkRel. It asks filepath.IsLocal last, which holds where no segment is empty, "."
-- or "..", and no text reaches it that has such a segment.
pub data PathError : Type 0 where
  empty_path absolute_path has_backslash has_control : PathError
  bad_segment : String → PathError
  long_segment : PathError

-- The test of one segment in checkRel.
unfoldable pub check_segment : String → Option PathError
check_segment seg =
    if is_empty seg || seg == "." || seg == ".."
    then some (bad_segment seg)
    else if ltb max_segment (byte_length seg)
    then some long_segment
    else none

abbrev pub first_of : Option PathError → Option PathError → Option PathError
first_of none other = other
first_of (some e) other = some e

unfoldable pub check_segments : List String → Option PathError
check_segments [] = none
check_segments (s ∷ ss) = first_of (check_segment s) (check_segments ss)

-- checkRel; none is no error.
unfoldable pub check_rel : String → Option PathError
check_rel p =
    if is_empty p
    then some empty_path
    else if is_rooted p
    then some absolute_path
    else if any_char (λ c. eqb (code c) 0x5c) p
    then some has_backslash
    else if any_char is_control p
    then some has_control
    else check_segments (split p)

-- The texts of the errors; `quote` is the verb %q of the package fmt.
unfoldable pub path_text : (String → String) → PathError → String
path_text quote empty_path = "empty path"
path_text quote absolute_path = "absolute path"
path_text quote has_backslash = "backslash in path"
path_text quote has_control = "control character in path"
path_text quote (bad_segment s) = "path segment " <> quote s
path_text quote long_segment = "path segment longer than 255 bytes"

abbrev pub check_name : (String → String) → Option PathError → Option String
check_name quote none = none
check_name quote (some e) = some ("model name: " <> path_text quote e)

abbrev pub check_folder : (String → String) → Option PathError → Option String → Option String
check_folder quote none other = other
check_folder quote (some e) other = some ("model folder: " <> path_text quote e)

-- checkModel
unfoldable pub check_model : (String → String) → String → String → Option String
check_model quote folder name =
    check_folder quote (check_rel folder) (check_name quote (check_rel name))

-- The text before the first character of a kind: u[:strings.IndexAny(u, …)].
abbrev pub before : (Char → Bool) → String → String
before f String.[] = ""
before f (String.◌∷◌ c s) = let rest = before f s in if f c then "" else String.◌∷◌ c rest

-- strings.TrimRight(u, "/").
unfoldable pub trim_slashes : String → String
trim_slashes String.[] = ""
trim_slashes (String.◌∷◌ c s) =
    let rest = trim_slashes s in
    if is_empty rest && eqb (code c) b'/' then "" else String.◌∷◌ c rest

abbrev pub last_of : String → List String → String
last_of s [] = s
last_of s (t ∷ ts) = last_of t ts

-- path.Base, of a text that does not end in a slash.
unfoldable pub base_name : String → String
base_name s = if is_empty s then "." else last_of "" (split s)

-- fileNameFromURL; what is left of a text of slashes only is empty, and its base is ".".
unfoldable pub file_name_from_url : String → String
unfolding trim_slashes base_name
file_name_from_url u =
    if is_empty u
    then ""
    else base_name (trim_slashes (before (λ c. eqb (code c) b'?' || eqb (code c) b'#') u))

abbrev pub but_last : List String → List String
but_last [] = []
but_last (s ∷ []) = []
but_last (s ∷ t ∷ ts) = s ∷ but_last (t ∷ ts)

-- path.Split, the folder without the slash at its end.
unfoldable pub dir_of : String → String
dir_of rel = join "/" (but_last (split rel))

unfoldable pub base_of : String → String
base_of rel = last_of "" (split rel)
