-- ===== src/Archive/Paths.antt =====
-- The paths of internal/state/archive.go: path.Clean by segments, safeRel and included.
use yougpu_agent.Prelude.{
  String, Char, code, eqb, Bool, true, false, not, ◌&&◌, ◌||◌, Option, none, some, List, [], ◌∷◌,
  ◌==◌, ◌<>◌, is_empty, if◌then◌else◌,
}

abbrev pub Key : Type 0
Key = List String

unfoldable pub is_slash : Char → Bool
is_slash c = eqb (code c) b'/'

unfoldable pub split_from : String → String → List String
unfolding is_slash
split_from word String.[] = word ∷ []
split_from word (String.◌∷◌ c s) =
    let next = split_from "" s in
    let longer = split_from (word <> String.◌∷◌ c "") s in
    if is_slash c then word ∷ next else longer

-- strings.Split(s, "/").
unfoldable pub split : String → List String
unfolding split_from
split s = split_from "" s

unfoldable pub is_rooted : String → Bool
unfolding is_slash
is_rooted String.[] = false
is_rooted (String.◌∷◌ c s) = is_slash c

-- strings.TrimSuffix(s, "/").
unfoldable pub trim_slash : String → String
unfolding is_slash
trim_slash String.[] = ""
trim_slash (String.◌∷◌ c String.[]) = if is_slash c then "" else String.◌∷◌ c ""
trim_slash (String.◌∷◌ c s) = String.◌∷◌ c (trim_slash s)

-- A cleaned path: whether it starts at the root, and its segments, last first. No segment stands
-- for the text "." or "/".
pub record Clean : Type 0 where
  pub rooted : Bool
  pub key : Key

-- A ".." that nothing is there to be taken away by.
abbrev pub up : Bool → Key → Key
up true kept = kept
up false kept = ".." ∷ kept

abbrev pub back : Bool → Key → Key
back rooted [] = up rooted []
back rooted (k ∷ ks) = if k == ".." then up rooted (k ∷ ks) else ks

-- One segment of path.Clean, with the segments kept so far.
unfoldable pub clean_step : Bool → Key → String → Key
clean_step rooted kept s =
    if is_empty s || s == "." then kept else if s == ".." then back rooted kept else s ∷ kept

unfoldable pub clean_from : Bool → Key → List String → Key
unfolding clean_step
clean_from rooted kept [] = kept
clean_from rooted kept (s ∷ ss) = clean_from rooted (clean_step rooted kept s) ss

-- path.Clean.
unfoldable pub clean : String → Clean
unfolding clean_from
clean p = record { rooted = is_rooted p; key = clean_from (is_rooted p) [] (split p) }

-- Whether the first segment is "..", which is the last of a key.
abbrev pub starts_up : Key → Bool
starts_up [] = false
starts_up (s ∷ []) = s == ".."
starts_up (s ∷ t ∷ ks) = starts_up (t ∷ ks)

abbrev pub nonempty : Key → Option Key
nonempty [] = none
nonempty (s ∷ ks) = some (s ∷ ks)

unfoldable pub check_rel : Clean → Option Key
check_rel c = if c.rooted || starts_up c.key then none else nonempty c.key

-- safeRel; none is the error "unsafe path in state".
unfoldable pub safe_rel : String → Option Key
unfolding check_rel
safe_rel name = check_rel (clean (trim_slash name))

unfoldable pub key_eq : Key → Key → Bool
key_eq [] [] = true
key_eq [] (s ∷ ks) = false
key_eq (s ∷ ks) [] = false
key_eq (s ∷ ks) (t ∷ ls) = s == t && key_eq ks ls

-- Whether the path of `dir` is the path of `key` or stands above it.
abbrev pub is_above : Key → Key → Bool
is_above dir [] = key_eq dir []
is_above dir (s ∷ ks) = key_eq dir (s ∷ ks) || is_above dir ks

has_segments : Key → Bool
has_segments [] = false
has_segments (s ∷ ks) = true

-- One folder of `included`; a cleaned "." or a rooted path is no beginning of a relative path.
included_in : Clean → Key → Bool
unfolding has_segments
included_in dir rel = not dir.rooted && has_segments dir.key && is_above dir.key rel

unfoldable pub included : List String → Key → Bool
unfolding included_in
included [] rel = false
included (dir ∷ dirs) rel = included_in (clean dir) rel || included dirs rel
