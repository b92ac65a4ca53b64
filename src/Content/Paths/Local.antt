-- ===== src/Content/Paths/Local.antt =====
-- The relative paths that checkRel of internal/content/manager.go accepts.
use yougpu_agent.Prelude.{
  ◌≤◌, eqb, code, Char, String, true, false, Option, none, some, List, [], ◌∷◌, ◌++◌, ◌<>◌, ◌≡◌,
  refl, sym, ap, All, inl, inr, is_empty, join, arith, Bool-cases,
}
use text.Mathlib.TextEquality.{Char-path}
use yougpu_agent.Archive.Paths.{
  Key, split, split_from, clean, clean_from, clean_step, is_rooted, is_slash,
}
use yougpu_agent.Archive.Files.{is_proper}
use yougpu_agent.Content.Paths.{
  reversed, clean_text, byte_length, max_segment, check_segment, check_segments, first_of,
  check_rel, PathError,
}

-- A segment that names an entry of its folder, and that a file system takes.
abbrev pub IsName : String → Type 0
IsName s = (is_proper s ≡ true) × (byte_length s ≤ max_segment)

-- A path of names, from the folder down.
abbrev pub IsLocal : String → Type 0
IsLocal p = (is_rooted p ≡ false) × All IsName (split p)

check_segment-IsName : (s : String) → check_segment s ≡ none → IsName s
unfolding check_segment is_proper
check_segment-IsName s h = ground arith

first_none : (a b : Option PathError) → first_of a b ≡ none → (a ≡ none) × (b ≡ none)
first_none none b h = (refl, h)
first_none (some e) b h = cc

check_segments-IsName : (ss : List String) → check_segments ss ≡ none → All IsName ss
unfolding check_segments
check_segments-IsName [] h = tt
check_segments-IsName (s ∷ ss) h =
    let (a, b) = first_none (check_segment s) (check_segments ss) h in
    (check_segment-IsName s a, check_segments-IsName ss b)

passed :
    (p : String) → check_rel p ≡ none → (is_rooted p ≡ false) × (check_segments (split p) ≡ none)
unfolding check_rel
passed p h = ground arith

pub check_rel-IsLocal : (p : String) → check_rel p ≡ none → IsLocal p
check_rel-IsLocal p h =
    let (rooted, segments) = passed p h in (rooted, check_segments-IsName (split p) segments)

split_from-append : (w a b : String) → split_from w (a <> ("/" <> b)) ≡ split_from w a ++ split b
unfolding split_from split is_slash
split_from-append w String.[] b = refl
split_from-append w (String.◌∷◌ c a) b = elim (Bool-cases (eqb (code c) b'/')) [
  | inl t ↦ rw (t, split_from-append "" a b) refl
  | inr f ↦ rw (f, split_from-append (w <> String.◌∷◌ c "") a b) refl
]

pub split-append : (a b : String) → split (a <> ("/" <> b)) ≡ split a ++ split b
unfolding split
split-append a b = split_from-append "" a b

append_empty : (s : String) → s <> "" ≡ s
append_empty String.[] = refl
append_empty (String.◌∷◌ c s) = ap (String.◌∷◌ c) (append_empty s)

append_assoc : (s t u : String) → (s <> t) <> u ≡ s <> (t <> u)
append_assoc String.[] t u = refl
append_assoc (String.◌∷◌ c s) t u = ap (String.◌∷◌ c) (append_assoc s t u)

split_from-some : (w s : String) → (t : String) × (ts : List String) × (split_from w s ≡ t ∷ ts)
unfolding split_from
split_from-some w String.[] = (w, [], refl)
split_from-some w (String.◌∷◌ c s) = elim (Bool-cases (is_slash c)) [
  | inl t ↦ (w, split_from "" s, rw t refl)
  | inr f ↦ let (u, us, e) = split_from-some (w <> String.◌∷◌ c "") s in (u, us, rw f e)
]

join-cons :
    (w : String) (ss : List String)
    → (t : String) × (ts : List String) × (ss ≡ t ∷ ts)
    → join "/" (w ∷ ss) ≡ w <> ("/" <> join "/" ss)
unfolding join
join-cons w ss (t, ts, e) = rw e refl

slash_char : (c : Char) → is_slash c ≡ true → (s : String) → "/" <> s ≡ String.◌∷◌ c s
unfolding is_slash
slash_char c h s = ap (λ d. String.◌∷◌ d s) (Char-path _ c (ground arith))

join-split_from : (w s : String) → join "/" (split_from w s) ≡ w <> s
unfolding split_from join
join-split_from w String.[] = sym (append_empty w)
join-split_from w (String.◌∷◌ c s) = elim (Bool-cases (is_slash c)) [
  | inl t ↦
      rw (t, join-cons w (split_from "" s) (split_from-some "" s), join-split_from "" s)
        (ap (λ u. w <> u) (slash_char c t s))
  | inr f ↦ rw (f, join-split_from (w <> String.◌∷◌ c "") s) (append_assoc w (String.◌∷◌ c "") s)
]

pub join-split : (s : String) → join "/" (split s) ≡ s
unfolding split
join-split s = join-split_from "" s

IsName-clean_step : (kept : Key) (s : String) → IsName s → clean_step false kept s ≡ s ∷ kept
unfolding clean_step is_proper
IsName-clean_step kept s (h, l) = ground arith

-- Cleaning keeps the names of a path.
pub clean_from-names :
    (ss : List String) (kept : Key)
    → All IsName ss
    → reversed (clean_from false kept ss) [] ≡ reversed kept ss
unfolding clean_from
clean_from-names [] kept h = refl
clean_from-names (s ∷ ss) kept (n, h) =
    rw (IsName-clean_step kept s n) (clean_from-names ss (s ∷ kept) h)

pub local_some : (p : String) → IsLocal p → is_empty p ≡ false
unfolding split split_from is_proper
local_some String.[] (r, ((h, l), rest)) = cc
local_some (String.◌∷◌ c p) h = refl

-- A local path is the text of the path it is cleaned to.
pub clean_text-clean : (p : String) → IsLocal p → clean_text (clean p) ≡ p
unfolding clean_text clean
clean_text-clean p (rooted, names) =
    rw (rooted, clean_from-names (split p) [] names, join-split p, local_some p (rooted, names))
      refl
