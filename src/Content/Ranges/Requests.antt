-- ===== src/Content/Ranges/Requests.antt =====
-- internal/content/manager.go: how many requests a download in ranges makes.
use yougpu_agent.Prelude.{
  ℕ, zero, suc, ◌+◌, ◌*◌, ◌/◌, ◌≤◌, ◌<◌, Bool, Option, none, some, List, [], ◌∷◌, ◌≡◌, arith, All,
  length, refl, ap, ◌∙◌, true,
}
use yougpu_agent.Content.Ranges.Whole.{running_none}
use yougpu_agent.Content.{Error}
use yougpu_agent.Content.Ranges.{
  File, Reply, download_range, Part, is_running, note_error, judge, settle, attempt, parts_from,
  parts_of,
}

-- The parts with the number of requests that each has made, and the file. A part that runs makes a
-- request at any time: the server answers with anything, and the context ends or not.
pub data Step : List (ℕ × Part) → File → List (ℕ × Part) → File → Type 0 where
  asks :
      {k : ℕ} {p : Part} {ps : List (ℕ × Part)} {f : File} (r : Reply) (stop : Bool)
      → is_running p ≡ true
      → Step ((k, p) ∷ ps) f ((suc k, (attempt r stop p f).0) ∷ ps) (attempt r stop p f).1
  behind :
      {c : ℕ × Part} {ps qs : List (ℕ × Part)} {f g : File}
      → Step ps f qs g
      → Step (c ∷ ps) f (c ∷ qs) g

pub data Steps : List (ℕ × Part) → File → List (ℕ × Part) → File → Type 0 where
  stay : {ps : List (ℕ × Part)} {f : File} → Steps ps f ps f
  step :
      {ps qs rs : List (ℕ × Part)} {f g h : File}
      → Step ps f qs g
      → Steps qs g rs h
      → Steps ps f rs h

abbrev pub unasked : List Part → List (ℕ × Part)
unasked [] = []
unasked (p ∷ ps) = (0, p) ∷ unasked ps

abbrev pub requests : List (ℕ × Part) → ℕ
requests [] = 0
requests ((k, p) ∷ ps) = k + requests ps

-- What the attempts left say of the requests made, and a part that runs has an attempt left.
abbrev Within : ℕ × Part → Type 0
Within (k, p) = (k + p.left ≤ 3) × (p.ended ≡ none → 0 < p.left)

abbrev pub AtMostThree : ℕ × Part → Type 0
AtMostThree (k, p) = k ≤ 3

settle-Within :
    (k : ℕ) (stop : Bool) (e : Option Error) (p : Part)
    → k + p.left ≤ 3
    → 0 < p.left
    → p.ended ≡ none
    → Within (suc k, settle stop e p)
unfolding settle judge note_error
settle-Within k stop none p bound h runs = ground arith
settle-Within k stop (some e) p bound h runs = ground arith

Step-Within :
    {ps qs : List (ℕ × Part)} {f g : File} → Step ps f qs g → All Within ps → All Within qs
Step-Within (asks {k} {p} {ps} {f} r stop runs) ((bound, live), hs) =
    let copied = (download_range r p.from f).0 in
    let none_yet = running_none p runs in
    let now : Within (suc k, settle stop copied.1 (record p { from = p.from + copied.0 })) =
      settle-Within k stop copied.1 (record p { from = p.from + copied.0 }) bound (live none_yet)
        none_yet in
    unfold attempt in (now, hs)
Step-Within (behind s) (h, hs) = (h, Step-Within s hs)

Steps-Within :
    {ps qs : List (ℕ × Part)} {f g : File} → Steps ps f qs g → All Within ps → All Within qs
Steps-Within stay h = h
Steps-Within (step s ss) h = Steps-Within ss (Step-Within s h)

Step-length : {ps qs : List (ℕ × Part)} {f g : File} → Step ps f qs g → length qs ≡ length ps
Step-length (asks r stop runs) = refl
Step-length (behind s) = ap suc (Step-length s)

Steps-length : {ps qs : List (ℕ × Part)} {f g : File} → Steps ps f qs g → length qs ≡ length ps
Steps-length stay = refl
Steps-length (step s ss) = Steps-length ss ∙ Step-length s

parts_from-Within :
    (n i chunk size : ℕ)
    → All Within (unasked (parts_from n i chunk size))
      × (length (unasked (parts_from n i chunk size)) ≡ n)
unfolding parts_from
parts_from-Within zero i chunk size = (tt, refl)
parts_from-Within (suc n) i chunk size =
    let (within, count) = parts_from-Within n (i + 1) chunk size in
    (((omega arith, λ e. omega arith), within), ap suc count)

requests-bounded :
    (ps : List (ℕ × Part)) → All Within ps → All AtMostThree ps × (requests ps ≤ length ps * 3)
requests-bounded [] h = (tt, omega arith)
requests-bounded ((k, p) ∷ ps) ((bound, live), hs) =
    let (each, sum) = requests-bounded ps hs in ((omega arith, each), omega arith)

-- A download in ranges comes to its end: whatever the server answers, whenever the context ends and
-- in whatever order the parts take their turns, each of its parts makes at most three requests, and
-- all together make at most 24.
pub ranges_end :
    (size : ℕ) (ps : List (ℕ × Part)) (before after : File)
    → Steps (unasked (parts_of size)) before ps after
    → All AtMostThree ps × (requests ps ≤ 24)
unfolding parts_of
ranges_end size ps before after run =
    let (within, count) = parts_from-Within 8 0 (size / 8) size in
    let eight : length ps ≡ 8 = Steps-length run ∙ count in
    let (each, sum) = requests-bounded ps (Steps-Within run within) in (each, omega (arith, eight))
