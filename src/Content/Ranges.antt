-- ===== src/Content/Ranges.antt =====
-- internal/content/manager.go: downloadRanged, downloadPart and downloadRange. The goroutines of the
-- parts take turns in any order; one turn is one round of the loop of downloadPart.
pub mod Whole
pub mod Requests
use yougpu_agent.Prelude.{
  ℕ, zero, suc, ◌+◌, ◌-◌, ◌*◌, ◌/◌, ◌≤◌, ◌<◌, ltb, leb, eqb, Bool, true, false, ◌&&◌, Option, none,
  some, List, [], ◌∷◌, length, if◌then◌else◌, ◌≡◌, All,
}
use yougpu_agent.Content.{Error, permanent, cancelled, plain, is_permanent}

abbrev pub range_parts : ℕ
range_parts = 8

abbrev pub range_attempts : ℕ
range_attempts = 3

-- A file of a known size, by its bytes.
abbrev pub File : Type 0
File = ℕ → ℕ

-- What a request for a range brings: an error of the request, or a status with the bytes that are
-- copied and the error of the copy.
pub data Reply : Type 0 where
  lost : Error → Reply
  answered : ℕ → List ℕ → Option Error → Reply

-- io.OffsetWriter
unfoldable pub write_at : ℕ → List ℕ → File → File
write_at at [] f = f
write_at at (b ∷ bs) f = write_at (suc at) bs (λ k. if eqb k at then b else f k)

-- downloadRange: the number of bytes copied, the error, and the file.
unfoldable pub download_range : Reply → ℕ → File → (ℕ × Option Error) × File
unfolding write_at
download_range (lost e) from f = ((0, some e), f)
download_range (answered status bytes e) from f =
    if eqb status 206
    then ((length bytes, e), write_at from bytes f)
    else ((0, some (plain "http status for range")), f)

-- The variables of downloadPart; `start` is the value that `from` had at first, `left` the attempts
-- that are left, and `ended` the result once there is one.
pub record Part : Type 0 where
  pub start : ℕ
  pub from : ℕ
  pub to : ℕ
  pub left : ℕ
  pub ended : Option (Option Error)

unfoldable pub is_running : Part → Bool
is_running p = elim p.ended [ none ↦ true | some e ↦ false ]

-- The end of a failed attempt: the error is the result when it was the last one.
unfoldable pub note_error : Error → Part → Part
note_error e p =
    if ltb 1 p.left
    then record p { left = p.left - 1 }
    else record p { left = 0; ended = some (some e) }

unfoldable pub judge : Option Error → Part → Part
unfolding note_error
judge (some e) p =
    if is_permanent e then record p { left = p.left - 1; ended = some (some e) } else note_error e p
judge none p = note_error (plain "short body") p

-- One round of the loop of downloadPart; `stop` is whether the context is cancelled after it.
unfoldable pub settle : Bool → Option Error → Part → Part
unfolding judge
settle stop e p =
    if ltb p.to p.from
    then record p { left = p.left - 1; ended = some none }
    else if stop
    then record p { left = p.left - 1; ended = some (some cancelled) }
    else judge e p

unfoldable pub attempt : Reply → Bool → Part → File → Part × File
unfolding settle download_range
attempt r stop p f =
    let (copied, f') = download_range r p.from f in
    (settle stop copied.1 (record p { from = p.from + copied.0 }), f')

-- The parts that downloadRanged starts, from the part i on.
unfoldable pub parts_from : ℕ → ℕ → ℕ → ℕ → List Part
parts_from zero i chunk size = []
parts_from (suc n) i chunk size =
    record {
      start = i * chunk;
      from = i * chunk;
      to = if eqb n 0 then size - 1 else i * chunk + chunk - 1;
      left = range_attempts;
      ended = none;
    }
    ∷ parts_from n (i + 1) chunk size

unfoldable pub parts_of : ℕ → List Part
unfolding parts_from
parts_of size = parts_from range_parts 0 (size / range_parts) size

-- The first error of the parts, once all have ended; none while one runs.
unfoldable pub result_of : List Part → Option (Option Error)
result_of [] = some none
result_of (p ∷ ps) = elim p.ended [
  | none ↦ none
  | some e ↦ elim (result_of ps) [
    | none ↦ none
    | some rest ↦ some (elim e [ none ↦ rest | some x ↦ some x ])
  ]
]

-- A server that answers a range with bytes of the content from its beginning on, and not more than
-- was asked for; it may answer with fewer, with an error, or not at all.
abbrev pub Agrees : File → ℕ → List ℕ → Type 0
Agrees content at [] = Unit {0}
Agrees content at (b ∷ bs) = (b ≡ content at) × Agrees content (suc at) bs

abbrev pub Serves : File → Part → Reply → Type 0
Serves content p (lost e) = Unit {0}
Serves content p (answered status bytes e) = status ≡ 206 → Agrees content p.from bytes

-- A turn of one of the parts that still run.
pub data Turn (content : File) : List Part → File → List Part → File → Type 0 where
  here :
      {p : Part} {ps : List Part} {f : File} (r : Reply) (stop : Bool)
      → is_running p ≡ true
      → Serves content p r
      → Turn content (p ∷ ps) f ((attempt r stop p f).0 ∷ ps) (attempt r stop p f).1
  there :
      {p : Part} {ps qs : List Part} {f g : File}
      → Turn content ps f qs g
      → Turn content (p ∷ ps) f (p ∷ qs) g

-- A run of n turns.
pub data Runs (content : File) : ℕ → List Part → File → List Part → File → Type 0 where
  rest : {ps : List Part} {f : File} → Runs content zero ps f ps f
  more :
      {n : ℕ} {ps qs rs : List Part} {f g h : File}
      → Turn content ps f qs g
      → Runs content n qs g rs h
      → Runs content (suc n) ps f rs h
