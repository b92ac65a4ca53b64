-- ===== src/State/Download.antt =====
-- internal/state/manager.go: download, one round of the loop of fetchArchive, and what they use. The
-- archive file is the list of its bytes.
pub mod Attempt
pub mod Resumed
use yougpu_agent.Prelude.{
  ℕ, zero, suc, ◌+◌, ◌-◌, ◌*◌, ◌^◌, min, ltb, leb, eqb, String, Char, code, Bool, true, false, not,
  ◌&&◌, ◌||◌, Option, none, some, List, [], ◌∷◌, ◌++◌, ◌<>◌, ◌==◌, ◌≡◌, has_prefix, trim_prefix,
  itoa, atoi, length, if◌then◌else◌, Run,
}
use yougpu_agent.Client.{unsign}
use yougpu_agent.Prelude.Result.{Result, ok, err, Exec, done, fail, ◌>>=◌, ◌>>◌}
use yougpu_agent.Spec.{StateRestore}
use yougpu_agent.State.{Error, final, too_large, plain, text}
use yougpu_agent.State.Save.{max_retry_delay}

-- A response: the bytes that its body gives, and the error after them.
pub record Response : Type 0 where
  pub status : ℕ
  pub content_range : String
  pub body : List ℕ
  pub broken : Option Error

-- What download calls. None is no error, in what may fail only.
pub record Host (W : Type 0) : Type 0 where
  pub create : Run W (Option Error)
  pub truncate : Run W (Option Error)
  pub get : String → String → Run W (Result Error Response)
  pub is_cancelled : Run W Bool
  pub is_late : Run W Bool
  pub sleep : ℕ → Run W Bool
  pub restore_timeout : String

-- The file of an archive that is fetched, empty before it is created.
pub record Dest (W : Type 0) : Type 0 where
  pub file : List ℕ
  pub world : W

-- The text before the first "-".
abbrev before_dash : String → String
before_dash String.[] = ""
before_dash (String.◌∷◌ c s) =
    let rest = before_dash s in if eqb (code c) b'-' then "" else String.◌∷◌ c rest

-- rangeStart, none for -1. Before the first "-" a number has no sign but a plus.
unfoldable pub range_start : String → Option ℕ
range_start s =
    if has_prefix "bytes " s then atoi (unsign (before_dash (trim_prefix "bytes " s))) else none

abbrev pub starts_at : ℕ → Option ℕ → Bool
starts_at have none = false
starts_at have (some n) = eqb n have

abbrev pub take : ℕ → List ℕ → List ℕ
take zero xs = []
take (suc n) [] = []
take (suc n) (x ∷ xs) = x ∷ take n xs

-- What the status of a response is for the bytes that are there.
pub data Answer : Type 0 where
  resumed whole misplaced refused failed : Answer

unfoldable pub answer_of : ℕ → Response → Answer
answer_of have r =
    if eqb r.status 206 && ltb 0 have && starts_at have (range_start r.content_range)
    then resumed
    else if eqb r.status 200
    then whole
    else if eqb r.status 206 || eqb r.status 416
    then misplaced
    else if leb 400 r.status && ltb r.status 500 && not (eqb r.status 408) && not (eqb r.status 429)
    then refused
    else failed

abbrev pub range_from : ℕ → String
range_from have = if ltb 0 have then "bytes=" <> (itoa have <> "-") else ""

-- How a round of the loop of fetchArchive ends: with a result, or with the cause and the delay of
-- the next round.
pub data Round : Type 0 where
  ended : Option Error → Round
  again : Error → ℕ → Round

unfoldable pub is_final : Error → Bool
is_final (final e) = true
is_final (too_large e) = false
is_final (plain e) = false

unfoldable pub or_first : Bool → Error → Option Error → Error
or_first cancelled e none = e
or_first cancelled e (some cause) = if cancelled then cause else e

unfoldable pub prefixed : String → Error → Error
prefixed what (final e) = final (what <> e)
prefixed what (too_large e) = too_large (what <> e)
prefixed what (plain e) = plain (what <> e)

module _ {W : Type 0} (host : Host W) where
  unfoldable pub cut_to_none : Option Error → Exec (Dest W) Error (Unit {0})
  cut_to_none none d = (ok tt, record d { file = [] })
  cut_to_none (some e) d = (err e, d)

  -- restart
  unfoldable pub restart : Exec (Dest W) Error (Unit {0})
  unfolding cut_to_none
  restart d = let (e, w) = host.truncate d.world in cut_to_none e (record d { world = w })

  -- A restart whose error is left aside, and the error after it.
  unfoldable pub restart_fail : Error → Exec (Dest W) Error (Unit {0})
  unfolding restart
  restart_fail e d = (err e, (restart d).1)

  -- The size checks after the copy; `e` is the error of the copy.
  unfoldable pub check_size : ℕ → Option Error → Exec (Dest W) Error (Unit {0})
  unfolding restart_fail
  check_size size (some e) d = (err e, d)
  check_size size none d =
      if ltb size (length d.file)
      then restart_fail (final ("archive is larger than " <> (itoa size <> " bytes"))) d
      else if ltb (length d.file) size
      then (
        err (plain ("got " <> (itoa (length d.file) <> (" of " <> (itoa size <> " bytes"))))),
        d,
      )
      else (ok tt, d)

  -- The copy of the body, of which no more is read than one byte over what is missing.
  unfoldable pub take_body : ℕ → Response → Exec (Dest W) Error (Unit {0})
  unfolding check_size
  take_body size r d =
      let limit = size - length d.file + 1 in
      let e = if leb limit (length r.body) then none else r.broken in
      check_size size e (record d { file = d.file ++ take limit r.body })

  unfoldable pub on_answer : ℕ → Response → Answer → Exec (Dest W) Error (Unit {0})
  unfolding restart restart_fail take_body
  on_answer size r resumed d = take_body size r d
  on_answer size r whole d = (restart >> take_body size r) d
  on_answer size r misplaced d =
      restart_fail
        (plain ("http " <> (itoa r.status <> (" for bytes from " <> itoa (length d.file))))) d
  on_answer size r refused d = (err (final ("http " <> itoa r.status)), d)
  on_answer size r failed d = (err (plain ("http " <> itoa r.status)), d)

  unfoldable pub on_result : ℕ → Result Error Response → Exec (Dest W) Error (Unit {0})
  unfolding on_answer
  on_result size (err e) d = (err e, d)
  on_result size (ok r) d = on_answer size r (answer_of (length d.file) r) d

  unfoldable pub get_rest : StateRestore → Exec (Dest W) Error (Unit {0})
  unfolding on_result
  get_rest spec d =
      let (r, w) = host.get spec.url (range_from (length d.file)) d.world in
      if eqb (length d.file) spec.size_bytes
      then (ok tt, d)
      else on_result spec.size_bytes r (record d { world = w })

  unfoldable pub fit : StateRestore → Exec (Dest W) Error (Unit {0})
  unfolding restart
  fit spec d = if ltb spec.size_bytes (length d.file) then restart d else (ok tt, d)

  unfoldable pub opened : StateRestore → Option Error → Exec (Dest W) Error (Unit {0})
  unfolding fit get_rest
  opened spec (some e) d = (err e, d)
  opened spec none d = (fit spec >> get_rest spec) d

  -- download
  unfoldable pub download : StateRestore → Exec (Dest W) Error (Unit {0})
  unfolding opened
  download spec d = let (e, w) = host.create d.world in opened spec e (record d { world = w })

  -- The end of the loop once the context is done.
  unfoldable pub given_up : Error → Run (Dest W) Round
  unfolding prefixed
  given_up cause d =
      let (late, w) = host.is_late d.world in
      (
        ended (
            some (
              prefixed
                (if late
                  then "state download: did not finish in " <> (host.restore_timeout <> ": ")
                  else "state download: ")
                cause)),
        record d { world = w },
      )

  unfoldable pub after_sleep : ℕ → Error → Run (Dest W) Round
  unfolding given_up
  after_sleep delay cause d =
      let (cut, w) = host.sleep delay d.world in
      if cut
      then given_up cause (record d { world = w })
      else (again cause (min (delay * 2) max_retry_delay), record d { world = w })

  unfoldable pub after_attempt : ℕ → Option Error → Result Error (Unit {0}) → Run (Dest W) Round
  unfolding given_up after_sleep prefixed
  after_attempt delay cause (ok a) d = (ended none, d)
  after_attempt delay cause (err e) d =
      let (cancelled, w) = host.is_cancelled d.world in
      let d' : Dest W = record d { world = w } in
      if is_final e
      then (ended (some (prefixed "state download: " e)), d')
      else if cancelled
      then given_up (or_first cancelled e cause) d'
      else after_sleep delay (or_first cancelled e cause) d'

  -- One round of the loop of fetchArchive.
  unfoldable pub round : StateRestore → ℕ → Option Error → Run (Dest W) Round
  unfolding after_attempt
  round spec delay cause d = let (r, d') = download spec d in after_attempt delay cause r d'

  -- A run of rounds from an empty file, with the cause and the delay of the next one.
  pub data Rounds (spec : StateRestore) : Option Error → ℕ → Dest W → Type 0 where
    first : (delay : ℕ) (w : W) → Rounds spec none delay (record { file = []; world = w })
    next :
        {cause : Option Error} {delay : ℕ} {d : Dest W} (e : Error) (later : ℕ)
        → Rounds spec cause delay d
        → (round spec delay cause d).0 ≡ again e later
        → Rounds spec (some e) later (round spec delay cause d).1
