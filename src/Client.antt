-- ===== src/Client.antt =====
-- internal/client/client.go: requests to the backend with one retry when it limits the rate, and the
-- stream of server-sent events that brings the specifications. net/http, encoding/json and the
-- clock are parameters.
pub mod Retry
pub mod Events
use yougpu_agent.Prelude.{
  ℕ, ℤ, pos, negsuc, ltb, leb, eqb, ltb_ℤ, ◌*◌, ◌-◌, ◌%◌, ◌^◌, String, code, Bool, true, false, not,
  ◌&&◌, ◌||◌, Option, none, some, List, [], ◌∷◌, ◌==◌, ◌<>◌, is_empty, atoi, trim_space, has_prefix,
  trim_prefix, if◌then◌else◌,
}
use yougpu_agent.Prelude.Int64.{signed, signed_small}
use yougpu_agent.Prelude.Result.{Result, ok, err, Exec, done, fail, ◌>>=◌}

-- An HTTPError, or another one; the text of a wrapped error is left out.
pub data ClientError : Type 0 where
  http : ℕ → String → ClientError
  failed : String → ClientError

pub record Response : Type 0 where
  pub status : ℕ
  pub retry_after : String
  pub body : String

-- hasStatus
unfoldable pub has_status : ClientError → ℕ → Bool
has_status (http s body) status = eqb s status
has_status (failed e) status = false

unfoldable pub is_gone : ClientError → Bool
unfolding has_status
is_gone e = has_status e 410

unfoldable pub is_conflict : ClientError → Bool
unfolding has_status
is_conflict e = has_status e 409

unfoldable pub is_bad_request : ClientError → Bool
unfolding has_status
is_bad_request e = has_status e 400

-- Durations are int64 nanoseconds: the product of Go wraps around.
abbrev pub second : ℕ
second = 1000000000

abbrev pub fallback_wait : ℤ
fallback_wait = pos (5 * second)

abbrev pub max_wait : ℤ
max_wait = pos (60 * second)

abbrev pub unsign : String → String
unsign String.[] = ""
unsign (String.◌∷◌ c s) = if eqb (code c) b'+' then s else String.◌∷◌ c s

abbrev pub in_range : Option ℕ → Option ℕ
in_range none = none
in_range (some n) = if ltb 0 n && ltb n (2 ^ 63) then some n else none

-- strconv.Atoi, where it gives a number above 0.
unfoldable pub positive_atoi : String → Option ℕ
positive_atoi h = in_range (atoi (unsign h))

abbrev pub cap : ℤ → ℤ
cap d = if ltb_ℤ max_wait d then max_wait else d

-- The time until the date of the header, none when it is not a date.
abbrev pub until : Option ℤ → ℤ
until none = fallback_wait
until (some d) = if ltb_ℤ (pos 0) d then cap d else fallback_wait

abbrev pub wait_for : Option ℕ → Option ℤ → ℤ
wait_for (some secs) date = cap (signed (secs * second))
wait_for none date = until date

-- parseRetryAfter; `date` is http.ParseTime with time.Until.
unfoldable pub parse_retry_after : (String → Option ℤ) → String → ℤ
unfolding signed positive_atoi
parse_retry_after date h = if is_empty h then fallback_wait else wait_for (positive_atoi h) (date h)

-- `send` makes the request and sends it; `wait` is some error when the context ends first.
-- `snippet` is what is read of the body of an error, `read` the reading of any other body.
-- `envelope` is the field data of the body, none when the body is no envelope.
pub record Http (W : Type 0) : Type 0 where
  pub send : Exec W ClientError Response
  pub wait : ℤ → Exec W ClientError (Unit {0})
  pub date : String → Option ℤ
  pub envelope : String → Option String
  pub snippet : String → String
  pub read : String → Result String String

abbrev pub Call : Type 0 → Type 0 → Type 0
Call W A = Exec W ClientError A

module _ {W : Type 0} (net : Http W) where
  unfoldable pub resend : Response → Call W Response
  resend r = do
    let again : Call W Response =
        net.wait (parse_retry_after net.date r.retry_after) >>= λ u. net.send
    if eqb r.status 429 then again else done r

  -- The text that `out` is unmarshalled from.
  unfoldable pub payload : Option String → String → String
  payload none raw = raw
  payload (some data_field) raw = if is_empty data_field then raw else data_field

  unfoldable pub read_payload : Result String String → Call W (Option String)
  unfolding payload
  read_payload (err e) = fail (failed ("read body: " <> e))
  read_payload (ok raw) = done (some (payload (net.envelope raw) raw))

  -- The answer to the caller: the text to unmarshal, none for no content or when none is asked for.
  unfoldable pub settle : Bool → Response → Call W (Option String)
  unfolding read_payload
  settle wanted r =
      if eqb r.status 204
      then done none
      else (if ltb r.status 200 || leb 300 r.status
          then fail (http r.status (net.snippet r.body))
          else (if wanted then read_payload (net.read r.body) else done none))

  -- do; the marshalling of the body is part of `send`.
  unfoldable pub request : Bool → Call W (Option String)
  unfolding resend settle
  request wanted = do r ← net.send; r' ← resend r; settle wanted r'

-- The variables event and data of StreamSpec, with the texts handed on, last one first.
pub record Stream : Type 0 where
  pub event : String
  pub payload : String
  pub sent : List String

-- flush; `valid` is whether json.Unmarshal reads a text as a specification, `taken` whether the
-- receiver takes it before the context ends.
unfoldable pub flush : (String → Bool) → (String → Bool) → Stream → Stream
flush valid taken s =
    let sent =
      if s.event == "spec" && not (is_empty s.payload) && valid s.payload && taken s.payload
      then s.payload ∷ s.sent
      else s.sent in
    record { event = ""; payload = ""; sent = sent }

-- The body of the scan loop.
unfoldable pub read_line : (String → Bool) → (String → Bool) → Stream → String → Stream
unfolding flush
read_line valid taken s line =
    if is_empty line
    then flush valid taken s
    else (if has_prefix "event:" line
        then record s { event = trim_space (trim_prefix "event:" line) }
        else (if has_prefix "data:" line
            then record s { payload = trim_space (trim_prefix "data:" line) }
            else s))

unfoldable pub read_lines : (String → Bool) → (String → Bool) → List String → Stream → Stream
read_lines valid taken [] s = s
read_lines valid taken (l ∷ ls) s = read_lines valid taken ls (read_line valid taken s l)

-- The loop of StreamSpec. `scan` is bufio.Scanner with its limit on the size of a line: of the lines
-- that the backend writes, those that it yields before it stops.
unfoldable pub read_stream :
    (List String → List String) → (String → Bool) → (String → Bool) → List String → Stream → Stream
unfolding read_lines
read_stream scan valid taken ls s = read_lines valid taken (scan ls) s

abbrev pub start : Stream
start = record { event = ""; payload = ""; sent = [] }
