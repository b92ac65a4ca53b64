-- ===== src/Client/Events.antt =====
-- internal/client/client.go: the events that the backend writes are handed on as they were.
use yougpu_agent.Prelude.{
  String, Bool, true, false, List, [], ◌∷◌, ◌++◌, ◌<>◌, is_empty, ◌≡◌, trim_space,
}

-- A specification as the backend writes it, with the texts of comment lines before the event, between
-- its two fields and before its end.
pub record Event : Type 0 where
  pub before : List String
  pub between : List String
  pub behind : List String
  pub payload : String

abbrev pub comments : List String → List String
comments [] = []
comments (c ∷ cs) = (":" <> c) ∷ comments cs

abbrev pub event_lines : Event → List String → List String
event_lines e ls =
    comments e.before
    ++ "event: spec"
      ∷ (comments e.between ++ ("data: " <> e.payload) ∷ (comments e.behind ++ "" ∷ ls))

abbrev pub stream_lines : List Event → List String
stream_lines [] = []
stream_lines (e ∷ es) = event_lines e (stream_lines es)

-- A payload that json.Unmarshal reads, of one line without white space around it, which the receiver
-- takes before the context ends.
pub record IsPayload (valid taken : String → Bool) (e : Event) : Type 0 where
  pub is_valid : valid e.payload ≡ true
  pub is_taken : taken e.payload ≡ true
  pub is_full : is_empty e.payload ≡ false
  pub is_trim : trim_space e.payload ≡ e.payload

abbrev pub onto : List Event → List String → List String
onto [] sent = sent
onto (e ∷ es) sent = onto es (e.payload ∷ sent)
