-- ===== src/Chat/Stream.antt =====
-- `createChatCompletion`: the reply that it reads from an event stream.
use opengrab.Prelude.{
  ◌≡◌, ◌<◌, ◌≤◌, true, false, List, [], ◌∷◌, ◌++◌, Option, none, some, refl, arith, ap, ◌∙◌, ltb,
  append_assoc, append-nil,
}
use opengrab.Text.{
  Text, codes, cut_lines-line, is_empty, text_eq, has_rune, trim_space, has_prefix, contains,
  byte_length, width, is_space, trim_left, trim_right,
}
use opengrab.EnvFile.{Environment, AppConfig, configured, get_token}
use opengrab.Session.{Message}
use opengrab.Chat.{
  Api, ChatResponse, ChatChoice, Response, reply, drop_cr, scan_parts, scan, max_line, skipped,
  done, delta_of, delta_of_choices, event_of, read_events, read_stream, read_response,
  create_chat_completion, chat_request, http_request, url_of,
}

-- A line that the scanner yields as it is.
pub record IsLine (line : Text) : Type 0 where
  pub no_newline : has_rune line b'\n' ≡ false
  pub no_cr : drop_cr line ≡ line
  pub fits : byte_length line < max_line

scan-line :
    (line rest : Text)
    → IsLine line
    → scan (line ++ (b'\n' ∷ rest)) ≡ (line ∷ (scan rest).0, (scan rest).1)
unfolding scan scan_parts
scan-line line rest h =
    let fits : ltb (byte_length line) max_line ≡ true = ground (arith, h.fits) in
    rw (cut_lines-line line rest h.no_newline, fits, h.no_cr) refl

-- A line of an event stream: one with data, or any other.
pub data Item : Type 0 where
  payload : Text → Item
  other : Text → Item

abbrev pub line_of : Item → Text
line_of (payload s) = codes "data: " ++ s
line_of (other s) = s

-- The JSON of an event stands on its line, and is not the mark of the end.
abbrev pub IsItem : Item → Type 0
IsItem (payload s) =
    IsLine (codes "data: " ++ s)
    × (trim_space (b' ' ∷ s) ≡ s)
    × (is_empty s ≡ false)
    × (text_eq s (codes "[DONE]") ≡ false)
IsItem (other s) = IsLine s × (has_prefix s (codes "data:") ≡ false)

abbrev pub AllItems : List Item → Type 0
AllItems [] = Unit
AllItems (i ∷ is) = IsItem i × AllItems is

unfoldable pub event_stream : List Item → Text → Text
event_stream [] rest = rest
event_stream (i ∷ is) rest = line_of i ++ (b'\n' ∷ event_stream is rest)

abbrev pub text_of_choices : List ChatChoice → Text
text_of_choices [] = []
text_of_choices (choice ∷ choices) = choice.delta_content

abbrev pub text_of : Option ChatResponse → Text
text_of none = []
text_of (some r) = text_of_choices r.choices

-- The first choices' deltas, one behind the other.
unfoldable pub deltas : (Text → Option ChatResponse) → List Item → Text
deltas unmarshal [] = []
deltas unmarshal (payload s ∷ is) = text_of (unmarshal s) ++ deltas unmarshal is
deltas unmarshal (other s ∷ is) = deltas unmarshal is

IsItem-IsLine : (i : Item) → IsItem i → IsLine (line_of i)
IsItem-IsLine (payload s) h = h.0
IsItem-IsLine (other s) h = h.0

read_choices :
    (unmarshal : Text → Option ChatResponse) (line sofar : Text) (lines : List Text)
    (choices : List ChatChoice)
    → event_of unmarshal line ≡ delta_of_choices choices
    → read_events unmarshal (line ∷ lines) sofar
      ≡ read_events unmarshal lines (sofar ++ text_of_choices choices)
unfolding read_events
read_choices unmarshal line sofar lines [] e = rw (e, append-nil sofar) refl
read_choices unmarshal line sofar lines (choice ∷ choices) e = rw e refl

read_response_line :
    (unmarshal : Text → Option ChatResponse) (line sofar : Text) (lines : List Text)
    (r : Option ChatResponse)
    → event_of unmarshal line ≡ delta_of r
    → read_events unmarshal (line ∷ lines) sofar ≡ read_events unmarshal lines (sofar ++ text_of r)
read_response_line unmarshal line sofar lines none e = read_choices unmarshal line sofar lines [] e
read_response_line unmarshal line sofar lines (some r) e =
    read_choices unmarshal line sofar lines r.choices e

read_skipped :
    (unmarshal : Text → Option ChatResponse) (line sofar : Text) (lines : List Text)
    → event_of unmarshal line ≡ skipped
    → read_events unmarshal (line ∷ lines) sofar ≡ read_events unmarshal lines sofar
unfolding read_events
read_skipped unmarshal line sofar lines e = rw e refl

event_of-payload :
    (unmarshal : Text → Option ChatResponse) (s : Text)
    → IsItem (payload s)
    → event_of unmarshal (codes "data: " ++ s) ≡ delta_of (unmarshal s)
unfolding event_of has_prefix
event_of-payload unmarshal s (line, trimmed, full, going) = rw (trimmed, full, going) refl

read_events-stream :
    (unmarshal : Text → Option ChatResponse) (is : List Item) (rest sofar : Text)
    → AllItems is
    → read_events unmarshal (scan (event_stream is rest)).0 sofar
      ≡ read_events unmarshal (scan rest).0 (sofar ++ deltas unmarshal is)
unfolding event_stream deltas
read_events-stream unmarshal [] rest sofar h = rw (append-nil sofar) refl
read_events-stream unmarshal (payload s ∷ is) rest sofar (h, k) =
    let line = codes "data: " ++ s in
    let next = event_stream is rest in
    ap (λ r. read_events unmarshal r.0 sofar) (scan-line line next h.0)
    ∙ read_response_line unmarshal line sofar (scan next).0 (unmarshal s)
        (event_of-payload unmarshal s h)
    ∙ read_events-stream unmarshal is rest (sofar ++ text_of (unmarshal s)) k
    ∙ ap (read_events unmarshal (scan rest).0)
        (append_assoc sofar (text_of (unmarshal s)) (deltas unmarshal is))
read_events-stream unmarshal (other s ∷ is) rest sofar (h, k) =
    let next = event_stream is rest in
    let skips : event_of unmarshal s ≡ skipped = unfold event_of in rw h.1 refl in
    ap (λ r. read_events unmarshal r.0 sofar) (scan-line s next h.0)
    ∙ read_skipped unmarshal s sofar (scan next).0 skips
    ∙ read_events-stream unmarshal is rest sofar k

abbrev pub end_of_stream : Text
end_of_stream = codes "data: [DONE]"

end-IsLine : IsLine end_of_stream
unfolding drop_cr byte_length width
end-IsLine = record { no_newline = refl; no_cr = refl; fits = omega arith }

ends : (unmarshal : Text → Option ChatResponse) → event_of unmarshal end_of_stream ≡ done
unfolding event_of has_prefix text_eq trim_space trim_left trim_right is_space
ends unmarshal = refl

stream_lines :
    (rest : Text) → (scan (end_of_stream ++ (b'\n' ∷ rest))).0 ≡ end_of_stream ∷ (scan rest).0
stream_lines rest = ap (λ r. r.0) (scan-line end_of_stream rest end-IsLine)

read_events-done :
    (unmarshal : Text → Option ChatResponse) (is : List Item) (rest : Text)
    → AllItems is
    → read_events unmarshal (scan (event_stream is (end_of_stream ++ (b'\n' ∷ rest)))).0 []
      ≡ (deltas unmarshal is, true)
read_events-done unmarshal is rest h =
    read_events-stream unmarshal is (end_of_stream ++ (b'\n' ∷ rest)) [] h
    ∙ ap (λ ls. read_events unmarshal ls (deltas unmarshal is)) (stream_lines rest)
    ∙ unfold read_events in rw (ends unmarshal) refl

-- When a token is set, and the API answers the request that can be made with a 2xx status and an
-- event stream whose lines are data lines with trimmed JSON and any other lines, each of less than
-- 2^20 bytes and with no carriage return at its end, with the line of the end mark behind them, and
-- no read error by then, then `createChatCompletion` returns the contents of the first choices'
-- deltas, one behind the other, whatever comes behind that line: lines that are no data, JSON that
-- cannot be decoded and answers without choices add nothing.
pub create_chat_completion-stream :
    (api : Api) (env : Environment) (config : AppConfig) (messages : List Message)
    (token body rest : Text) (r : Response) (is : List Item)
    → get_token env ≡ configured token
    → api.marshal (chat_request config messages) ≡ some body
    → api.is_url (url_of config) ≡ true
    → api.send (http_request config token body) ≡ some r
    → (200 ≤ r.status_code) × (r.status_code < 300)
    → contains r.content_type (codes "text/event-stream") ≡ true
    → r.body ≡ event_stream is (end_of_stream ++ (b'\n' ∷ rest))
    → r.met_at_done ≡ false
    → AllItems is
    → create_chat_completion api env config messages ≡ reply (deltas api.unmarshal is)
unfolding create_chat_completion read_response read_stream
create_chat_completion-stream api env config messages token body rest r is et em eu es st ct eb ed
      h =
    let low : ltb r.status_code 200 ≡ false = ground (arith, st) in
    let high : ltb r.status_code 300 ≡ true = ground (arith, st) in
    let read = read_events-done api.unmarshal is rest h in
    rw (et, em, eu, es, low, high, ct, eb, read, ed) (ground arith)
