-- ===== src/Chat.antt =====
-- chat.go: `createChatCompletion`. JSON and HTTP are parameters; a body comes whole, with whether an
-- error ends it.
pub mod Stream
pub mod Outcomes
mod Tests
use opengrab.Prelude.{
  ℕ, Bool, true, false, not, ◌&&◌, ◌||◌, List, [], ◌∷◌, ◌++◌, Option, none, some, ltb, ◌==◌, drop,
  if◌then◌else◌,
}
use opengrab.Text.{
  Text, codes, cut_lines, is_empty, text_eq, trim_space, has_prefix, contains, byte_length,
  take_bytes,
}
use opengrab.EnvFile.{
  Environment, AppConfig, ConfigError, Configured, configured, not_set, get_token,
}
use opengrab.Session.{Message}

-- `ChatRequest`; the temperature in tenths.
pub record ChatRequest : Type 0 where
  pub model : Text
  pub messages : List Message
  pub stream : Bool
  pub temperature_tenths : ℕ
  pub max_tokens : ℕ

-- `ChatChoice`
pub record ChatChoice : Type 0 where
  pub message_content : Text
  pub delta_content : Text
  pub reasoning_content : Text
  pub finish_reason : Option Text

-- `ChatResponse`
pub record ChatResponse : Type 0 where
  pub choices : List ChatChoice

-- `http.NewRequestWithContext` and the headers that are set.
pub record HttpRequest : Type 0 where
  pub method : Text
  pub url : Text
  pub content_type : Text
  pub authorization : Text
  pub body : Text

-- `http.Response`. The body is what can be read, and `read_error` says whether an error comes behind
-- it; `met_at_done` says whether that had been met when the line of the end mark was read.
pub record Response : Type 0 where
  pub status_code : ℕ
  pub status : Text
  pub content_type : Text
  pub body : Text
  pub read_error : Bool
  pub met_at_done : Bool

-- `json.Marshal`, `http.NewRequestWithContext` by the URL, `client.Do`, `json.Unmarshal`, and
-- `Decode` of a body with whether it ends in an error.
pub record Api : Type 0 where
  pub marshal : ChatRequest → Option Text
  pub is_url : Text → Bool
  pub send : HttpRequest → Option Response
  pub unmarshal : Text → Option ChatResponse
  pub decode : Text → Bool → Option ChatResponse

pub data ChatError : Type 0 where
  unconfigured : ConfigError → ChatError
  marshal_failed request_failed send_failed : ChatError
  bad_status : Text → Text → ChatError
  decode_failed no_choices scan_failed : ChatError

pub data ChatResult : Type 0 where
  reply : Text → ChatResult
  failed : ChatError → ChatResult

unfoldable pub drop_cr : Text → Text
drop_cr [] = []
drop_cr (c ∷ []) = if c == b'\r' then [] else c ∷ []
drop_cr (c ∷ d ∷ s) = c ∷ drop_cr (d ∷ s)

-- What `bufio.Scanner` yields with a buffer of `max` bytes, and whether every line fits.
unfoldable pub scan_parts : ℕ → Text → List Text → List Text × Bool
scan_parts max first (second ∷ others) =
    let (lines, fits) = scan_parts max second others in
    if ltb (byte_length first) max then (drop_cr first ∷ lines, fits) else ([], false)
scan_parts max first [] =
    if is_empty first
    then ([], true)
    else if ltb (byte_length first) max
    then (drop_cr first ∷ [], true)
    else ([], false)

abbrev pub max_line : ℕ
max_line = 1048576

unfoldable pub scan : Text → List Text × Bool
scan body = let (first, others) = cut_lines body in scan_parts max_line first others

-- What a round of the loop over the lines does: it goes on, breaks, or writes to the reply.
pub data Event : Type 0 where
  skipped done : Event
  delta : Text → Event

abbrev pub delta_of_choices : List ChatChoice → Event
delta_of_choices [] = skipped
delta_of_choices (choice ∷ choices) = delta choice.delta_content

abbrev pub delta_of : Option ChatResponse → Event
delta_of none = skipped
delta_of (some r) = delta_of_choices r.choices

abbrev pub event_of_data : (Text → Option ChatResponse) → Text → Event
event_of_data unmarshal s =
    if is_empty s
    then skipped
    else if text_eq s (codes "[DONE]")
    then done
    else delta_of (unmarshal s)

unfoldable pub event_of : (Text → Option ChatResponse) → Text → Event
event_of unmarshal line =
    if not (has_prefix line (codes "data:"))
    then skipped
    else event_of_data unmarshal (trim_space (drop 5 line))

-- A round of the loop, with the reply so far and the rounds behind it.
abbrev pub on_event : Event → (Text → Text × Bool) → Text → Text × Bool
on_event skipped next sofar = next sofar
on_event done next sofar = (sofar, true)
on_event (delta content) next sofar = next (sofar ++ content)

-- The loop over the lines: the reply, and whether the end mark broke it.
unfoldable pub read_events : (Text → Option ChatResponse) → List Text → Text → Text × Bool
read_events unmarshal [] sofar = (sofar, false)
read_events unmarshal (line ∷ lines) sofar =
    on_event (event_of unmarshal line) (read_events unmarshal lines) sofar

abbrev pub reply_unless : Bool → ChatError → Text → ChatResult
reply_unless bad e s = if bad then failed e else reply s

-- The reading of an event stream.
unfoldable pub read_stream : (Text → Option ChatResponse) → Response → ChatResult
read_stream unmarshal r =
    let (lines, fits) = scan r.body in
    let (s, is_done) = read_events unmarshal lines [] in
    reply_unless (if is_done then r.read_error && r.met_at_done else not fits || r.read_error)
      scan_failed s

abbrev pub reply_of_choices : List ChatChoice → ChatResult
reply_of_choices [] = failed no_choices
reply_of_choices (choice ∷ choices) = reply choice.message_content

abbrev pub reply_of_decoded : Option ChatResponse → ChatResult
reply_of_decoded none = failed decode_failed
reply_of_decoded (some r) = reply_of_choices r.choices

-- Behind `client.Do`.
unfoldable pub read_response : Api → Option Response → ChatResult
read_response api none = failed send_failed
read_response api (some r) =
    if ltb r.status_code 200 || not (ltb r.status_code 300)
    then failed (bad_status r.status (trim_space (take_bytes 4096 r.body)))
    else if not (contains r.content_type (codes "text/event-stream"))
    then reply_of_decoded (api.decode r.body r.read_error)
    else read_stream api.unmarshal r

abbrev pub chat_request : AppConfig → List Message → ChatRequest
chat_request config messages = record {
  model = config.model_name;
  messages = messages;
  stream = true;
  temperature_tenths = 7;
  max_tokens = 20480;
}

abbrev pub url_of : AppConfig → Text
url_of config = config.api_base_url ++ codes "/chat/completions"

abbrev pub http_request : AppConfig → Text → Text → HttpRequest
http_request config token body = record {
  method = codes "POST";
  url = url_of config;
  content_type = codes "application/json";
  authorization = codes "Bearer " ++ token;
  body = body;
}

abbrev pub send_body : Api → AppConfig → Text → Option Text → ChatResult
send_body api config token none = failed marshal_failed
send_body api config token (some body) =
    if api.is_url (url_of config)
    then read_response api (api.send (http_request config token body))
    else failed request_failed

abbrev pub with_token : Api → AppConfig → List Message → Configured Text → ChatResult
with_token api config messages (not_set e) = failed (unconfigured e)
with_token api config messages (configured token) =
    send_body api config token (api.marshal (chat_request config messages))

-- `createChatCompletion`
unfoldable pub create_chat_completion : Api → Environment → AppConfig → List Message → ChatResult
create_chat_completion api env config messages = with_token api config messages (get_token env)
