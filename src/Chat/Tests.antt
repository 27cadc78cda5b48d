-- ===== src/Chat/Tests.antt =====
-- The chat client with a concrete API.
use opengrab.Prelude.{
  ◌≡◌, refl, arith, true, false, List, [], ◌∷◌, ◌++◌, ◌<◌, Option, none, some, if◌then◌else◌,
}
use opengrab.Text.{
  Text, codes, cut_lines, text_eq, trim_space, trim_left, trim_right, is_space, has_prefix,
  contains, width, byte_length, has_rune,
}
use opengrab.EnvFile.{Environment, AppConfig, get_token}
use opengrab.Session.{Message, user}
use opengrab.Chat.{
  Api, ChatResponse, Response, reply, failed, scan_failed, drop_cr, scan, scan_parts, event_of,
  read_events, read_stream, read_response, create_chat_completion,
}
use opengrab.Chat.Stream.{
  Item, payload, other, event_stream, deltas, AllItems, end_of_stream,
  create_chat_completion-stream, IsLine,
}

abbrev with_delta : Text → ChatResponse
with_delta s = record {
  choices =
      record {
        message_content = [];
        delta_content = s;
        reasoning_content = [];
        finish_reason = none;
      }
      ∷ [];
}

-- `{h}` and `{i}` stand for two answers in JSON.
abbrev decoded : Text → Option ChatResponse
decoded s =
    if text_eq s (codes "{h}")
    then some (with_delta (codes "H"))
    else if text_eq s (codes "{i}")
    then some (with_delta (codes "i"))
    else none

abbrev items : List Item
items =
    payload (codes "{h}")
    ∷ other []
    ∷ other (codes ": ping")
    ∷ payload (codes "{?}")
    ∷ payload (codes "{i}")
    ∷ []

abbrev behind : Text
behind = codes "data: {h}"

abbrev streamed : Response
streamed = record {
  status_code = 200;
  status = codes "200 OK";
  content_type = codes "text/event-stream; charset=utf-8";
  body = event_stream items (end_of_stream ++ (b'\n' ∷ behind));
  read_error = true;
  met_at_done = false;
}

abbrev api_with : Response → Api
api_with r = record {
  marshal = λ request. some request.model;
  is_url = λ url. has_prefix url (codes "https://");
  send = λ request. if text_eq request.authorization (codes "Bearer t") then some r else none;
  unmarshal = decoded;
  decode = λ body failed. none;
}

abbrev env : Environment
env = λ key. if text_eq key (codes "ASCS_API_TOKEN") then codes " t " else []

abbrev config : AppConfig
config = record { api_base_url = codes "https://x"; model_name = codes "m" }

abbrev messages : List Message
messages = record { role = user; content = codes "hello" } ∷ []

-- A line whose closed parts compute.
IsLine-short :
    (s : Text) → has_rune s b'\n' ≡ false → drop_cr s ≡ s → byte_length s < 100 → IsLine s
IsLine-short s n c h = record { no_newline = n; no_cr = c; fits = omega (arith, h) }

items-AllItems : AllItems items
unfolding drop_cr byte_length width trim_space trim_left trim_right is_space text_eq has_prefix
items-AllItems =
    let mark = codes "data: " in
    (
      (IsLine-short (mark ++ codes "{h}") refl refl (omega arith), refl, refl, refl),
      (
        (IsLine-short [] refl refl (omega arith), refl),
        (
          (IsLine-short (codes ": ping") refl refl (omega arith), refl),
          (
            (IsLine-short (mark ++ codes "{?}") refl refl (omega arith), refl, refl, refl),
            ((IsLine-short (mark ++ codes "{i}") refl refl (omega arith), refl, refl, refl), tt),
          ),
        ),
      ),
    )

create_chat_completion-stream_example :
    create_chat_completion (api_with streamed) env config messages ≡ reply (codes "Hi")
unfolding get_token trim_space trim_left trim_right is_space text_eq has_prefix contains deltas
create_chat_completion-stream_example =
    create_chat_completion-stream (api_with streamed) env config messages (codes "t") (codes "m")
      behind streamed items refl refl refl refl (omega arith, omega arith) refl refl refl
      items-AllItems

replies : create_chat_completion (api_with streamed) env config messages ≡ reply (codes "Hi")
unfolding get_token trim_space trim_left trim_right is_space text_eq has_prefix contains
    create_chat_completion read_response read_stream scan scan_parts cut_lines drop_cr event_of
    read_events event_stream byte_length width
replies = refl

-- An error that is met before the end mark costs the whole reply.
loses_reply :
    create_chat_completion (api_with (record streamed { met_at_done = true })) env config messages
    ≡ failed scan_failed
unfolding get_token trim_space trim_left trim_right is_space text_eq has_prefix contains
    create_chat_completion read_response read_stream scan scan_parts cut_lines drop_cr event_of
    read_events event_stream byte_length width
loses_reply = refl
