-- ===== src/Chat/Outcomes.antt =====
-- `createChatCompletion`: when it returns a reply.
use opengrab.Prelude.{
  ◌≡◌, ◌<◌, ◌≤◌, List, Option, none, some, refl, sym, ap, ◌∙◌, arith, if◌then◌else◌, Bool-cases,
  inl, inr,
}
use opengrab.Text.{Text}
use opengrab.EnvFile.{Environment, AppConfig, Configured, configured, not_set, get_token}
use opengrab.Session.{Message}
use opengrab.Chat.{
  Api, Response, reply, failed, request_failed, read_response, create_chat_completion, send_body,
  with_token, chat_request, http_request, url_of,
}

-- The request that was sent, and its answer.
pub record Exchange (api : Api) (env : Environment) (config : AppConfig) (messages : List Message)
    : Type 0 where
  pub token : Text
  pub body : Text
  pub response : Response
  pub token_set : get_token env ≡ configured token
  pub marshalled : api.marshal (chat_request config messages) ≡ some body
  pub answered : api.send (http_request config token body) ≡ some response
  pub good_status : (200 ≤ response.status_code) × (response.status_code < 300)

module _ (api : Api) (env : Environment) (config : AppConfig) (messages : List Message) where
  answered_cases :
      (token body : Text) (answer : Option Response) (s : Text)
      → get_token env ≡ configured token
      → api.marshal (chat_request config messages) ≡ some body
      → api.send (http_request config token body) ≡ answer
      → read_response api answer ≡ reply s
      → Exchange api env config messages
  unfolding read_response
  answered_cases token body none s et em es h = absurd (cc)
  answered_cases token body (some r) s et em es h = record {
    token = token;
    body = body;
    response = r;
    token_set = et;
    marshalled = em;
    answered = es;
    good_status = ground arith;
  }

  sent_cases :
      (token : Text) (body : Option Text) (s : Text)
      → get_token env ≡ configured token
      → api.marshal (chat_request config messages) ≡ body
      → send_body api config token body ≡ reply s
      → Exchange api env config messages
  sent_cases token none s et em h = absurd (cc)
  sent_cases token (some body) s et em h = elim (Bool-cases (api.is_url (url_of config))) [
    | inl good ↦
        let answer = api.send (http_request config token body) in
        answered_cases token body answer s et em refl
          (sym (ap (λ b. if b then read_response api answer else failed request_failed) good) ∙ h)
    | inr bad ↦ absurd (cc)
  ]

  token_cases :
      (token : Configured Text) (s : Text)
      → get_token env ≡ token
      → with_token api config messages token ≡ reply s
      → Exchange api env config messages
  token_cases (not_set e) s et h = absurd (cc)
  token_cases (configured token) s et h =
      sent_cases token (api.marshal (chat_request config messages)) s et refl h

-- `createChatCompletion` returns a reply only behind an exchange: a token is set, the request was
-- sent with the messages in its body and the token in its header, and its answer has a 2xx status.
pub create_chat_completion-Exchange :
    (api : Api) (env : Environment) (config : AppConfig) (messages : List Message) (s : Text)
    → create_chat_completion api env config messages ≡ reply s
    → Exchange api env config messages
unfolding create_chat_completion
create_chat_completion-Exchange api env config messages s h =
    token_cases api env config messages (get_token env) s refl h
