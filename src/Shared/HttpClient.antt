-- ===== src/Shared/HttpClient.antt =====
-- src/shared/httpClient.ts: the HTTP client that the clients of both applications extend.
use Prim.Native.Char.{code}
use Prim.Native.String as Str
use advanced_wallets.Base.{ℕ, String, Option, [], ◌∷◌, ◌==◌, ◌<>◌, includes, if◌then◌else◌}
use advanced_wallets.Js.{Value, undefined, obj, Fields, end, truthy, prop, is_num, text, to_string}
use advanced_wallets.Exec.{
  Exn, Exec, Request, Agent, http, throw, catch, perform, plain_error, exn_prop, message_text,
}
use advanced_wallets.Shared.Errors.{
  bad_request_error, unauthorized_error, not_found_error, conflict_error,
}

pub record HttpClient : Type 0 where
  pub class_name : String
  pub url : String
  pub timeout : ℕ
  pub agent : Option Agent

-- `url.replace(/\/$/, '')`
unfoldable pub strip_slash : String → String
strip_slash Str.[] = ""
strip_slash (Str.◌∷◌ c Str.[]) = if code c == b'/' then "" else Str.◌∷◌ c ""
strip_slash (Str.◌∷◌ c (Str.◌∷◌ d s)) = Str.◌∷◌ c (strip_slash (Str.◌∷◌ d s))

-- `super(url, timeout, agent)` in the constructor of a class
unfoldable pub new_http_client : String → String → ℕ → Option Agent → HttpClient
unfolding strip_slash
new_http_client class_name url timeout agent = record {
  class_name = class_name;
  url = strip_slash url;
  timeout = timeout;
  agent = agent;
}

-- `error.response?.body.message`
abbrev pub response_message : Exn → Value
response_message error = prop (prop (exn_prop error "response") "body") "message"

unexpected : String → Exn → Exn
unexpected class_name error =
    let status = exn_prop error "status" in
    let message = response_message error in
    plain_error (
      class_name
      <> " returned unexpected response"
      <> (if truthy status then " [" <> to_string status <> "]" else "")
      <> (if truthy message then ": " <> to_string message else ""))

-- What `errorHandler` throws.
unfoldable pub error_handler : String → Exn → Exn
unfolding unexpected
error_handler class_name error =
    let status = exn_prop error "status" in
    let message = message_text (response_message error) in
    if includes ("ECONNREFUSED" ∷ "ENOTFOUND" ∷ "ECONNRESET" ∷ "ETIMEDOUT" ∷ [])
      (text (exn_prop error "code"))
    then error
    else if is_num status 400
    then bad_request_error message
    else if is_num status 401
    then unauthorized_error message
    else if is_num status 404
    then not_found_error message
    else if is_num status 409
    then conflict_error message
    else unexpected class_name error

-- `call(method, url, options)`: a `get` has a query, a `post` a body, a `patch` both.
unfoldable pub request : HttpClient → String → String → Value → Value → Fields → Request
request client method url query body headers = record {
  method = method;
  url = url;
  query = query;
  body = body;
  headers = headers;
  timeout = client.timeout;
  agent = client.agent;
}

unfoldable pub call : HttpClient → Request → Exec Value
call client r = catch (perform (http r)) λ e. throw (error_handler client.class_name e)

unfoldable pub get_call : HttpClient → String → Value → Exec Value
unfolding call request
get_call client url query = call client (request client "get" url query undefined end)

unfoldable pub post_call : HttpClient → String → Value → Fields → Exec Value
unfolding call request
post_call client url body headers = call client (request client "post" url undefined body headers)

unfoldable pub patch_call : HttpClient → String → Value → Exec Value
unfolding call request
patch_call client url body = call client (request client "patch" url (obj end) body end)
