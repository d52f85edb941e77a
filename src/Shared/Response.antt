-- ===== src/Shared/Response.antt =====
-- src/shared/responseHandler.ts: the response that a route sends for what its handler returned or
-- threw.
pub mod Statuses
use advanced_wallets.Base.{
  ℕ, String, Bool, true, false, ◌&&◌, ◌||◌, Option, none, some, ◌<>◌, if◌then◌else◌,
}
use advanced_wallets.Js.{
  Value, undefined, num, str, obj, end, ◌⨾◌, get, has, truthy, prop, entries, is_text, is_number,
  to_string,
}
use advanced_wallets.Exec.{
  ErrorClass, validation, not_found, bad_request, unauthorized, forbidden, conflict, decode, Exn,
  Result, ok, err, exn_prop,
}
use advanced_wallets.Shared.Types.{AppMode, is_master_express}
use advanced_wallets.Shared.Errors.{is_bitgo_express_error, is_error}

-- `Response` of `@api-ts/response`: `{ type, payload }`.
pub record ApiResponse : Type 0 where
  pub type : Value
  pub payload : Value

-- What is sent: by `res.sendEncoded(status, body)`, or by `res.status(status).json(body)`.
pub data Sent : Type 0 where
  encoded : Value → Value → Sent
  json : Value → Value → Sent

service_name : AppMode → String
service_name mode = if is_master_express mode then "Advanced Wallet Manager" else "key provider"

-- The message of the `Error` that `checkApiServerRunning` throws, if it throws.
check_api_server_running : AppMode → Exn → Option String
unfolding service_name
check_api_server_running mode error =
    let code = exn_prop error "code" in
    if is_text code "ECONNREFUSED" || is_text code "ENOTFOUND" || is_text code "ECONNRESET"
    then some (
        service_name mode
        <> " API service is not running or unreachable. Please check if the service is available.")
    else if is_text code "ETIMEDOUT" || truthy (exn_prop error "timeout")
    then some (
        service_name mode
        <> " API request timed out. The service may be overloaded or unreachable.")
    else none

-- The chain of `instanceof` tests on a `BitgoExpressError`.
unfoldable pub status_code : ErrorClass → ℕ
status_code validation = 422
status_code not_found = 404
status_code bad_request = 400
status_code unauthorized = 401
status_code forbidden = 403
status_code conflict = 409
status_code _ = 500

abbrev is_decode : ErrorClass → Bool
is_decode decode = true
is_decode _ = false

connection_error_body : String → Value
connection_error_body details = obj (
    ("error", str "Internal Server Error")
    ⨾ ("name", str "ConnectionError")
    ⨾ ("details", str details)
    ⨾ end)

unfoldable pub default_body : Bool → Exn → Value
default_body development error =
    let is_err = is_error error.class in
    obj (
      ("error", str "Internal Server Error")
      ⨾ ("name", if is_err then exn_prop error "name" else str "Error")
      ⨾ ("details", if is_err then exn_prop error "message" else str (to_string (obj error.own)))
      ⨾ ("stack", if development && is_err then exn_prop error "stack" else undefined)
      ⨾ end)

decode_status : Exn → Value
decode_status error =
    let status = prop (exn_prop error "decodedResponse") "status" in
    if is_number status then status else num 500

-- The part of the `catch` block after the test for connection errors.
send_error : Bool → Exn → Sent
unfolding default_body decode_status
send_error development error =
    if has error.own "type" && has error.own "payload"
    then encoded (exn_prop error "type") (exn_prop error "payload")
    else if is_text (exn_prop error "name") "ApiResponseError"
    then json (exn_prop error "status")
        (obj (("error", str "BitGoApiResponseError") ⨾ ("details", exn_prop error "result") ⨾ end))
    else if is_bitgo_express_error error.class
    then encoded (num (status_code error.class))
        (obj (("error", exn_prop error "name") ⨾ ("details", exn_prop error "message") ⨾ end))
    else if is_decode error.class
    then encoded (decode_status error)
        (obj (entries (prop (exn_prop error "decodedResponse") "body")))
    else encoded (num 500) (default_body development error)

-- `development` is `process.env.NODE_ENV === 'development'`.
unfoldable pub response_handler : AppMode → Bool → Result ApiResponse → Sent
unfolding check_api_server_running send_error connection_error_body
response_handler mode development (ok result) = encoded result.type result.payload
response_handler mode development (err error) = elim (check_api_server_running mode error) [
  | some details ↦ encoded (num 500) (connection_error_body details)
  | none ↦ send_error development error
]

-- The route's wrapper, `Response.ok(result)`.
abbrev pub ok_response : Value → ApiResponse
ok_response result = record { type = num 200; payload = result }

-- A route of `createRouter`: it wraps what its handler returns.
abbrev pub route : AppMode → Bool → Result Value → Sent
route mode development (ok result) = response_handler mode development (ok (ok_response result))
route mode development (err error) = response_handler mode development (err error)

abbrev pub sent_status : Sent → Value
sent_status (encoded status body) = status
sent_status (json status body) = status

abbrev pub sent_body : Sent → Value
sent_body (encoded status body) = body
sent_body (json status body) = body
