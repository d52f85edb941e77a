-- ===== src/Shared/Errors.antt =====
-- src/shared/errors.ts: the error classes.
use advanced_wallets.Base.{String, Bool, true, false}
use advanced_wallets.Js.{Value, str, end, ◌⨾◌}
use advanced_wallets.Exec.{
  ErrorClass, validation, not_found, bad_request, unauthorized, forbidden, conflict,
  not_implemented, api_response, plain, Exn, make,
}

-- `new BitgoApiResponseError(message, status, result)`
unfoldable pub bitgo_api_response_error : String → Value → Value → Exn
bitgo_api_response_error message status result = record {
  class = api_response;
  own =
      ("name", str "ApiResponseError")
      ⨾ ("message", str message)
      ⨾ ("status", status)
      ⨾ ("result", result)
      ⨾ end;
}

abbrev pub validation_error : String → Exn
validation_error = make validation "ValidationError"

abbrev pub not_found_error : String → Exn
not_found_error = make not_found "NotFoundError"

abbrev pub bad_request_error : String → Exn
bad_request_error = make bad_request "BadRequestError"

abbrev pub unauthorized_error : String → Exn
unauthorized_error = make unauthorized "UnauthorizedError"

abbrev pub forbidden_error : String → Exn
forbidden_error = make forbidden "ForbiddenError"

abbrev pub conflict_error : String → Exn
conflict_error = make conflict "ConflictError"

abbrev pub not_implemented_error : String → Exn
not_implemented_error = make not_implemented "NotImplementedError"

-- `error instanceof BitgoExpressError`
abbrev pub is_bitgo_express_error : ErrorClass → Bool
is_bitgo_express_error validation = true
is_bitgo_express_error not_found = true
is_bitgo_express_error bad_request = true
is_bitgo_express_error unauthorized = true
is_bitgo_express_error forbidden = true
is_bitgo_express_error conflict = true
is_bitgo_express_error not_implemented = true
is_bitgo_express_error _ = false

-- `error instanceof Error`
abbrev pub is_error : ErrorClass → Bool
is_error plain = false
is_error _ = true
