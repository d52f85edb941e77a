-- ===== src/Shared/Response/Statuses.antt =====
-- The status of a response against what src/shared/errors.ts documents, and against the status
-- that an HTTP client was answered with.
use advanced_wallets.Base.{
  ℕ, String, ◌≡◌, refl, ap, ◌≢◌, Bool, true, false, ◌||◌, List, [], ◌∷◌, ◌==◌, str_eq, includes,
  arith, if◌then◌else◌,
}
use advanced_wallets.Js.{Value, num, str, obj, end, ◌⨾◌, get, has, truthy, text}
use advanced_wallets.Exec.{
  ErrorClass, validation, not_found, bad_request, unauthorized, forbidden, conflict,
  not_implemented, Exn, err, make, exn_prop,
}
use advanced_wallets.Shared.Types.{AppMode}
use advanced_wallets.Shared.Errors.{is_bitgo_express_error}
use advanced_wallets.Shared.HttpClient.{error_handler}
use advanced_wallets.Shared.Response.{encoded, response_handler, sent_status, status_code}

-- The status that the comment on each class of errors.ts names.
abbrev pub documented_status : ErrorClass → ℕ
documented_status validation = 422
documented_status not_found = 404
documented_status bad_request = 400
documented_status unauthorized = 401
documented_status forbidden = 403
documented_status conflict = 409
documented_status not_implemented = 501
documented_status _ = 500

-- A thrown `BitgoExpressError`, of any class but `NotImplementedError`, is sent with the status
-- that its class documents, its name and its message, in both applications and in every
-- environment. Its name is not that of the other error class.
pub bitgo_express_error_response :
    (mode : AppMode) (development : Bool) (class : ErrorClass) (name message : String)
    → is_bitgo_express_error class ≡ true
    → class ≢ not_implemented
    → str_eq name "ApiResponseError" ≡ false
    → response_handler mode development (err (make class name message))
      ≡ encoded
          (num (documented_status class))
          (obj (("error", str name) ⨾ ("details", str message) ⨾ end))
unfolding response_handler get has truthy status_code
bitgo_express_error_response mode development class name message express implemented other =
    ground arith

-- What a client of the application sees for an HTTP status of the service behind it.
abbrev pub passed_on : ℕ → ℕ
passed_on n = if n == 400 || (n == 401 || (n == 404 || n == 409)) then n else 500

abbrev pub connection_codes : List String
connection_codes = "ECONNREFUSED" ∷ "ENOTFOUND" ∷ "ECONNRESET" ∷ "ETIMEDOUT" ∷ []

failure_by_code :
    (mode : AppMode) (development : Bool) (class_name : String) (e : Exn) (n : ℕ) (code : Value)
    → exn_prop e "status" ≡ num n
    → exn_prop e "code" ≡ code
    → sent_status (response_handler mode development (err (error_handler class_name e)))
      ≡ num (if includes connection_codes (text code) then 500 else passed_on n)
unfolding response_handler error_handler get has truthy status_code
failure_by_code mode development class_name e n (str s) status code = ground arith
failure_by_code mode development class_name e n _ status code =
    ground (arith, ap (λ v. includes connection_codes (text v)) code)

-- A failed HTTP request with a status, which the handler lets through as the HTTP client throws it,
-- is answered with the same status if that is 400, 401, 404 or 409, and with 500 otherwise; with
-- 500 too if the request failed by one of the four connection codes.
pub http_failure_status :
    (mode : AppMode) (development : Bool) (class_name : String) (e : Exn) (n : ℕ)
    → exn_prop e "status" ≡ num n
    → sent_status (response_handler mode development (err (error_handler class_name e)))
      ≡ num (if includes connection_codes (text (exn_prop e "code")) then 500 else passed_on n)
http_failure_status mode development class_name e n status =
    failure_by_code mode development class_name e n _ status refl
