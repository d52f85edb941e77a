-- ===== src/Awm/Recovery/Failures.antt =====
-- The status that a failed external signature of a recovery is answered with.
use advanced_wallets.Base.{String, ◌≡◌, Bool, false, includes, arith}
use advanced_wallets.Js.{num, get, has, truthy, text}
use advanced_wallets.Exec.{Exn, err, exn_prop}
use advanced_wallets.Shared.Types.{KeySource, AppMode}
use advanced_wallets.Shared.Errors.{bitgo_api_response_error}
use advanced_wallets.Shared.HttpClient.{error_handler}
use advanced_wallets.Shared.Response.{response_handler, sent_status}
use advanced_wallets.Shared.Response.Statuses.{connection_codes}
use advanced_wallets.Awm.Recovery.External.{signing_error}

-- When the key provider refuses to sign a recovery, with whatever HTTP status, the client of the
-- manager is answered 500: the errors that the HTTP client throws in place of a response carry no
-- status for `signingError` to keep. (Not so only for the four connection codes.)
pub refused_signature_status :
    (mode : AppMode) (development : Bool) (source : KeySource) (class_name : String) (e : Exn)
    → includes connection_codes (text (exn_prop e "code")) ≡ false
    → sent_status (
        response_handler mode development (err (signing_error source (error_handler class_name e))))
      ≡ num 500
unfolding response_handler signing_error error_handler bitgo_api_response_error get has truthy
refused_signature_status mode development source class_name e other = ground arith
