-- ===== src/Tests/Replies.antt =====
-- Tests of the responses.
use advanced_wallets.Tests.Data.{world, config, kms}
use advanced_wallets.Tests.Wallets.{made_local}
use advanced_wallets.Base.{if◌then◌else◌, includes, [], ◌≡◌, refl, false}
use advanced_wallets.Js.{text, Value, num, str, end, ◌⨾◌, get}
use advanced_wallets.Exec.{exn_prop, run, Exn, ErrorClass, err}
use advanced_wallets.Shared.Types.{local, master_express, advanced_wallet_manager, user}
use advanced_wallets.Shared.HttpClient.{error_handler}
use advanced_wallets.Shared.Response.{response_handler, sent_status}
use advanced_wallets.Shared.Response.Statuses.{connection_codes, passed_on, http_failure_status}
use advanced_wallets.Awm.Recovery.External.{signing_error}
use advanced_wallets.Awm.Recovery.Failures.{refused_signature_status}
use advanced_wallets.Awm.Utils.{
  handlers_generate_data_key, handlers_decrypt_data_key, retrieve_key_provider_prv_key,
}
use advanced_wallets.Awm.Utils.Failures.{Opaque, status_and_message_response}

-- A refused request, as the HTTP client library throws it.
abbrev refused_request : Exn
refused_request = record {
  class = ErrorClass.response_error;
  own = ("name", str "Error") ⨾ ("message", str "Conflict") ⨾ ("status", num 409) ⨾ end;
}

its_status : get refused_request.own "status" ≡ num 409
unfolding get
its_status = refl

its_code : get refused_request.own "code" ≡ Value.undefined
unfolding get
its_code = refl

http_failure_status_example :
    sent_status
      (response_handler master_express false (err (error_handler "HttpClient" refused_request)))
    ≡ num (
        if includes connection_codes (text (exn_prop refused_request "code"))
        then 500
        else passed_on 409)
http_failure_status_example =
    http_failure_status master_express false "HttpClient" refused_request 409 its_status

status_and_message_response_example :
    Opaque advanced_wallet_manager false
      (run world (handlers_generate_data_key world "AES-256" (config local)) []).0
    × Opaque advanced_wallet_manager false
        (run world (handlers_decrypt_data_key world "data key" (config local)) []).0
    × Opaque advanced_wallet_manager false
        (run world (retrieve_key_provider_prv_key world "xpub" "user" (config local)) []).0
status_and_message_response_example =
    status_and_message_response advanced_wallet_manager false world (config local) "AES-256"
      "data key" "xpub" "user" kms [] made_local

refused_signature_status_example :
    sent_status (
      response_handler advanced_wallet_manager false
        (err (signing_error user (error_handler "KeyProviderClient" refused_request))))
    ≡ num 500
unfolding get
refused_signature_status_example =
    refused_signature_status advanced_wallet_manager false user "KeyProviderClient" refused_request
      refl
