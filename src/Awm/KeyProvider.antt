-- ===== src/Awm/KeyProvider.antt =====
-- src/advancedWalletManager/keyProviderClient: the client of the key provider.
pub mod Calls
use advanced_wallets.Base.{
  given, String, Bool, false, not, ◌&&◌, ◌||◌, Option, none, some, str_eq, ◌<>◌, if◌then◌else◌,
}
use advanced_wallets.Js.{Value, str, obj, end, ◌⨾◌, truthy, prop, is_string, is_record, is_text}
use advanced_wallets.Exec.{
  Exn, Result, ok, err, World, Exec, Agent, pure, throw, plain_error, ◌>>=◌,
}
use advanced_wallets.Shared.Types.{is_mtls, is_master_express, AdvancedWalletManagerConfig}
use advanced_wallets.Shared.HttpClient.{HttpClient, new_http_client, get_call, post_call}

-- An optional flag that is set and true.
abbrev pub flagged : Option Bool → Bool
flagged none = false
flagged (some b) = b

agent_of : AdvancedWalletManagerConfig → Option Agent
agent_of cfg =
    if given cfg.key_provider_server_ca_cert
      || flagged cfg.key_provider_server_cert_allow_self_signed
    then some (record {
      ca = cfg.key_provider_server_ca_cert;
      cert = cfg.key_provider_client_tls_cert;
      key = cfg.key_provider_client_tls_key;
      reject_unauthorized = not (flagged cfg.key_provider_server_cert_allow_self_signed);
    })
    else none

abbrev url_missing : Exn
url_missing =
    plain_error "key provider URL not configured. Please set KEY_PROVIDER_URL in your environment."

abbrev wrong_mode : Exn
wrong_mode = plain_error "Configuration is not in advanced wallet manager mode"

module _ (w : World) where
  connect : AdvancedWalletManagerConfig → String → Option Agent → Result HttpClient
  connect cfg protocol agent = elim (w.with_protocol cfg.key_provider_url protocol) [
    | ok url ↦ ok (new_http_client "KeyProviderClient" url cfg.timeout agent)
    | err e ↦ err e
  ]

  -- the constructor
  unfoldable pub new_key_provider : AdvancedWalletManagerConfig → Result HttpClient
  unfolding connect agent_of new_http_client
  new_key_provider cfg =
      if is_master_express cfg.app_mode
      then err wrong_mode
      else if str_eq cfg.key_provider_url ""
      then err url_missing
      else if is_mtls cfg.tls_mode
      then connect cfg "https:" (agent_of cfg)
      else connect cfg "http:" none

abbrev is_source : Value → Bool
is_source v = is_text v "user" || is_text v "backup"

abbrev is_key_type : Value → Bool
is_key_type v = is_text v "independent" || is_text v "tss"

-- The Zod schemas of the responses.
unfoldable pub post_key_response_schema : Value → Bool
post_key_response_schema v =
    is_record v
    && is_string (prop v "pub")
    && is_string (prop v "coin")
    && is_source (prop v "source")
    && is_key_type (prop v "type")

unfoldable pub get_key_response_schema : Value → Bool
get_key_response_schema v =
    is_record v
    && is_string (prop v "pub")
    && is_string (prop v "prv")
    && is_source (prop v "source")
    && is_key_type (prop v "type")

unfoldable pub generate_key_response_schema : Value → Bool
generate_key_response_schema v =
    is_record v
    && is_string (prop v "coin")
    && is_source (prop v "source")
    && is_key_type (prop v "type")
    && is_string (prop v "pub")

unfoldable pub sign_response_schema : Value → Bool
sign_response_schema v =
    is_record v && is_string (prop v "signature") && truthy (prop v "signature")

unfoldable pub generate_data_key_response_schema : Value → Bool
generate_data_key_response_schema v =
    is_record v && is_string (prop v "plaintextKey") && is_string (prop v "encryptedKey")

unfoldable pub decrypt_data_key_response_schema : Value → Bool
decrypt_data_key_response_schema v = is_record v && is_string (prop v "plaintextKey")

module _ (w : World) where
  unexpected_response : String → Value → Exn
  unexpected_response doing body =
      let message = w.zod_message doing body in
      plain_error (
        "key provider returned unexpected response when "
        <> doing
        <> (if str_eq message "" then "" else ": " <> message))

  -- `try { Schema.parse(response.body); } catch (error) { throw … }`
  parse_body : (Value → Bool) → String → Value → Exec Value
  unfolding unexpected_response
  parse_body schema doing response =
      let body = prop response "body" in
      if schema body then pure body else throw (unexpected_response doing body)

  unfoldable pub post_key : HttpClient → Value → Exec Value
  unfolding parse_body post_key_response_schema
  post_key client params = do
    response ← post_call client (client.url <> "/key") params end
    body ← parse_body post_key_response_schema "posting key" response
    pure (
        obj (
          ("pub", prop body "pub")
          ⨾ ("coin", prop body "coin")
          ⨾ ("source", prop body "source")
          ⨾ ("type", prop body "type")
          ⨾ end))

  unfoldable pub get_key : HttpClient → String → String → Exec Value
  unfolding parse_body get_key_response_schema
  get_key client pub_key source = do
    response ←
        get_call client (client.url <> "/key/" <> pub_key) (obj (("source", str source) ⨾ end))
    parse_body get_key_response_schema "getting key" response

  unfoldable pub generate_key : HttpClient → Value → Exec Value
  unfolding parse_body generate_key_response_schema
  generate_key client params = do
    response ← post_call client (client.url <> "/key/generate") params end
    parse_body generate_key_response_schema "generating key" response

  unfoldable pub sign : HttpClient → Value → Exec Value
  unfolding parse_body sign_response_schema
  sign client params = do
    response ← post_call client (client.url <> "/sign") params end
    parse_body sign_response_schema "signing" response

  unfoldable pub generate_data_key : HttpClient → Value → Exec Value
  unfolding parse_body generate_data_key_response_schema
  generate_data_key client params = do
    response ← post_call client (client.url <> "/generateDataKey") params end
    body ← parse_body generate_data_key_response_schema "generating data key" response
    pure (
        obj (
          ("plaintextKey", prop body "plaintextKey")
          ⨾ ("encryptedKey", prop body "encryptedKey")
          ⨾ end))

  unfoldable pub decrypt_data_key : HttpClient → Value → Exec Value
  unfolding parse_body decrypt_data_key_response_schema
  decrypt_data_key client params = do
    response ← post_call client (client.url <> "/decryptDataKey") params end
    parse_body decrypt_data_key_response_schema "decrypting data key" response
