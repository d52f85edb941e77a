-- ===== src/Shared/AppUtils.antt =====
-- src/shared/appUtils.ts: the client certificate of a request, the error handler of the
-- applications, and checks of configurations.
pub mod Mtls
use advanced_wallets.Base.{
  given, String, Bool, true, false, not, ◌&&◌, ◌||◌, Option, none, some, List, [], ◌∷◌, includes,
  str_eq, ◌<>◌, if◌then◌else◌,
}
use advanced_wallets.Js.{
  Value, undefined, num, str, obj, end, ◌⨾◌, entries, has, prop, truthy, is_nil, strict_eq,
  is_string, text, to_string,
}
use advanced_wallets.Js.Texts.{to_upper_case, without_colons}
use advanced_wallets.Exec.{
  Result, ok, err, Exec, pure, throw, throw_if, make, type_error, plain_error, dot, ◌>>=◌, ◌>>◌,
}
use advanced_wallets.Shared.Types.{TlsMode, is_mtls, MasterExpressConfig}

-- What the middleware goes by.
pub record MtlsConfig : Type 0 where
  pub tls_mode : TlsMode
  pub client_cert_allow_self_signed : Option Bool
  pub mtls_allowed_client_fingerprints : Option (List String)

-- `res.status(403).json(body)`, or `next()` with the certificate that was stored in the request
pub data Passage : Type 0 where
  refused : Value → Passage
  passed : Value → Passage

abbrev refusal : String → String → Passage
refusal message details = refused (
    obj (
      ("error", str "mTLS Authentication Failed")
      ⨾ ("message", str message)
      ⨾ ("details", str details)
      ⨾ end))

abbrev flagged : Option Bool → Bool
flagged none = false
flagged (some b) = b

abbrev pub allow_list : MtlsConfig → List String
allow_list cfg = elim cfg.mtls_allowed_client_fingerprints [ none ↦ [] | some list ↦ list ]

abbrev pub is_empty : List String → Bool
is_empty [] = true
is_empty (x ∷ xs) = false

-- A certificate is the object that `socket.getPeerCertificate()` answers. An object without a key
-- has no `subject`.
unfoldable pub has_valid_client_cert : Value → Bool
has_valid_client_cert cert = truthy cert && truthy (prop cert "subject")

-- `issuer.k === subject.k` for the three names
unfoldable pub same_names : Value → Value → Bool
same_names issuer subject =
    strict_eq (prop issuer "CN") (prop subject "CN")
    && strict_eq (prop issuer "O") (prop subject "O")
    && strict_eq (prop issuer "OU") (prop subject "OU")

-- `fingerprint256?.replace(/:/g, '').toUpperCase()`
unfoldable pub fingerprint_of : Value → Value
fingerprint_of (str s) = str (to_upper_case (without_colons s))
fingerprint_of _ = undefined

abbrev not_listed : Value → Passage
not_listed fingerprint =
    refusal "Client certificate fingerprint not authorized"
      ("Certificate fingerprint " <> to_string fingerprint <> " is not in the allowed list")

unfoldable pub check_fingerprint : List String → Value → Passage
unfolding fingerprint_of
check_fingerprint allowed cert =
    let fingerprint = fingerprint_of (prop cert "fingerprint256") in
    if is_empty allowed
    then passed cert
    else if not (truthy fingerprint) || not (includes allowed (text fingerprint))
    then not_listed fingerprint
    else passed cert

unfoldable pub check_client_cert : MtlsConfig → Value → Exec Passage
unfolding same_names check_fingerprint
check_client_cert cfg cert = do
  let issuer = prop cert "issuer"
  throw_if (is_nil issuer)
      (make type_error "TypeError" "Cannot read properties of undefined (reading 'CN')")
  pure (
      if not (flagged cfg.client_cert_allow_self_signed) && same_names issuer (prop cert "subject")
      then refusal "Self-signed certificates are not allowed"
          "Please use a certificate issued by a trusted CA, or set CLIENT_CERT_ALLOW_SELF_SIGNED=true for testing"
      else check_fingerprint (allow_list cfg) cert)

-- `createMtlsMiddleware`
unfoldable pub create_mtls_middleware : MtlsConfig → Value → Exec Passage
unfolding has_valid_client_cert check_client_cert
create_mtls_middleware cfg cert =
    if is_mtls cfg.tls_mode && not (has_valid_client_cert cert)
    then pure (
        refusal "Client certificate is required for this endpoint"
          "Please provide a valid client certificate in your request")
    else if not (has_valid_client_cert cert)
    then pure (passed undefined)
    else if is_mtls cfg.tls_mode && is_empty (allow_list cfg)
    then pure (
        refusal "No client certificate fingerprints configured"
          "MTLS_ALLOWED_CLIENT_FINGERPRINTS must be configured when mTLS mode is enabled")
    else check_client_cert cfg cert

-- `err && err.k ? err.k : otherwise`
abbrev field_or : Value → String → Value → Value
field_or error k otherwise =
    if truthy error && truthy (prop error k) then prop error k else otherwise

-- The status and the body of `createErrorHandler`, given NODE_ENV === 'development' and the version
-- of the package.
unfoldable pub create_error_handler : Bool → String → Value → Value × Value
create_error_handler development version error = (
  field_or error "status" (num 500),
  obj (
      ("error", field_or error "message" (str (to_string error)))
      ⨾ ("name", field_or error "name" (str "Error"))
      ⨾ ("code", field_or error "code" undefined)
      ⨾ ("details", field_or error "details" undefined)
      ⨾ ("result", field_or error "result" undefined)
      ⨾ ("stack", if development then field_or error "stack" undefined else undefined)
      ⨾ ("version", str version)
      ⨾ end),
)

-- `validateTlsCertificates`: the test is the same for the configurations of both applications.
unfoldable pub validate_tls_certificates : Option String → Option String → Result (Unit {0})
validate_tls_certificates server_tls_key server_tls_cert =
    if not (given server_tls_key) || not (given server_tls_cert)
    then err (plain_error "SERVER_TLS_KEY and SERVER_TLS_CERT are required when TLS mode is MTLS")
    else ok tt

unfoldable pub validate_master_express_config : MasterExpressConfig → Result (Unit {0})
validate_master_express_config cfg =
    if is_mtls cfg.tls_mode && not (given cfg.awm_server_ca_cert_path)
    then err (plain_error "AWM_SERVER_CA_CERT_PATH is required when TLS mode is MTLS")
    else if cfg.async_mode_config.enabled && str_eq cfg.async_mode_config.awm_async_url ""
    then err (plain_error "AWM_ASYNC_URL is required when ASYNC_MODE is true")
    else ok tt
