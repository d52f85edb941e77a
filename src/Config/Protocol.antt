-- ===== src/Config/Protocol.antt =====
-- The protocol of a URL, by the TLS mode.
use advanced_wallets.Base.{
  String, ◌≡◌, refl, sym, ◌∙◌, Bool, true, false, none, some, ◌<>◌, if◌then◌else◌, str_eq, eq_iff,
  starts_with, Bool-cases, inl, inr,
}
use mathlib.Core.Path.{subst}
use text.Mathlib.TextPositions.{starts_with-append}
use advanced_wallets.Js.Texts.{after_scheme}
use advanced_wallets.Shared.Types.{TlsMode, is_mtls, disabled, mtls}

abbrev pub rest_of : String → String
rest_of url = elim (after_scheme url) [ none ↦ url | some rest ↦ rest ]

abbrev pub protocol_of : TlsMode → Bool → String
protocol_of mode is_bitgo = if is_bitgo then "https" else if is_mtls mode then "https" else "http"

unfoldable pub determine_protocol : String → TlsMode → Bool → String
determine_protocol url mode is_bitgo = protocol_of mode is_bitgo <> "://" <> rest_of url

prefixed : (p rest : String) → starts_with "" p ≡ false → str_eq (p <> rest) "" ≡ false
prefixed p rest h = elim (Bool-cases (str_eq (p <> rest) "")) [
  | inl empty ↦
      let e : (p <> rest) ≡ "" = (eq_iff _ _).0 empty in
      let clash : starts_with "" p ≡ true =
        subst (λ v. starts_with v p ≡ true) e (starts_with-append p rest) in
      let both : true ≡ false = sym clash ∙ h in cc
  | inr set ↦ set
]

-- A URL with a protocol is not empty.
pub determine_protocol-given :
    (url : String) (mode : TlsMode) (is_bitgo : Bool)
    → str_eq (determine_protocol url mode is_bitgo) "" ≡ false
unfolding determine_protocol
determine_protocol-given url disabled true = prefixed "https" ("://" <> rest_of url) refl
determine_protocol-given url disabled false = prefixed "http" ("://" <> rest_of url) refl
determine_protocol-given url mtls true = prefixed "https" ("://" <> rest_of url) refl
determine_protocol-given url mtls false = prefixed "https" ("://" <> rest_of url) refl
