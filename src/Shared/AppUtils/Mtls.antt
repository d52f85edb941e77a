-- ===== src/Shared/AppUtils/Mtls.antt =====
-- Which client certificates the middleware lets pass.
use advanced_wallets.Base.{
  String, ◌≡◌, refl, sym, ◌∙◌, ◌↔◌, ◌≢◌, ◌⊎◌, inl, inr, true, false, ◌&&◌, List, [], ◌∷◌, includes,
  arith,
}
use advanced_wallets.Js.{Value, str, prop, truthy, is_nil, strict_eq, text}
use advanced_wallets.Js.Texts.{has_colon, normalised-ne, to_upper_case, without_colons}
use advanced_wallets.Exec.{pure}
use advanced_wallets.Shared.Types.{is_mtls}
use advanced_wallets.Shared.AppUtils.{
  MtlsConfig, passed, flagged, allow_list, has_valid_client_cert, same_names, fingerprint_of,
  check_fingerprint, check_client_cert, create_mtls_middleware,
}

-- A certificate that the documentation of mTLS admits: it names its subject and its issuer, is
-- signed by another party where self-signed certificates are not allowed (the two differ in their
-- common name, their organization or their unit), and its fingerprint stands in the allow list.
pub record Admitted (cfg : MtlsConfig) (cert : Value) : Type 0 where
  pub present : truthy cert ≡ true
  pub named : truthy (prop cert "subject") ≡ true
  pub issued : is_nil (prop cert "issuer") ≡ false
  pub trusted :
      (flagged cfg.client_cert_allow_self_signed ≡ true)
      ⊎ (strict_eq (prop (prop cert "issuer") "CN") (prop (prop cert "subject") "CN")
            && strict_eq (prop (prop cert "issuer") "O") (prop (prop cert "subject") "O")
            && strict_eq (prop (prop cert "issuer") "OU") (prop (prop cert "subject") "OU")
          ≡ false)
  pub marked : truthy (fingerprint_of (prop cert "fingerprint256")) ≡ true
  pub listed : includes (allow_list cfg) (text (fingerprint_of (prop cert "fingerprint256"))) ≡ true

-- Under mTLS the middleware calls the next handler, with the certificate stored in the request, if
-- and only if the certificate is admitted.
pub mtls_admits :
    (cfg : MtlsConfig) (cert : Value)
    → is_mtls cfg.tls_mode ≡ true
    → (create_mtls_middleware cfg cert ≡ pure (passed cert)) ↔ Admitted cfg cert
unfolding create_mtls_middleware has_valid_client_cert check_client_cert check_fingerprint
    same_names
mtls_admits cfg cert mtls = ((λ h. ground arith), λ a. ground arith)

-- Every entry has a colon in it, as the output of `openssl x509 -fingerprint` has.
abbrev pub WithColons : List String → Type 0
WithColons [] = Unit
WithColons (entry ∷ entries) = (has_colon entry ≡ true) × WithColons entries

not_included :
    (entries : List String) (s : String)
    → WithColons entries
    → includes entries (to_upper_case (without_colons s)) ≡ false
not_included [] s h = refl
not_included (entry ∷ entries) s (h, hs) =
    ground (arith, normalised-ne entry s h, not_included entries s hs)

unlisted :
    (entries : List String) (fingerprint : Value)
    → WithColons entries
    → (truthy (fingerprint_of fingerprint) ≡ false)
      ⊎ (includes entries (text (fingerprint_of fingerprint)) ≡ false)
unfolding fingerprint_of truthy
unlisted entries (str s) h = inr (not_included entries s h)
unlisted entries _ h = inl refl

-- With an allow list in the format that the README gives, fingerprints with colons, no client
-- certificate at all is let through under mTLS: the code takes the colons out of the certificate's
-- fingerprint but not out of the entries of the list.
pub colon_fingerprints_refused :
    (cfg : MtlsConfig) (cert : Value)
    → is_mtls cfg.tls_mode ≡ true
    → WithColons (allow_list cfg)
    → create_mtls_middleware cfg cert ≢ pure (passed cert)
colon_fingerprints_refused cfg cert mtls colons admitted =
    let a : Admitted cfg cert = (mtls_admits cfg cert mtls).0 admitted in
    elim (unlisted (allow_list cfg) (prop cert "fingerprint256") colons) [
      | inl unmarked ↦ let clash : true ≡ false = sym a.marked ∙ unmarked in cc
      | inr missing ↦ let clash : true ≡ false = sym a.listed ∙ missing in cc
    ]
