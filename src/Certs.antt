-- ===== src/Certs.antt =====
-- pkg/certfile, which writes a certificate to a file, and pkg/opensslpaths, which asks OpenSSL for
-- the names of its variables. The encodings, and libcrypto.so, are parameters.
use httptap.Shared.{
  ℕ, ◌≡◌, ap, ◌∙◌, ◌⊎◌, inl, inr, Option, none, some, [], ◌∷◌, ◌++◌, Text, append_assoc, Error,
  wrap, Result, ok, err, Option-cases,
}
use httptap.System.{Trace, Os, M, answered, call_for, call, deferring, ◌>>◌}
use httptap.System.Files.{mode_perm}
use httptap.Packet.{Bytes}

pub data CertCall : Type 0 where
  create_file : Text → CertCall
  encode_pem : Text → Bytes → CertCall
  close_file : Text → CertCall
  store_file : Text → Bytes → ℕ → CertCall

module _ (os : Os CertCall) where
  unfoldable pub write_pem : Text → Bytes → M CertCall (Unit {0})
  write_pem path raw =
      call os (λ e. e) (create_file path)
      >> deferring os (close_file path) (call os (λ e. e) (encode_pem path raw))

  -- `store` is the result of EncodeTrustStore for the certificate.
  unfoldable pub write_pkcs12 : Text → Result Bytes → M CertCall (Unit {0})
  write_pkcs12 path (err e) tr =
      (tr, err (wrap "error encoding certificate authority in pkcs12 format" e))
  write_pkcs12 path (ok store) tr = call os (λ e. e) (store_file path store mode_perm) tr

  -- A file that WritePEM has created is closed, also where the encoding fails, and the error is
  -- that of the first call that fails; closing reports none.
  write_pem_cases :
      (path : Text) (raw : Bytes) (tr : Trace CertCall)
      → ((e : Error) × (write_pem path raw tr ≡ (tr ++ (create_file path, some e) ∷ [], err e)))
        ⊎ ((encoded closed : Option Error) × (write_pem path raw tr ≡ (
          tr
              ++ (create_file path, none)
                ∷ (encode_pem path raw, encoded)
                ∷ (close_file path, closed)
                ∷ [],
          answered (λ e. e) tt encoded,
        )))
  unfolding write_pem call call_for
  write_pem_cases path raw tr = elim (Option-cases (os tr (create_file path))) [
    | inr (e, h) ↦ inl (e, ap (after_create path raw tr) h)
    | inl h ↦
        let tr' = tr ++ (create_file path, none) ∷ [] in
        let encoded = os tr' (encode_pem path raw) in
        let closed = os (tr' ++ (encode_pem path raw, encoded) ∷ []) (close_file path) in
        inr (
          encoded,
          closed,
          ap (after_create path raw tr) h
              ∙ ap (λ (t : Trace CertCall). (t, answered (λ e. e) tt encoded))
                  (append_assoc tr' ((encode_pem path raw, encoded) ∷ [])
                      ((close_file path, closed) ∷ [])
                    ∙ append_assoc tr ((create_file path, none) ∷ []) _),
        )
  ]
    where
      after_create :
          Text → Bytes → Trace CertCall → Option Error → Trace CertCall × Result (Unit {0})
      after_create path raw tr o =
          let tr' = tr ++ (create_file path, o) ∷ [] in
          elim (answered (λ e. e) tt o) as (λ _. Trace CertCall × Result (Unit {0})) [
            | ok a ↦ deferring os (close_file path) (call os (λ e. e) (encode_pem path raw)) tr'
            | err e ↦ (tr', err e)
          ]

-- libcrypto.so, if it can be loaded: the functions that are registered from it.
pub record LibCrypto : Type 0 where
  pub x509_get_default_cert_dir : Text
  pub x509_get_default_cert_dir_env : Text
  pub x509_get_default_cert_file : Text
  pub x509_get_default_cert_file_env : Text

unfoldable pub default_cert_file : Option LibCrypto → Text
default_cert_file none = []
default_cert_file (some lib) = lib.x509_get_default_cert_file

unfoldable pub default_cert_file_env : Option LibCrypto → Text
default_cert_file_env none = []
default_cert_file_env (some lib) = lib.x509_get_default_cert_file_env

unfoldable pub default_cert_dir : Option LibCrypto → Text
default_cert_dir none = []
default_cert_dir (some lib) = lib.x509_get_default_cert_dir

unfoldable pub default_cert_dir_env : Option LibCrypto → Text
default_cert_dir_env none = []
default_cert_dir_env (some lib) = lib.x509_get_default_cert_dir_env
