-- ===== src/Tls.antt =====
-- src/tls.rs: the TLS acceptor out of two PEM files. The PEM reader and rustls are the parameter
-- `Rustls`; a path is its text.
pub mod Acceptor
use postgresql_trino_gateway.Prelude.{
  Option, none, some, List, [], ◌∷◌, ◌++◌, Result, ok, err, ◌>>=◌,
}
use postgresql_trino_gateway.Prelude.Text.{Text, codes}

-- An `anyhow::Error`: its message, and the error below it.
pub record TlsError : Type 0 where
  pub message : Text
  pub cause : Option Text

-- `pem_file_iter`, `from_pem_file`, `with_safe_default_protocol_versions` and `with_single_cert`.
pub record Rustls : Type 1 where
  pub Certificate : Type 0
  pub PrivateKey : Type 0
  pub Acceptor : Type 0
  pub pem_file_iter : Text → Result Text (List (Result Text Certificate))
  pub key_from_pem_file : Text → Result Text PrivateKey
  pub protocol_versions : Result Text (Unit {0})
  pub with_single_cert : List Certificate → PrivateKey → Result Text Acceptor

-- `with_context`.
abbrev pub with_context : {A : Type 0} → Result Text A → Text → Result TlsError A
with_context (ok a) message = ok a
with_context (err e) message = err (record { message = message; cause = some e })

-- `collect::<Result<Vec<_>, _>>()`: the first error, if there is one.
abbrev pub collect : {A : Type 0} → List (Result Text A) → Result Text (List A)
collect [] = ok []
collect (err e ∷ rest) = err e
collect (ok a ∷ rest) = collect rest >>= λ as'. ok (a ∷ as')

module _ (rustls : Rustls) where
  unfoldable pub load_certs : Text → Result TlsError (List rustls.Certificate)
  load_certs path = do
    items ← with_context (rustls.pem_file_iter path) (codes "opening TLS certificate file " ++ path)
    certs ← with_context (collect items) (codes "reading TLS certificate PEM " ++ path)
    (elim certs [
      | [] ↦ err (record { message = codes "no PEM certificates found in " ++ path; cause = none })
      | c ∷ cs ↦ ok (c ∷ cs)
    ])

  unfoldable pub load_key : Text → Result TlsError rustls.PrivateKey
  load_key path =
      with_context (rustls.key_from_pem_file path) (codes "reading TLS private key PEM " ++ path)

  unfoldable pub build_acceptor : Text → Text → Result TlsError rustls.Acceptor
  unfolding load_certs load_key
  build_acceptor cert_path key_path = do
    certs ← load_certs cert_path
    key ← load_key key_path
    versions ←
        with_context rustls.protocol_versions
          (codes "rustls: invalid protocol-version configuration")
    with_context (rustls.with_single_cert certs key) (
        codes "TLS keypair invalid (cert "
        ++ (cert_path ++ (codes ", key " ++ (key_path ++ codes ")"))))
