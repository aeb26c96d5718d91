-- ===== src/Tls/Acceptor.antt =====
-- When src/tls.rs builds an acceptor.
use postgresql_trino_gateway.Prelude.{
  ◌≡◌, ◌≢◌, refl, inl, inr, ap, ◌∙◌, List, [], ◌∷◌, map, arith, Result, ok, err, Result-cases,
}
use postgresql_trino_gateway.Prelude.Text.{Text}
use postgresql_trino_gateway.Tls.{
  Rustls, with_context, collect, load_certs, load_key, build_acceptor,
}

-- A collection that succeeds has an `ok` at each place.
collect-eq_ok :
    {A : Type 0} (items : List (Result Text A)) (all : List A)
    → collect items ≡ ok all
    → items ≡ map ok all
collect-eq_ok {A} [] all h = let e : all ≡ [] = cc in rw e refl
collect-eq_ok (err e ∷ rest) all h = absurd (ground arith)
collect-eq_ok {A} (ok a ∷ rest) all h = elim (Result-cases (collect rest)) [
  | inr (e, f) ↦ absurd (ground arith)
  | inl (bs, f) ↦
      let e : all ≡ a ∷ bs = ground arith in
      rw e (ap (λ (t : List (Result Text A)). ok a ∷ t) (collect-eq_ok rest bs f))
]

with_context-eq_ok :
    {A : Type 0} (r : Result Text A) (message : Text) {a : A}
    → with_context r message ≡ ok a
    → r ≡ ok a
with_context-eq_ok (ok b) message h = cc
with_context-eq_ok (err e) message h = absurd (ground arith)

module _ (rustls : Rustls) where
  open rustls use {Certificate, PrivateKey, Acceptor, pem_file_iter, key_from_pem_file}

  -- The file holds these certificates and nothing that does not parse.
  abbrev pub HasCertificates : Text → List Certificate → Type 0
  HasCertificates path certs = (pem_file_iter path ≡ ok (map ok certs)) × (certs ≢ [])

  load_certs-HasCertificates :
      (path : Text) (certs : List Certificate)
      → load_certs rustls path ≡ ok certs
      → HasCertificates path certs
  unfolding load_certs
  load_certs-HasCertificates path certs h = elim (Result-cases (pem_file_iter path)) [
    | inr (e, f) ↦ absurd (ground arith)
    | inl (items, f) ↦ elim (Result-cases (collect items)) [
      | inr (e, g) ↦ absurd (ground arith)
      | inl ([], g) ↦ absurd (ground arith)
      | inl (c ∷ cs, g) ↦
          let same : certs ≡ c ∷ cs = ground arith in
          rw same (f ∙ ap ok (collect-eq_ok items (c ∷ cs) g), λ e. cc)
    ]
  ]

  load_key-eq_ok :
      (path : Text) (key : PrivateKey)
      → load_key rustls path ≡ ok key
      → key_from_pem_file path ≡ ok key
  unfolding load_key
  load_key-eq_ok path key h = with_context-eq_ok (key_from_pem_file path) _ h

  built :
      (cert_path key_path : Text) (acceptor : Acceptor) (certs : List Certificate)
      (key : PrivateKey) {u : Unit {0}}
      → load_certs rustls cert_path ≡ ok certs
      → load_key rustls key_path ≡ ok key
      → rustls.protocol_versions ≡ ok u
      → build_acceptor rustls cert_path key_path ≡ ok acceptor
      → rustls.with_single_cert certs key ≡ ok acceptor
  unfolding build_acceptor
  built cert_path key_path acceptor certs key f g v h =
      elim (Result-cases (rustls.with_single_cert certs key)) [
        | inr (e, w) ↦ absurd (ground arith)
        | inl (a, w) ↦ ground arith
      ]

  -- An acceptor serves a certificate chain that is not empty and that is all of the first file, with
  -- the key of the second, and rustls took the pair.
  build_acceptor_sound :
      (cert_path key_path : Text) (acceptor : Acceptor)
      → build_acceptor rustls cert_path key_path ≡ ok acceptor
      → (certs : List Certificate) × (key : PrivateKey) × HasCertificates cert_path certs
        × (key_from_pem_file key_path ≡ ok key)
        × (rustls.with_single_cert certs key ≡ ok acceptor)
  unfolding build_acceptor
  build_acceptor_sound cert_path key_path acceptor h =
      elim (Result-cases (load_certs rustls cert_path)) [
        | inr (e, f) ↦ absurd (ground arith)
        | inl (certs, f) ↦ elim (Result-cases (load_key rustls key_path)) [
          | inr (e, g) ↦ absurd (ground arith)
          | inl (key, g) ↦ elim (Result-cases rustls.protocol_versions) [
            | inr (e, v) ↦ absurd (ground arith)
            | inl (u, v) ↦ (
              certs,
              key,
              load_certs-HasCertificates cert_path certs f,
              load_key-eq_ok key_path key g,
              built cert_path key_path acceptor certs key f g v h,
            )
          ]
        ]
      ]
