-- ===== src/Main/Start.antt =====
-- What holds of a gateway that has come as far as its accept loop (src/main.rs).
use postgresql_trino_gateway.Prelude.{
  ◌<◌, ◌==◌, ◌≡◌, ◌⊎◌, inl, inr, ap, ◌∙◌, true, false, ◌&&◌, Option, none, some, arith, is_some, ok,
  Result-cases, Bool-cases,
}
use postgresql_trino_gateway.Prelude.Text.{Text}
use postgresql_trino_gateway.Config.{Config}
use postgresql_trino_gateway.Policy.{
  AuthPosture, disabled_loopback, disabled_open_bind, cleartext_requires_tls, cleartext_loopback,
  listen_addr_is_loopback, validate,
}
use postgresql_trino_gateway.Policy.Posture.{has_tls, PostureHolds, TrinoSide, validate_iff}
use postgresql_trino_gateway.Tls.{build_acceptor}
use postgresql_trino_gateway.Main.{Outside, Listening, acceptor_of, listen}

acceptor_of-is_some :
    (outside : Outside) (cert key : Option Text) (a : Option outside.rustls.Acceptor)
    → acceptor_of outside cert key ≡ ok a
    → is_some a ≡ (is_some cert && is_some key)
unfolding acceptor_of
acceptor_of-is_some outside none none a h = ground arith
acceptor_of-is_some outside none (some key) a h = ground arith
acceptor_of-is_some outside (some cert) none a h = ground arith
acceptor_of-is_some outside (some cert) (some key) a h =
    elim (Result-cases (build_acceptor outside.rustls cert key)) [
      | inl (b, e) ↦ ground arith
      | inr (b, e) ↦ absurd (ground arith)
    ]

-- With `--auth` on, passwords come over TLS or from this machine.
abbrev pub PasswordsStayPrivate : Outside → Config → Type 0
PasswordsStayPrivate outside c =
    (c.auth ≡ false)
    ⊎ (has_tls c ≡ true)
    ⊎ (listen_addr_is_loopback outside.resolver c.listen_addr ≡ ok true)

PostureHolds-private :
    (outside : Outside) (c : Config) (p : AuthPosture)
    → PostureHolds outside.resolver c p
    → PasswordsStayPrivate outside c
PostureHolds-private outside c disabled_loopback h = inl h.0
PostureHolds-private outside c disabled_open_bind h = inl h.0
PostureHolds-private outside c cleartext_requires_tls h = inr (inl h.1)
PostureHolds-private outside c cleartext_loopback h = inr (inr h.2)

module _ (outside : Outside) (config : Config) where
  abbrev pub ListensSafely : Listening outside → Type 0
  ListensSafely l =
      PasswordsStayPrivate outside config
      × TrinoSide config
      × (is_some l.tls_acceptor ≡ has_tls config)
      × (0 < l.max_connections)
      × (l.max_connections ≡ config.max_connections)

  -- A gateway that listens serves TLS exactly if both TLS files are named; with `--auth` on, it does
  -- so or listens on loopback addresses only, and sends passwords to Trino over HTTPS unless plain
  -- HTTP was allowed; and it serves as many connections as configured, one at least.
  pub listen_safe : (l : Listening outside) → listen outside config ≡ ok l → ListensSafely l
  unfolding listen
  listen_safe l h = elim (Result-cases (validate outside.resolver config).1) [
    | inr (e, v) ↦ absurd (ground arith)
    | inl (p, v) ↦ elim (Result-cases (acceptor_of outside config.tls_cert config.tls_key)) [
      | inr (e, t) ↦ absurd (ground arith)
      | inl (a, t) ↦ elim (Bool-cases (config.max_connections == 0)) [
        | inl n ↦ absurd (ground arith)
        | inr n ↦ elim (Result-cases (outside.bind config.listen_addr)) [
          | inr (e, b) ↦ absurd (ground arith)
          | inl (u, b) ↦ elim (Result-cases outside.signal) [
            | inr (e, s) ↦ absurd (ground arith)
            | inl (u', s) ↦
                let (posture, trino) = (validate_iff outside.resolver config p).0 v in
                let same : l.tls_acceptor ≡ a = ground arith in
                let limit : l.max_connections ≡ config.max_connections = ground arith in
                (
                  PostureHolds-private outside config p posture,
                  trino,
                  ap is_some same ∙ acceptor_of-is_some outside config.tls_cert config.tls_key a t,
                  ground arith,
                  limit,
                )
          ]
        ]
      ]
    ]
  ]
