-- ===== src/Examples/Policy.antt =====
-- The policy check on two configurations.
use postgresql_trino_gateway.Prelude.{◌≡◌, ◌↔◌, refl, false, [], ◌∷◌, ok, err}
use postgresql_trino_gateway.Prelude.Text.{codes}
use postgresql_trino_gateway.Policy.{
  cleartext_requires_tls, validate, plaintext_auth_active, cleartext_over_tls, open_without_auth,
  listen_addr_is_loopback,
}
use postgresql_trino_gateway.Policy.Posture.{validate_iff, PostureHolds, TrinoSide}
use postgresql_trino_gateway.Examples.Fixtures.{secure_config, plain_http_config, any_resolver}

plain_http_passes :
    validate any_resolver plain_http_config
    ≡ (plaintext_auth_active ∷ cleartext_over_tls ∷ [], ok cleartext_requires_tls)
unfolding validate
plain_http_passes = refl

open_without_auth_refused :
    (validate any_resolver (record secure_config { auth = false })).1
    ≡ err (open_without_auth (codes "0.0.0.0:5432"))
unfolding validate listen_addr_is_loopback
open_without_auth_refused = refl

validate_iff_example :
    ((validate any_resolver secure_config).1 ≡ ok cleartext_requires_tls)
    ↔ (PostureHolds any_resolver secure_config cleartext_requires_tls × TrinoSide secure_config)
validate_iff_example = validate_iff any_resolver secure_config cleartext_requires_tls

plain_http_posture : (validate any_resolver plain_http_config).1 ≡ ok cleartext_requires_tls
unfolding validate
plain_http_posture = refl
