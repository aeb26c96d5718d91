-- ===== src/Policy/Posture.antt =====
-- What a configuration that passes src/policy.rs guarantees.
use postgresql_trino_gateway.Prelude.{
  ◌≡◌, ◌↔◌, ◌⊎◌, Bool, true, false, ◌&&◌, List, [], ◌∷◌, arith, is_some, ok,
}
use postgresql_trino_gateway.Config.{Config}
use postgresql_trino_gateway.Policy.{
  AuthPosture, disabled_loopback, disabled_open_bind, cleartext_requires_tls, cleartext_loopback,
  Resolver, LogLine, listen_addr_is_loopback, classify, validate, plaintext_auth_active,
}

-- Both TLS flags are set.
abbrev pub has_tls : Config → Bool
has_tls c = is_some c.tls_cert && is_some c.tls_key

-- What each posture says of the configuration.
abbrev pub PostureHolds : Resolver → Config → AuthPosture → Type 0
PostureHolds r c disabled_loopback =
    (c.auth ≡ false) × (listen_addr_is_loopback r c.listen_addr ≡ ok true)
PostureHolds r c disabled_open_bind =
    (c.auth ≡ false)
    × (listen_addr_is_loopback r c.listen_addr ≡ ok false)
    × (c.allow_insecure_listener ≡ true)
PostureHolds r c cleartext_requires_tls = (c.auth ≡ true) × (has_tls c ≡ true)
PostureHolds r c cleartext_loopback =
    (c.auth ≡ true) × (has_tls c ≡ false) × (listen_addr_is_loopback r c.listen_addr ≡ ok true)

-- The posture that `classify` reports is the true one, and any true posture is reported: the four
-- postures and the refusals are decided exactly.
classify_iff :
    (r : Resolver) (c : Config) (p : AuthPosture) → ((classify r c).1 ≡ ok p) ↔ PostureHolds r c p
unfolding classify
classify_iff r c disabled_loopback = (λ h. ground arith, λ h. ground arith)
classify_iff r c disabled_open_bind = (λ h. ground arith, λ h. ground arith)
classify_iff r c cleartext_requires_tls = (λ h. ground arith, λ h. ground arith)
classify_iff r c cleartext_loopback = (λ h. ground arith, λ h. ground arith)

-- Passwords go to Trino over HTTPS, or the operator allowed plain HTTP, or there are none.
abbrev pub TrinoSide : Config → Type 0
TrinoSide c = (c.auth ≡ false) ⊎ (c.trino_ssl ≡ true) ⊎ (c.trino_allow_plaintext_auth ≡ true)

-- A configuration passes with a posture exactly when the posture is the true one and the Trino side
-- is safe: with `--auth` on, passwords go over HTTPS or the operator allowed plain HTTP.
pub validate_iff :
    (r : Resolver) (c : Config) (p : AuthPosture)
    → ((validate r c).1 ≡ ok p) ↔ (PostureHolds r c p × TrinoSide c)
unfolding validate
validate_iff r c disabled_loopback = (λ h. ground arith, λ h. ground arith)
validate_iff r c disabled_open_bind = (λ h. ground arith, λ h. ground arith)
validate_iff r c cleartext_requires_tls = (λ h. ground arith, λ h. ground arith)
validate_iff r c cleartext_loopback = (λ h. ground arith, λ h. ground arith)

abbrev pub mem : LogLine → List LogLine → Type 0
mem l [] = ⊥
mem l (k ∷ ks) = (k ≡ l) ⊎ mem l ks

-- A configuration that passes and sends passwords to Trino over plain HTTP says so in the log.
validate_logs_plain_http :
    (r : Resolver) (c : Config) (p : AuthPosture)
    → (validate r c).1 ≡ ok p
    → c.auth ≡ true
    → c.trino_ssl ≡ false
    → mem plaintext_auth_active (validate r c).0
unfolding validate
validate_logs_plain_http r c p h a s = ground arith
