-- ===== src/Policy.antt =====
-- src/policy.rs: the security policy that is checked before the gateway listens. Name resolution is
-- a parameter; a log line is an item of the list that comes with the result.
pub mod Posture
use postgresql_trino_gateway.Prelude.{
  ℕ, ◌==◌, Bool, true, false, not, ◌&&◌, Option, none, some, List, [], ◌∷◌, ◌++◌, if◌then◌else◌,
  is_some, is_empty, all, Result, ok, err, ◌>>=◌, ok_or,
}
use postgresql_trino_gateway.Prelude.Text.{Text}
use postgresql_trino_gateway.Config.{Config}

pub data AuthPosture : Type 0 where
  disabled_loopback disabled_open_bind cleartext_requires_tls cleartext_loopback : AuthPosture

-- `std::net::SocketAddr`: an IPv6 address is its 128-bit value.
pub data SocketAddr : Type 0 where
  v4 : ℕ → ℕ → ℕ → ℕ → ℕ → SocketAddr
  v6 : ℕ → ℕ → SocketAddr

-- `IpAddr::is_loopback`: 127.0.0.0/8 and ::1.
abbrev pub is_loopback : SocketAddr → Bool
is_loopback (v4 a b c d port) = a == 127
is_loopback (v6 n port) = n == 1

-- `str::parse::<SocketAddr>` and the operating system's `to_socket_addrs`.
pub record Resolver : Type 0 where
  pub parse : Text → Option SocketAddr
  pub to_socket_addrs : Text → Option (List SocketAddr)

pub data PolicyError : Type 0 where
  invalid_listen_addr unresolved_listen_addr open_without_auth auth_requires_tls :
      Text → PolicyError
  auth_requires_trino_tls : PolicyError

pub data LogLine : Type 0 where
  open_bind_without_auth cleartext_over_tls cleartext_on_loopback : LogLine
  insecure_listener_unused : LogLine
  no_verify_unused no_verify_active : LogLine
  plaintext_auth_unused_with_ssl plaintext_auth_active plaintext_auth_unused_without_auth : LogLine

-- A result with the lines logged on the way.
abbrev pub Logged : Type 0 → Type 0
Logged A = List LogLine × Result PolicyError A

module _ (resolver : Resolver) where
  unfoldable pub listen_addr_is_loopback : Text → Result PolicyError Bool
  listen_addr_is_loopback addr = elim (resolver.parse addr) [
    | some parsed ↦ ok (is_loopback parsed)
    | none ↦ do
      resolved ← ok_or (resolver.to_socket_addrs addr) (invalid_listen_addr addr)
      (if is_empty resolved
          then err (unresolved_listen_addr addr)
          else ok (all is_loopback resolved))
  ]

  -- `--auth` off.
  classify_open : Config → Result PolicyError AuthPosture
  classify_open config = do
    loopback ← listen_addr_is_loopback config.listen_addr
    (if loopback
        then ok disabled_loopback
        else if config.allow_insecure_listener
        then ok disabled_open_bind
        else err (open_without_auth config.listen_addr))

  -- `--auth` on.
  classify_auth : Config → Result PolicyError AuthPosture
  classify_auth config =
      if is_some config.tls_cert && is_some config.tls_key then ok cleartext_requires_tls else do
        loopback ← listen_addr_is_loopback config.listen_addr
        if loopback then ok cleartext_loopback else err (auth_requires_tls config.listen_addr)

  unfoldable pub classify : Config → Logged AuthPosture
  unfolding classify_open classify_auth
  classify config = if not config.auth then ([], classify_open config) else (
    (if config.allow_insecure_listener then insecure_listener_unused ∷ [] else []),
    classify_auth config,
  )

no_verify_lines : Config → List LogLine
no_verify_lines config =
    if config.trino_tls_no_verify
    then (if not config.trino_ssl then no_verify_unused ∷ [] else no_verify_active ∷ [])
    else []

plaintext_auth_lines : Config → List LogLine
plaintext_auth_lines config =
    if config.trino_allow_plaintext_auth
    then (if config.trino_ssl
        then plaintext_auth_unused_with_ssl ∷ []
        else if config.auth
        then plaintext_auth_active ∷ []
        else plaintext_auth_unused_without_auth ∷ [])
    else []

unfoldable pub validate_trino_posture : Config → Logged (Unit {0})
unfolding no_verify_lines plaintext_auth_lines
validate_trino_posture config = (
  no_verify_lines config ++ plaintext_auth_lines config,
  if config.auth && not config.trino_ssl && not config.trino_allow_plaintext_auth
      then err auth_requires_trino_tls
      else ok tt,
)

posture_lines : AuthPosture → List LogLine
posture_lines disabled_loopback = []
posture_lines disabled_open_bind = open_bind_without_auth ∷ []
posture_lines cleartext_requires_tls = cleartext_over_tls ∷ []
posture_lines cleartext_loopback = cleartext_on_loopback ∷ []

unfoldable pub validate : Resolver → Config → Logged AuthPosture
unfolding classify validate_trino_posture posture_lines
validate resolver config =
    let (lines, classified) = classify resolver config in
    elim classified [
      | err e ↦ (lines, err e)
      | ok posture ↦
          let (more, trino) = validate_trino_posture config in
          elim trino [
            | err e ↦ (lines ++ more, err e)
            | ok _ ↦ (lines ++ (more ++ posture_lines posture), ok posture)
          ]
    ]
