-- ===== src/Config.antt =====
-- src/config.rs: the gateway's configuration. A path is its text.
use postgresql_trino_gateway.Prelude.{ℕ, Bool, Option}
use postgresql_trino_gateway.Prelude.Text.{Text}

pub record Config : Type 0 where
  pub listen_addr : Text
  pub tls_cert : Option Text
  pub tls_key : Option Text
  pub trino_host : Text
  pub trino_port : ℕ
  pub trino_catalog : Text
  pub trino_schema : Text
  pub trino_user : Text
  pub trino_ssl : Bool
  pub trino_tls_no_verify : Bool
  pub trino_allow_plaintext_auth : Bool
  pub auth : Bool
  pub allow_insecure_listener : Bool
  pub max_connections : ℕ
