-- ===== src/Examples/Fixtures.antt =====
-- The configuration, the resolver, the clients and the answers that the examples use.
use postgresql_trino_gateway.Prelude.{if◌then◌else◌}
use postgresql_trino_gateway.Prelude.Case.{ascii_only}
use postgresql_trino_gateway.Catalog.{Dynamic}
use postgresql_trino_gateway.Wire.{
  PgType, FieldFormat, PgWireResult, Value, string, TrinoColumn, FieldEncoder,
}
use postgresql_trino_gateway.TrinoStream.{QueryResult, direct, Encoding}
use postgresql_trino_gateway.Prelude.{true, false, Option, none, some, [], ◌∷◌, ok}
use postgresql_trino_gateway.Prelude.Text.{Text, codes}
use postgresql_trino_gateway.Config.{Config}
use postgresql_trino_gateway.Policy.{Resolver, v4}
use postgresql_trino_gateway.Startup.{
  Answers, ClientInfo, awaiting_startup, authentication_in_progress, State,
}
use postgresql_trino_gateway.Session.{Gateway}

-- `--auth` on a public address, with TLS towards the client and HTTPS towards Trino.
abbrev pub secure_config : Config
secure_config = record {
  listen_addr = codes "0.0.0.0:5432";
  tls_cert = some (codes "cert.pem");
  tls_key = some (codes "key.pem");
  trino_host = codes "trino.local";
  trino_port = 8443;
  trino_catalog = codes "hive";
  trino_schema = codes "default";
  trino_user = codes "gateway";
  trino_ssl = true;
  trino_tls_no_verify = false;
  trino_allow_plaintext_auth = false;
  auth = true;
  allow_insecure_listener = false;
  max_connections = 100;
}

-- The same with plain HTTP towards Trino, which the operator allowed.
abbrev pub plain_http_config : Config
plain_http_config = record secure_config { trino_ssl = false; trino_allow_plaintext_auth = true }

-- Every address is 0.0.0.0:5432.
abbrev pub any_resolver : Resolver
any_resolver = record { parse = λ addr. some (v4 0 0 0 0 5432); to_socket_addrs = λ addr. some [] }

abbrev pub empty_gateway : Gateway
empty_gateway = record { connection_pid = 1; registry = []; slots = λ _. none; next_slot = 0 }

abbrev pub tls_client : ClientInfo
tls_client = record {
  is_secure = true;
  user = none;
  state = awaiting_startup;
  pid_and_secret_key = none;
  session = none;
  sent = [];
}

abbrev pub state_of : ClientInfo → State
state_of client = record { gateway = empty_gateway; client = client }

abbrev pub plaintext_client : ClientInfo
plaintext_client = record tls_client { is_secure = false }

-- A client that was asked for the password of `alice`.
abbrev pub challenged_client : ClientInfo
challenged_client = record tls_client {
  user = some (codes "alice");
  state = authentication_in_progress;
}

-- All goes well, and the password is `secret`.
abbrev pub willing : Answers
willing = record {
  negotiation = ok tt;
  sending = ok tt;
  finishing = ok tt;
  into_password = ok (codes "secret");
  secret = 42;
  build = λ _. ok tt;
  probe = λ _. ok tt;
}

-- Strings as they are, anything else NULL.
abbrev pub plain_cell : Value → PgType → Text → FieldFormat → PgWireResult (Option Text)
plain_cell (string s) type name format = ok (some s)
plain_cell v type name format = ok none

abbrev pub plain : Encoding
plain = record { trino_type_to_pg = λ _. PgType.text; encode_cell = plain_cell }

abbrev pub queued : QueryResult
queued = record {
  id = codes "q1";
  columns = none;
  rows = none;
  next_uri = some (codes "u1");
  error = none;
}

abbrev pub column : TrinoColumn
column = record { name = codes "c"; trino_type = codes "varchar" }

abbrev pub first_rows : QueryResult
first_rows = record queued {
  columns = some (column ∷ []);
  rows = some (direct ((string (codes "x") ∷ []) ∷ []));
  next_uri = some (codes "u2");
}

abbrev pub last_rows : QueryResult
last_rows = record first_rows {
  rows = some (direct ((string (codes "y") ∷ []) ∷ []));
  next_uri = none;
}

-- Strings as they are, and `t` or `f`.
abbrev pub plain_encoder : FieldEncoder
plain_encoder = record {
  encode_str = λ fields idx value. ok value;
  encode_bool = λ fields idx b. ok (some (if b then codes "t" else codes "f"));
}

-- No table and no type is known.
abbrev pub empty_catalog : Dynamic
empty_catalog = record {
  case = ascii_only;
  type_oid = λ _. 25;
  encoder = plain_encoder;
  get_all = λ _. ok [];
}
