-- ===== src/Server/Config.antt =====
-- apps/command-server/src/config.rs and main.rs: the settings from the environment, and the state that
-- the server starts with.
pub mod Starting
mod Tests
use ruchat.Prelude.{ℕ, String, Option, none, some, [], str_eq, if◌then◌else◌}
use ruchat.Prelude.Text.{parse_u64}
use ruchat.Prelude.Maps.{Map}
use ruchat.Prelude.Result.{Result, ok, err, ◌>>=◌}
use ruchat.Db.Rows.{Db}
use ruchat.Server.Auth.{AuthConfig, new_auth}
use ruchat.Server.AppState.{AppState}

pub record ServerConfig : Type 0 where
  pub http_bind : String
  pub ws_bind : String
  pub db_path : String
  pub heartbeat_interval_secs : ℕ
  pub public_ws_base : Option String
  pub admin_username : String
  pub admin_password : String
  pub admin_session_ttl_secs : ℕ
  pub shared_token : Option String
  pub node_tokens : Map String

-- `std::env::var(…).ok()` for each name.
abbrev pub Environment : Type 0
Environment = String → Option String

abbrev pub var_or : String → Option String → String
var_or default none = default
var_or default (some value) = value

-- A number that does not parse is as good as none.
abbrev pub number_or : ℕ → Option String → ℕ
number_or default none = default
number_or default (some value) = parsed (parse_u64 value)
  where
    parsed : Option ℕ → ℕ
    parsed none = default
    parsed (some n) = n

-- `from_str` is `serde_json::from_str` of a map.
unfoldable pub read_node_tokens :
    (String → Result String (Map String)) → Option String → Result String (Map String)
read_node_tokens from_str none = ok []
read_node_tokens from_str (some value) = from_str value

module _ (from_str : String → Result String (Map String)) where
  unfoldable pub from_env : Environment → Result String ServerConfig
  from_env var =
      let default_bind = var_or "0.0.0.0:18080" (var "RU_SERVER_BIND") in
      let http_bind = var_or default_bind (var "RU_SERVER_HTTP_BIND") in
      do
        node_tokens ← read_node_tokens from_str (var "RU_SERVER_NODE_TOKENS_JSON")
        ok (record {
          http_bind = http_bind;
          ws_bind = var_or http_bind (var "RU_SERVER_WS_BIND");
          db_path = var_or "command-plane.db" (var "RU_SERVER_DB_PATH");
          heartbeat_interval_secs = number_or 15 (var "RU_SERVER_HEARTBEAT_SECS");
          public_ws_base = var "RU_SERVER_PUBLIC_WS_BASE";
          admin_username = var_or "admin" (var "RU_ADMIN_USERNAME");
          admin_password = var_or "admin123" (var "RU_ADMIN_PASSWORD");
          admin_session_ttl_secs = number_or 28800 (var "RU_ADMIN_SESSION_TTL_SECS");
          shared_token = var "RU_SERVER_SHARED_TOKEN";
          node_tokens = node_tokens;
        })

  -- `AppState::new`
  unfoldable pub new_state : Db → AuthConfig → ServerConfig → AppState
  new_state db auth config = record {
    db = db;
    heartbeat_interval_secs = config.heartbeat_interval_secs;
    auth = auth;
    admin_username = config.admin_username;
    admin_password = config.admin_password;
    admin_session_ttl_secs = config.admin_session_ttl_secs;
    admin_sessions = [];
    admin_session_counter = 1;
    public_ws_base = config.public_ws_base;
    sessions = [];
    sent_signals = [];
  }

  -- `main` up to its state; `open_db` is `Database::open`, which asks SQLite.
  unfoldable pub start : (String → Result String Db) → Environment → Result String AppState
  unfolding from_env new_state
  start open_db var = do
    config ← from_env var
    auth ← new_auth config.shared_token config.node_tokens
    db ← open_db config.db_path
    ok (new_state db auth config)

-- Whether one server answers HTTP and websockets, or two.
pub data Servers : Type 0 where
  one_server : String → Servers
  two_servers : String → String → Servers

unfoldable pub servers : ServerConfig → Servers
servers config =
    if str_eq config.http_bind config.ws_bind
    then Servers.one_server config.http_bind
    else Servers.two_servers config.http_bind config.ws_bind
