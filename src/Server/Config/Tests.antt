-- ===== src/Server/Config/Tests.antt =====
-- A server whose environment has a shared token, and a token of its own for one node.
use ruchat.Prelude.{ℕ, String, ◌≡◌, refl, false, Option, none, some, [], ◌∷◌, str_eq, if◌then◌else◌}
use ruchat.Prelude.Maps.{Map, lookup}
use ruchat.Prelude.Result.{Result, ok}
use ruchat.Db.Rows.{Db}
use ruchat.Db.Ops.{empty_db}
use ruchat.Server.Auth.{new_auth, check_token, verify_node_token}
use ruchat.Server.AppState.{AppState, has_valid_admin_session}
use ruchat.Server.Config.{Environment, read_node_tokens, from_env, new_state, start}
use ruchat.Server.Config.Starting.{Named, start_admits}

abbrev from_str : String → Result String (Map String)
from_str value = ok (("n", "own") ∷ [])

abbrev open_db : String → Result String Db
open_db path = ok empty_db

abbrev var : Environment
var name =
    if str_eq name "RU_SERVER_SHARED_TOKEN"
    then some "shared"
    else if str_eq name "RU_SERVER_NODE_TOKENS_JSON"
    then some "{\"n\": \"own\"}"
    else none

abbrev state : AppState
state = record {
  db = empty_db;
  heartbeat_interval_secs = 15;
  auth = record { shared_token = some "shared"; node_tokens = ("n", "own") ∷ [] };
  admin_username = "admin";
  admin_password = "admin123";
  admin_session_ttl_secs = 28800;
  admin_sessions = [];
  admin_session_counter = 1;
  public_ws_base = none;
  sessions = [];
  sent_signals = [];
}

starts : start from_str open_db var ≡ ok state
unfolding start from_env read_node_tokens new_auth new_state
starts = refl

admits : verify_node_token state.auth "n" "own" ≡ ok tt
unfolding verify_node_token check_token lookup
admits = refl

start_admits_example :
    Named from_str open_db var "n" "own"
    × ((now : ℕ) (cookie : Option String) → (has_valid_admin_session now cookie state).0 ≡ false)
start_admits_example = start_admits from_str open_db var state "n" "own" starts admits
