-- ===== src/Server/Auth.antt =====
-- apps/command-server/src/auth.rs: which token a node must present.
use ruchat.Prelude.{String, ◌&&◌, Option, none, some, str_eq, is_none, if◌then◌else◌}
use ruchat.Prelude.Maps.{Map, lookup}
use ruchat.Prelude.Result.{Result, ok, err}
use ruchat.Db.Tasks.{is_empty}

pub record AuthConfig : Type 0 where
  pub shared_token : Option String
  pub node_tokens : Map String

-- `AuthConfig::new`
unfoldable pub new_auth : Option String → Map String → Result String AuthConfig
new_auth shared_token node_tokens =
    if is_none shared_token && is_empty node_tokens
    then err "missing auth config: set RU_SERVER_SHARED_TOKEN or RU_SERVER_NODE_TOKENS_JSON"
    else ok (record { shared_token = shared_token; node_tokens = node_tokens })

-- `Option::or`
abbrev pub or_else {ℓ} : {A : Type ℓ} → Option A → Option A → Option A
or_else none other = other
or_else (some a) other = some a

unfoldable pub check_token : String → Option String → Result String (Unit {0})
check_token presented none = err "server auth is not configured"
check_token presented (some expected) =
    if str_eq expected presented then ok tt else err "invalid node token"

unfoldable pub verify_node_token : AuthConfig → String → String → Result String (Unit {0})
unfolding check_token
verify_node_token auth node_id presented_token =
    check_token presented_token (or_else (lookup node_id auth.node_tokens) auth.shared_token)
