-- ===== src/Server/AppState.antt =====
-- apps/command-server/src/app_state.rs: the state that the sessions and the HTTP handlers share. A
-- channel is a number; what was sent on it is kept with it.
use Prim.Native.Nat.{◌/◌}
use Prim.Native.String.{◌++◌ as str_append, slice}
use ruchat.Prelude.{
  ℕ, zero, suc, ◌+◌, ◌%◌, ◌^◌, ◌-◌, String, Bool, true, false, Option, none, some, List, [], ◌∷◌,
  ◌++◌, ◌&&◌, is_some, str_eq, ltb, if◌then◌else◌,
}
use ruchat.Prelude.Maps.{Map, lookup, insert, remove}
use ruchat.Protocol.Domain.{
  NodeSnapshot, control_protocol_version, control_transport_stack, control_capabilities,
}
use ruchat.Db.Rows.{Db}
use ruchat.Server.Auth.{AuthConfig}

pub data SessionSignal : Type 0 where
  try_dispatch : SessionSignal
  cancel_task : ℕ → Option String → SessionSignal

pub record AppState : Type 0 where
  pub db : Db
  pub heartbeat_interval_secs : ℕ
  pub auth : AuthConfig
  pub admin_username : String
  pub admin_password : String
  pub admin_session_ttl_secs : ℕ
  pub admin_sessions : Map ℕ
  pub admin_session_counter : ℕ
  pub public_ws_base : Option String
  pub sessions : Map ℕ
  -- what was sent, with the channel it was sent on, oldest first
  pub sent_signals : List (ℕ × SessionSignal)

unfoldable pub verify_admin_credentials : String → String → AppState → Bool
verify_admin_credentials username password state =
    str_eq username state.admin_username && str_eq password state.admin_password

unfoldable pub insert_admin_session : ℕ → String → AppState → AppState
insert_admin_session now token state = record state {
  admin_sessions = insert token now state.admin_sessions;
}

-- One hexadecimal digit.
abbrev pub hex_digit : ℕ → String
hex_digit n = slice "0123456789abcdef" n (n + 1)

unfoldable pub hex_digits : ℕ → ℕ → String
hex_digits zero n = ""
hex_digits (suc fuel) n =
    let rest = hex_digits fuel (n / 16) in
    if ltb n 16 then hex_digit n else str_append rest (hex_digit (n % 16))

-- `{:x}` of a u64, which has at most sixteen digits.
unfoldable pub hex : ℕ → String
unfolding hex_digits
hex n = hex_digits 16 n

unfoldable pub new_admin_token : ℕ → ℕ → String
unfolding hex
new_admin_token now counter = str_append (hex now) (str_append "-" (hex counter))

-- The clock is read for the token and for the entry; `fetch_add` wraps around.
unfoldable pub create_admin_session : ℕ → ℕ → AppState → String × AppState
unfolding insert_admin_session new_admin_token
create_admin_session named_at now state =
    let token = new_admin_token named_at state.admin_session_counter in
    (
      token,
      insert_admin_session now token
          (record state { admin_session_counter = (state.admin_session_counter + 1) % 2 ^ 64 }),
    )

unfoldable pub remove_admin_session : String → AppState → AppState
remove_admin_session token state = record state {
  admin_sessions = remove token state.admin_sessions;
}

-- The part of `has_valid_admin_session` behind the cookie.
unfoldable pub check_admin_session : ℕ → String → AppState → Option ℕ → Bool × AppState
unfolding remove_admin_session
check_admin_session now token state none = (false, state)
check_admin_session now token state (some created_at) =
    if ltb state.admin_session_ttl_secs (now - created_at)
    then (false, remove_admin_session token state)
    else (true, state)

unfoldable pub has_valid_admin_session : ℕ → Option String → AppState → Bool × AppState
unfolding check_admin_session
has_valid_admin_session now none state = (false, state)
has_valid_admin_session now (some token) state =
    check_admin_session now token state (lookup token state.admin_sessions)

unfoldable pub send_signal : SessionSignal → AppState → Option ℕ → AppState
send_signal signal state none = state
send_signal signal state (some sender) = record state {
  sent_signals = state.sent_signals ++ (sender, signal) ∷ [];
}

unfoldable pub notify_node : String → AppState → AppState
unfolding send_signal
notify_node node_id state = send_signal try_dispatch state (lookup node_id state.sessions)

unfoldable pub notify_task_cancel : String → ℕ → Option String → AppState → AppState
unfolding send_signal
notify_task_cancel node_id task_id reason state =
    send_signal (cancel_task task_id reason) state (lookup node_id state.sessions)

unfoldable pub insert_session : String → ℕ → AppState → AppState
insert_session node_id sender state = record state {
  sessions = insert node_id sender state.sessions;
}

unfoldable pub remove_session : String → AppState → AppState
remove_session node_id state = record state { sessions = remove node_id state.sessions }

unfoldable pub node_is_online : String → AppState → Bool
node_is_online node_id state = is_some (lookup node_id state.sessions)

unfoldable pub enrich_node_snapshot : AppState → NodeSnapshot → NodeSnapshot
enrich_node_snapshot state node =
    if node_is_online node.node_id state
    then record node {
      online = true;
      session_protocol_version = some control_protocol_version;
      session_transport_stack = some control_transport_stack;
      session_heartbeat_interval_secs = some state.heartbeat_interval_secs;
      session_capabilities = control_capabilities;
    }
    else node
