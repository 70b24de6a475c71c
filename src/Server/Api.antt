-- ===== src/Server/Api.antt =====
-- apps/command-server/src/http.rs: the handlers of the HTTP interface, on the shared state. `token` is
-- the cookie that the request carries, `checked_at` the clock at the check of the admin session, and
-- `now` the clock of the store's operation.
pub mod Handlers
mod Tests
pub mod Guard
pub mod Limits
pub mod Canceling
use Prim.Native.String.{◌++◌ as str_append, len, slice}
use ruchat.Prelude.{
  ℕ, zero, suc, ◌-◌, String, Bool, true, false, Option, none, some, List, [], ◌∷◌, ltb, str_eq,
  if◌then◌else◌,
}
use ruchat.Prelude.Result.{Result, ok, err}
use ruchat.Protocol.Domain.{
  NodeSnapshot, SessionEvent, SessionEventKind, TaskSnapshot, CreateTaskRequest, connect_rejected,
  auth_failed, session_opened, node_registered, session_closed, max_result_output_bytes,
  max_task_pull_response_items, control_protocol_version, control_transport_stack,
  control_capabilities,
}
use ruchat.Protocol.Codec.{Json}
use ruchat.Protocol.Http.{BootstrapRequest, BootstrapResponse, ProtocolSnapshot}
use ruchat.Db.Rows.{Db, DbError, CreateTaskOutcome, CancelTaskOutcome, TaskAudit}
use ruchat.Db.Nodes.{list_nodes, get_node}
use ruchat.Db.Tasks.{
  create_task, cancel_task, get_task, list_tasks, list_recent_tasks, list_tasks_for_node,
}
use ruchat.Db.Events.{list_session_events, list_session_events_for_node}
use ruchat.Server.Auth.{verify_node_token}
use ruchat.Server.AppState.{
  AppState, has_valid_admin_session, notify_node, notify_task_cancel, enrich_node_snapshot,
}

pub data StatusCode : Type 0 where
  bad_request unauthorized not_found conflict internal_server_error : StatusCode

-- `failed` is what `internal_error` makes of an error of the store: status 500 with its text.
pub data ApiError : Type 0 where
  refused : StatusCode → String → ApiError
  failed : DbError → ApiError

abbrev pub ApiResult : Type 0 → Type 0
ApiResult A = Result ApiError A × AppState

abbrev pub internal_error : {A : Type 0} → Result DbError A → Result ApiError A
internal_error (ok a) = ok a
internal_error (err e) = err (failed e)

-- `Option` of a row that has to be there.
abbrev pub found_or : {A : Type 0} → String → Result DbError (Option A) → Result ApiError A
found_or text (ok (some a)) = ok a
found_or text (ok none) = err (refused not_found text)
found_or text (err e) = err (failed e)

abbrev pub map_ok : {A B : Type 0} → (A → B) → Result ApiError A → Result ApiError B
map_ok f (ok a) = ok (f a)
map_ok f (err e) = err e

abbrev pub map_items : {A B : Type 0} → (A → B) → List A → List B
map_items f [] = []
map_items f (x ∷ xs) = f x ∷ map_items f xs

-- What follows the check.
abbrev pub after_check : {A : Type 0} → (AppState → ApiResult A) → Bool × AppState → ApiResult A
after_check handler (true, state) = handler state
after_check handler (false, state) = (err (refused unauthorized "admin login required"), state)

-- `require_admin_session(…)?`, then the rest of a handler.
unfoldable pub require_admin_session :
    {A : Type 0} → ℕ → Option String → (AppState → ApiResult A) → AppState → ApiResult A
require_admin_session checked_at token handler state =
    after_check handler (has_valid_admin_session checked_at token state)

abbrev pub clamp : ℕ → ℕ → ℕ → ℕ
clamp low high n = if ltb n low then low else if ltb high n then high else n

abbrev pub unwrap_or : ℕ → Option ℕ → ℕ
unwrap_or n none = n
unwrap_or n (some m) = m

unfoldable pub parse_session_event_kind : Option String → Result ApiError (Option SessionEventKind)
parse_session_event_kind none = ok none
parse_session_event_kind (some text) =
    if str_eq text ""
    then ok none
    else if str_eq text "connect_rejected"
    then ok (some connect_rejected)
    else if str_eq text "auth_failed"
    then ok (some auth_failed)
    else if str_eq text "session_opened"
    then ok (some session_opened)
    else if str_eq text "node_registered"
    then ok (some node_registered)
    else if str_eq text "session_closed"
    then ok (some session_closed)
    else err (refused bad_request (str_append "unknown session event kind: " text))

-- `trim_end_matches('/')`; as many steps as the text has bytes are enough.
trim_slashes : ℕ → String → String
trim_slashes zero text = text
trim_slashes (suc fuel) text =
    let shorter = slice text 0 (len text - 1) in
    let rest = trim_slashes fuel shorter in
    if str_eq text (str_append shorter "/") then rest else text

-- `host` is the header of that name.
unfoldable pub resolve_ws_url : Option String → String → Option String → Result ApiError String
unfolding trim_slashes
resolve_ws_url (some base) node_id host =
    ok (str_append (trim_slashes (len base) base) (str_append "/" node_id))
resolve_ws_url none node_id (some host) =
    ok (str_append "ws://" (str_append host (str_append "/ws/nodes/" node_id)))
resolve_ws_url none node_id none =
    err (
      refused internal_server_error
        "missing host header and no RU_SERVER_PUBLIC_WS_BASE configured")

unfoldable pub protocol_snapshot : AppState → ProtocolSnapshot
protocol_snapshot state = record {
  protocol_version = control_protocol_version;
  transport_stack = control_transport_stack;
  heartbeat_interval_secs = state.heartbeat_interval_secs;
  max_result_output_bytes = max_result_output_bytes;
  max_task_pull_response_items = max_task_pull_response_items;
  capabilities = control_capabilities;
}

bootstrap_response : String → AppState → String → BootstrapResponse
bootstrap_response node_id state ws_url = record {
  node_id = node_id;
  ws_url = ws_url;
  heartbeat_interval_secs = state.heartbeat_interval_secs;
  protocol_version = control_protocol_version;
  transport_stack = control_transport_stack;
  capabilities = control_capabilities;
}

verified :
    Option String
    → BootstrapRequest
    → AppState
    → Result String (Unit {0})
    → Result ApiError BootstrapResponse
unfolding bootstrap_response
verified host request state (err message) = err (refused unauthorized message)
verified host request state (ok _) =
    map_ok (bootstrap_response request.node_id state)
      (resolve_ws_url state.public_ws_base request.node_id host)

unfoldable pub bootstrap :
    Option String → BootstrapRequest → AppState → Result ApiError BootstrapResponse
unfolding verified
bootstrap host request state =
    verified host request state (verify_node_token state.auth request.node_id request.auth_token)
