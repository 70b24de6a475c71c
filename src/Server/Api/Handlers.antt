-- ===== src/Server/Api/Handlers.antt =====
-- apps/command-server/src/http.rs: the guarded handlers, and the router.
use ruchat.Prelude.{ℕ, String, Option, none, some, List}
use ruchat.Prelude.Result.{Result, ok, err}
use ruchat.Protocol.Domain.{
  NodeSnapshot, SessionEvent, SessionEventKind, TaskSnapshot, CreateTaskRequest,
}
use ruchat.Protocol.Codec.{Json}
use ruchat.Protocol.Http.{BootstrapRequest, BootstrapResponse, ProtocolSnapshot}
use ruchat.Db.Rows.{Db, DbError, CreateTaskOutcome, CancelTaskOutcome, TaskAudit}
use ruchat.Db.Nodes.{list_nodes, get_node}
use ruchat.Db.Tasks.{
  create_task, cancel_task, get_task, list_tasks, list_recent_tasks, list_tasks_for_node,
}
use ruchat.Db.Events.{list_session_events, list_session_events_for_node}
use ruchat.Server.AppState.{AppState, notify_node, notify_task_cancel, enrich_node_snapshot}
use ruchat.Server.Api.{
  ApiError, ApiResult, refused, failed, bad_request, not_found, conflict, internal_error, found_or,
  map_ok, map_items, require_admin_session, clamp, unwrap_or, parse_session_event_kind,
  protocol_snapshot, bootstrap,
}

-- The requests of the interface, with their paths, queries and bodies.
pub data ApiRequest : Type 0 where
  health : ApiRequest
  bootstrap_node : Option String → BootstrapRequest → ApiRequest
  show_protocol : ApiRequest
  show_nodes : ApiRequest
  show_session_events : Option ℕ → Option String → Option String → ApiRequest
  show_node : String → ApiRequest
  show_node_tasks show_node_session_events : String → Option ℕ → ApiRequest
  create : CreateTaskRequest → ApiRequest
  show_tasks : Option ℕ → ApiRequest
  show_task : ℕ → ApiRequest
  cancel : ℕ → Option String → ApiRequest

pub data ApiResponse : Type 0 where
  text : String → ApiResponse
  bootstrapped : BootstrapResponse → ApiResponse
  protocol : ProtocolSnapshot → ApiResponse
  node : NodeSnapshot → ApiResponse
  nodes : List NodeSnapshot → ApiResponse
  events : List SessionEvent → ApiResponse
  task : TaskSnapshot → ApiResponse
  tasks : List TaskSnapshot → ApiResponse

abbrev pub api_audit : AppState → TaskAudit
api_audit state = record { source = "api"; actor = some state.admin_username }

abbrev pub with_store : AppState → Db → AppState
with_store state db = record state { db = db }

unfoldable pub created_answer : AppState → Result DbError CreateTaskOutcome → ApiResult ApiResponse
created_answer state (err e) = (err (failed e), state)
created_answer state (ok CreateTaskOutcome.node_not_found) =
    (err (refused not_found "node not found"), state)
created_answer state (ok CreateTaskOutcome.unsupported_command) =
    (err (refused bad_request "command is not supported by the node"), state)
created_answer state (ok CreateTaskOutcome.extra_args_not_allowed) =
    (err (refused bad_request "command does not allow extra args"), state)
created_answer state (ok (CreateTaskOutcome.created snapshot)) =
    (ok (task snapshot), notify_node snapshot.node_id state)

unfoldable pub canceled_answer : AppState → Result DbError CancelTaskOutcome → ApiResult ApiResponse
canceled_answer state (err e) = (err (failed e), state)
canceled_answer state (ok CancelTaskOutcome.not_found) =
    (err (refused not_found "task not found"), state)
canceled_answer state (ok CancelTaskOutcome.not_cancelable) =
    (err (refused conflict "task is already running or finished"), state)
canceled_answer state (ok (CancelTaskOutcome.canceled snapshot)) = (
  ok (task snapshot),
  notify_task_cancel snapshot.node_id snapshot.task_id snapshot.cancel_reason state,
)

module _ (json : Json) where
  unfoldable pub create_handler : ℕ → CreateTaskRequest → AppState → ApiResult ApiResponse
  unfolding created_answer
  create_handler now request state =
      let out = create_task json now request (api_audit state) state.db in
      created_answer (with_store state out.1) out.0

  unfoldable pub cancel_handler : ℕ → ℕ → Option String → AppState → ApiResult ApiResponse
  unfolding canceled_answer
  cancel_handler now task_id reason state =
      let out = cancel_task json now task_id reason (api_audit state) state.db in
      canceled_answer (with_store state out.1) out.0

  events_of_kind :
      Option ℕ
      → Option String
      → Result ApiError (Option SessionEventKind)
      → Db
      → Result ApiError ApiResponse
  events_of_kind limit node_id (err e) db = err e
  events_of_kind limit node_id (ok kind) db =
      map_ok events
        (internal_error (list_session_events node_id kind (clamp 1 100 (unwrap_or 20 limit)) db))

  tasks_listed : Option ℕ → Db → Result DbError (List TaskSnapshot)
  tasks_listed none db = list_tasks json db
  tasks_listed (some limit) db = list_recent_tasks json (clamp 1 100 limit) db

  -- The handlers behind the check of the admin session.
  unfoldable pub handle : ℕ → ApiRequest → AppState → ApiResult ApiResponse
  unfolding create_handler cancel_handler events_of_kind tasks_listed
  handle now (create request) state = create_handler now request state
  handle now (cancel task_id reason) state = cancel_handler now task_id reason state
  handle now show_nodes state = (
    map_ok (λ found. nodes (map_items (enrich_node_snapshot state) found))
        (internal_error (list_nodes json state.db)),
    state,
  )
  handle now (show_session_events limit node_id kind) state =
      (events_of_kind limit node_id (parse_session_event_kind kind) state.db, state)
  handle now (show_node node_id) state = (
    map_ok (λ found. node (enrich_node_snapshot state found))
        (found_or "node not found" (get_node json state.db node_id)),
    state,
  )
  handle now (show_node_tasks node_id limit) state = (
    map_ok tasks (
        internal_error
          (list_tasks_for_node json node_id (clamp 1 100 (unwrap_or 20 limit)) state.db)),
    state,
  )
  handle now (show_node_session_events node_id limit) state = (
    map_ok events (
        internal_error
          (list_session_events_for_node node_id (clamp 1 100 (unwrap_or 20 limit)) state.db)),
    state,
  )
  handle now (show_tasks limit) state =
      (map_ok tasks (internal_error (tasks_listed limit state.db)), state)
  handle now (show_task task_id) state =
      (map_ok task (found_or "task not found" (get_task json state.db task_id)), state)
  handle now health state = (ok (text "ok"), state)
  handle now (bootstrap_node host request) state =
      (map_ok bootstrapped (bootstrap host request state), state)
  handle now show_protocol state = (ok (protocol (protocol_snapshot state)), state)

  -- `control_router`, without the pages of the console. Each handler but three calls
  -- `require_admin_session` itself.
  unfoldable pub respond : ℕ → ℕ → Option String → ApiRequest → AppState → ApiResult ApiResponse
  unfolding handle
  respond checked_at now token health state = handle now health state
  respond checked_at now token (bootstrap_node host request) state =
      handle now (bootstrap_node host request) state
  respond checked_at now token show_protocol state = handle now show_protocol state
  respond checked_at now token show_nodes state =
      require_admin_session checked_at token (handle now show_nodes) state
  respond checked_at now token (show_session_events limit node_id kind) state =
      require_admin_session checked_at token (handle now (show_session_events limit node_id kind))
        state
  respond checked_at now token (show_node node_id) state =
      require_admin_session checked_at token (handle now (show_node node_id)) state
  respond checked_at now token (show_node_tasks node_id limit) state =
      require_admin_session checked_at token (handle now (show_node_tasks node_id limit)) state
  respond checked_at now token (show_node_session_events node_id limit) state =
      require_admin_session checked_at token (handle now (show_node_session_events node_id limit))
        state
  respond checked_at now token (create request) state =
      require_admin_session checked_at token (handle now (create request)) state
  respond checked_at now token (show_tasks limit) state =
      require_admin_session checked_at token (handle now (show_tasks limit)) state
  respond checked_at now token (show_task task_id) state =
      require_admin_session checked_at token (handle now (show_task task_id)) state
  respond checked_at now token (cancel task_id reason) state =
      require_admin_session checked_at token (handle now (cancel task_id reason)) state
