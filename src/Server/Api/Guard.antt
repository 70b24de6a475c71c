-- ===== src/Server/Api/Guard.antt =====
-- apps/command-server/src/http.rs: what a request may change.
use ruchat.Prelude.{ℕ, String, ◌≡◌, refl, Bool, true, false, Option, none, some, arith}
use ruchat.Prelude.Maps.{lookup}
use ruchat.Prelude.Result.{Result, ok, err}
use ruchat.Protocol.Codec.{Json}
use ruchat.Db.Rows.{TaskAudit, Db, DbError, CreateTaskOutcome, CancelTaskOutcome}
use ruchat.Db.Ops.{Op, apply_op}
use ruchat.Server.AppState.{
  AppState, has_valid_admin_session, check_admin_session, notify_node, notify_task_cancel,
  send_signal, SessionSignal,
}
use ruchat.Server.Api.{ApiResult, refused, unauthorized, after_check, require_admin_session}
use ruchat.Server.Api.Handlers.{
  ApiRequest, ApiResponse, created_answer, canceled_answer, create_handler, cancel_handler, handle,
  respond,
}

-- Two states that differ in the admin sessions at most.
pub record SameButAdmins (before after : AppState) : Type 0 where
  pub db : after.db ≡ before.db
  pub sessions : after.sessions ≡ before.sessions
  pub signals : after.sent_signals ≡ before.sent_signals

check-SameButAdmins :
    (now : ℕ) (token : String) (state : AppState) (created : Option ℕ)
    → SameButAdmins state (check_admin_session now token state created).1
unfolding check_admin_session
check-SameButAdmins now token state none = record { db = refl; sessions = refl; signals = refl }
check-SameButAdmins now token state (some at) = record {
  db = ground arith;
  sessions = ground arith;
  signals = ground arith;
}

pub session-SameButAdmins :
    (now : ℕ) (token : Option String) (state : AppState)
    → SameButAdmins state (has_valid_admin_session now token state).1
unfolding has_valid_admin_session
session-SameButAdmins now none state = record { db = refl; sessions = refl; signals = refl }
session-SameButAdmins now (some token) state =
    check-SameButAdmins now token state (lookup token state.admin_sessions)

-- A valid session leaves the state as it was.
pub valid_same :
    (now : ℕ) (token : Option String) (state : AppState)
    → (has_valid_admin_session now token state).0 ≡ true
    → has_valid_admin_session now token state ≡ (true, state)
unfolding has_valid_admin_session check_admin_session
valid_same now none state e = absurd (grind arith)
valid_same now (some token) state e = on (lookup token state.admin_sessions) e
  where
    on :
        (created : Option ℕ)
        → (check_admin_session now token state created).0 ≡ true
        → check_admin_session now token state created ≡ (true, state)
    on none e = absurd (grind arith)
    on (some at) e = ground arith

module _ (json : Json) (checked_at now : ℕ) (token : Option String) where
  refused_lem :
      (checked : Bool × AppState) (handler : AppState → ApiResult ApiResponse)
      → checked.0 ≡ false
      → after_check handler checked ≡ (err (refused unauthorized "admin login required"), checked.1)
  refused_lem (true, state) handler e = absurd (grind arith)
  refused_lem (false, state) handler e = refl

  guarded_refuses :
      (state : AppState) (handler : AppState → ApiResult ApiResponse)
      → (has_valid_admin_session checked_at token state).0 ≡ false
      → let out = require_admin_session checked_at token handler state in
        (out.0 ≡ err (refused unauthorized "admin login required")) × SameButAdmins state out.1
  unfolding require_admin_session
  guarded_refuses state handler invalid =
      rw (refused_lem (has_valid_admin_session checked_at token state) handler invalid)
        (refl, session-SameButAdmins checked_at token state)

-- The requests that anybody may make: the liveness check, the bootstrap of a node, which has a token of
-- its own, and the description of the protocol.
abbrev pub IsPublic : ApiRequest → Type 0
IsPublic ApiRequest.health = Unit
IsPublic (ApiRequest.bootstrap_node _ _) = Unit
IsPublic ApiRequest.show_protocol = Unit
IsPublic _ = ⊥

module _ (json : Json) (checked_at now : ℕ) (token : Option String) where
  -- Without a valid admin session every request but the liveness check, the bootstrap and the description
  -- of the protocol is answered with UNAUTHORIZED, and neither the store, nor the sessions of nodes, nor
  -- the signals to them change.
  pub respond_refuses :
      (request : ApiRequest) (state : AppState)
      → (IsPublic request → ⊥)
      → (has_valid_admin_session checked_at token state).0 ≡ false
      → let out = respond json checked_at now token request state in
        (out.0 ≡ err (refused unauthorized "admin login required")) × SameButAdmins state out.1
  unfolding respond
  respond_refuses ApiRequest.health state closed invalid = absurd (closed tt)
  respond_refuses (ApiRequest.bootstrap_node _ _) state closed invalid = absurd (closed tt)
  respond_refuses ApiRequest.show_protocol state closed invalid = absurd (closed tt)
  respond_refuses ApiRequest.show_nodes state closed invalid =
      guarded_refuses json checked_at now token state (handle json now ApiRequest.show_nodes)
        invalid
  respond_refuses (ApiRequest.show_session_events limit node_id kind) state closed invalid =
      guarded_refuses json checked_at now token state
        (handle json now (ApiRequest.show_session_events limit node_id kind)) invalid
  respond_refuses (ApiRequest.show_node node_id) state closed invalid =
      guarded_refuses json checked_at now token state
        (handle json now (ApiRequest.show_node node_id)) invalid
  respond_refuses (ApiRequest.show_node_tasks node_id limit) state closed invalid =
      guarded_refuses json checked_at now token state
        (handle json now (ApiRequest.show_node_tasks node_id limit)) invalid
  respond_refuses (ApiRequest.show_node_session_events node_id limit) state closed invalid =
      guarded_refuses json checked_at now token state
        (handle json now (ApiRequest.show_node_session_events node_id limit)) invalid
  respond_refuses (ApiRequest.create request) state closed invalid =
      guarded_refuses json checked_at now token state (handle json now (ApiRequest.create request))
        invalid
  respond_refuses (ApiRequest.show_tasks limit) state closed invalid =
      guarded_refuses json checked_at now token state
        (handle json now (ApiRequest.show_tasks limit)) invalid
  respond_refuses (ApiRequest.show_task task_id) state closed invalid =
      guarded_refuses json checked_at now token state
        (handle json now (ApiRequest.show_task task_id)) invalid
  respond_refuses (ApiRequest.cancel task_id reason) state closed invalid =
      guarded_refuses json checked_at now token state
        (handle json now (ApiRequest.cancel task_id reason)) invalid

pub send-db :
    (signal : SessionSignal) (state : AppState) (sender : Option ℕ)
    → (send_signal signal state sender).db ≡ state.db
unfolding send_signal
send-db signal state none = refl
send-db signal state (some channel) = refl

created-db :
    (state : AppState) (outcome : Result DbError CreateTaskOutcome)
    → (created_answer state outcome).1.db ≡ state.db
unfolding created_answer notify_node
created-db state (err e) = refl
created-db state (ok CreateTaskOutcome.node_not_found) = refl
created-db state (ok CreateTaskOutcome.unsupported_command) = refl
created-db state (ok CreateTaskOutcome.extra_args_not_allowed) = refl
created-db state (ok (CreateTaskOutcome.created snapshot)) = send-db _ state _

canceled-db :
    (state : AppState) (outcome : Result DbError CancelTaskOutcome)
    → (canceled_answer state outcome).1.db ≡ state.db
unfolding canceled_answer notify_task_cancel
canceled-db state (err e) = refl
canceled-db state (ok CancelTaskOutcome.not_found) = refl
canceled-db state (ok CancelTaskOutcome.not_cancelable) = refl
canceled-db state (ok (CancelTaskOutcome.canceled snapshot)) = send-db _ state _

-- The administrator of the state, at the interface.
abbrev pub by_admin : AppState → TaskAudit
by_admin state = record { source = "api"; actor = some state.admin_username }

-- The operation of the store that a request stands for, if it writes.
abbrev pub op_of : ℕ → ApiRequest → AppState → Option Op
op_of now (ApiRequest.create request) state = some (Op.create now request (by_admin state))
op_of now (ApiRequest.cancel task_id reason) state =
    some (Op.cancel now task_id reason (by_admin state))
op_of now _ state = none

abbrev pub run_op : Json → Option Op → Db → Db
run_op json none db = db
run_op json (some op) db = apply_op json op db

module _ (json : Json) (now : ℕ) where
  handle-db :
      (request : ApiRequest) (state : AppState)
      → (handle json now request state).1.db ≡ run_op json (op_of now request state) state.db
  unfolding handle create_handler cancel_handler
  handle-db (ApiRequest.create request) state = created-db _ _
  handle-db (ApiRequest.cancel task_id reason) state = canceled-db _ _
  handle-db _ state = refl

  guarded_runs :
      (checked_at : ℕ) (token : Option String) (request : ApiRequest) (state : AppState)
      → (has_valid_admin_session checked_at token state).0 ≡ true
      → (require_admin_session checked_at token (handle json now request) state).1.db
        ≡ run_op json (op_of now request state) state.db
  unfolding require_admin_session
  guarded_runs checked_at token request state valid =
      rw (valid_same checked_at token state valid) (handle-db request state)

  -- With a valid admin session a request runs the one operation of the store that it stands for, if
  -- it is a create or a cancel, with the source `api` and the administrator of the state as the actor, and changes nothing else in the
  -- store.
  pub respond_runs :
      (checked_at : ℕ) (token : Option String) (request : ApiRequest) (state : AppState)
      → (has_valid_admin_session checked_at token state).0 ≡ true
      → (respond json checked_at now token request state).1.db
        ≡ run_op json (op_of now request state) state.db
  unfolding respond
  respond_runs checked_at token ApiRequest.health state valid = handle-db ApiRequest.health state
  respond_runs checked_at token (ApiRequest.bootstrap_node host request) state valid =
      handle-db (ApiRequest.bootstrap_node host request) state
  respond_runs checked_at token ApiRequest.show_protocol state valid =
      handle-db ApiRequest.show_protocol state
  respond_runs checked_at token ApiRequest.show_nodes state valid =
      guarded_runs checked_at token ApiRequest.show_nodes state valid
  respond_runs checked_at token (ApiRequest.show_session_events limit node_id kind) state valid =
      guarded_runs checked_at token (ApiRequest.show_session_events limit node_id kind) state valid
  respond_runs checked_at token (ApiRequest.show_node node_id) state valid =
      guarded_runs checked_at token (ApiRequest.show_node node_id) state valid
  respond_runs checked_at token (ApiRequest.show_node_tasks node_id limit) state valid =
      guarded_runs checked_at token (ApiRequest.show_node_tasks node_id limit) state valid
  respond_runs checked_at token (ApiRequest.show_node_session_events node_id limit) state valid =
      guarded_runs checked_at token (ApiRequest.show_node_session_events node_id limit) state valid
  respond_runs checked_at token (ApiRequest.create request) state valid =
      guarded_runs checked_at token (ApiRequest.create request) state valid
  respond_runs checked_at token (ApiRequest.show_tasks limit) state valid =
      guarded_runs checked_at token (ApiRequest.show_tasks limit) state valid
  respond_runs checked_at token (ApiRequest.show_task task_id) state valid =
      guarded_runs checked_at token (ApiRequest.show_task task_id) state valid
  respond_runs checked_at token (ApiRequest.cancel task_id reason) state valid =
      guarded_runs checked_at token (ApiRequest.cancel task_id reason) state valid
