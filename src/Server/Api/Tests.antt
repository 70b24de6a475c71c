-- ===== src/Server/Api/Tests.antt =====
-- The theorems of the interface at a server with one queued task and one administrator who is logged
-- in.
use ruchat.Db.Listings.{list_tasks_for_node-OfNode}
use ruchat.Prelude.{◌≤◌, ◌≡◌, refl, true, false, none, some, [], ◌∷◌}
use ruchat.Prelude.Lists.{All, find, update, order_by, select}
use ruchat.Prelude.Maps.{lookup}
use ruchat.Prelude.Result.{ok, err}
use ruchat.Protocol.Domain.{TaskSnapshot, canceled, queued}
use ruchat.Samples.JsonSample.{sample_json}
use ruchat.Db.Rows.{TaskRow, has_id, Db}
use ruchat.Db.Text.{task_status_to_str, task_status_from_str}
use ruchat.Db.Read.{read_task, get_task_inner, limit_rows, read_all, snapshot}
use ruchat.Db.Tasks.{cancel, cancel_task, list_tasks_for_node}
use ruchat.Server.AppState.{AppState, check_admin_session, has_valid_admin_session}
use ruchat.Server.Api.{refused, unauthorized}
use ruchat.Server.Api.Handlers.{
  ApiRequest, ApiResponse, api_audit, with_store, canceled_answer, cancel_handler, handle, respond,
}
use ruchat.Server.Api.Guard.{SameButAdmins, op_of, run_op, respond_refuses, respond_runs}
use ruchat.Server.Api.Limits.{listed, handle_limited}
use ruchat.Server.Api.Canceling.{Canceled, cancel_handler_signals}

abbrev row : TaskRow
row = record {
  task_id = 1;
  node_id = "n";
  command_name = "uptime";
  args_json = sample_json.args.encode [];
  status = "queued";
  created_at_unix_secs = 90;
  created_via = some "api";
  created_by = some "admin";
  dispatched_at_unix_secs = none;
  acked_at_unix_secs = none;
  started_at_unix_secs = none;
  finished_at_unix_secs = none;
  timeout_secs = none;
  retry_count = 0;
  retry_reason = none;
  canceled_at_unix_secs = none;
  cancel_reason = none;
  canceled_via = none;
  canceled_by = none;
  result_json = none;
}

abbrev server : AppState
server = record {
  db = record {
    nodes = [];
    tasks = row ∷ [];
    session_events = [];
    task_sequence = 1;
    event_sequence = 0;
  };
  heartbeat_interval_secs = 30;
  auth = record { shared_token = some "secret"; node_tokens = [] };
  admin_username = "admin";
  admin_password = "pw";
  admin_session_ttl_secs = 3600;
  admin_sessions = ("t", 100) ∷ [];
  admin_session_counter = 2;
  public_ws_base = none;
  sessions = ("n", 4) ∷ [];
  sent_signals = [];
}

refuses_without : (has_valid_admin_session 200 none server).0 ≡ false
unfolding has_valid_admin_session
refuses_without = refl

respond_refuses_example :
    let out = respond sample_json 200 201 none (ApiRequest.cancel 1 none) server in
    (out.0 ≡ err (refused unauthorized "admin login required")) × SameButAdmins server out.1
respond_refuses_example =
    respond_refuses sample_json 200 201 none (ApiRequest.cancel 1 none) server (λ p. p)
      refuses_without

admits_with : (has_valid_admin_session 200 (some "t") server).0 ≡ true
unfolding has_valid_admin_session check_admin_session lookup
admits_with = refl

respond_runs_example :
    (respond sample_json 200 201 (some "t") (ApiRequest.cancel 1 none) server).1.db
    ≡ run_op sample_json (op_of 201 (ApiRequest.cancel 1 none) server) server.db
respond_runs_example =
    respond_runs sample_json 201 200 (some "t") (ApiRequest.cancel 1 none) server admits_with

abbrev written : TaskSnapshot
written = snapshot (cancel 201 "enough" (api_audit server) row) [] none canceled

cancels :
    (cancel_handler sample_json 201 1 (some "enough") server).0 ≡ ok (ApiResponse.task written)
unfolding cancel_handler cancel_task canceled_answer find update has_id task_status_from_str
    task_status_to_str get_task_inner read_task cancel
cancels = rw (sample_json.args.decode-encode []) refl

cancel_handler_signals_example :
    Canceled sample_json 201 1
      (some "enough")
      server
      written
      (cancel_handler sample_json 201 1 (some "enough") server).1
cancel_handler_signals_example =
    cancel_handler_signals sample_json 201 1 (some "enough") server written cancels

-- The same store with a task of another node.
abbrev shared : Db
shared = record server.db { tasks = row ∷ record row { task_id = 2; node_id = "m" } ∷ [] }

abbrev shown : TaskSnapshot
shown = snapshot row [] none queued

lists_node : list_tasks_for_node sample_json "n" 20 shared ≡ ok (shown ∷ [])
unfolding list_tasks_for_node select order_by limit_rows read_all read_task task_status_from_str
lists_node = rw (sample_json.args.decode-encode []) refl

lists :
    (handle sample_json 201
      (ApiRequest.show_node_tasks "n" (some 500))
      (with_store server shared)).0
    ≡ ok (ApiResponse.tasks (shown ∷ []))
unfolding handle list_tasks_for_node select order_by limit_rows read_all read_task
    task_status_from_str
lists = rw (sample_json.args.decode-encode []) refl

handle_limited_example : listed (ApiResponse.tasks (shown ∷ [])) ≤ 100
handle_limited_example =
    handle_limited sample_json 201 (ApiRequest.show_node_tasks "n" (some 500))
      (with_store server shared) (ApiResponse.tasks (shown ∷ [])) refl lists

list_tasks_for_node-OfNode_example : All (λ task. task.node_id ≡ "n") (shown ∷ [])
list_tasks_for_node-OfNode_example =
    list_tasks_for_node-OfNode sample_json "n" 20 shared (shown ∷ []) lists_node
