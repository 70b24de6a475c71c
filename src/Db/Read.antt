-- ===== src/Db/Read.antt =====
-- apps/command-server/src/db.rs: how a row becomes a snapshot, and the queries by key.
use ruchat.Prelude.{
  ℕ, ◌%◌, ◌^◌, String, false, Option, none, some, List, [], ◌∷◌, ltb, if◌then◌else◌,
}
use ruchat.Prelude.Lists.{find, take}
use ruchat.Prelude.Result.{Result, ok, err, ◌>>=◌, map_err}
use ruchat.Protocol.Domain.{
  NodeSnapshot, TaskSnapshot, SessionEvent, PendingTask, TaskStatus, ExecutionResult,
}
use ruchat.Protocol.Codec.{Json}
use ruchat.Db.Rows.{
  DbError, conversion, data_error, NodeRow, TaskRow, EventRow, Db, is_node, has_id,
}
use ruchat.Db.Text.{task_status_from_str, session_event_kind_from_str}

-- The text of an error inside a conversion failure.
abbrev message_of : DbError → String
message_of (conversion column text) = text
message_of (data_error text) = text

abbrev pub read_optional {ℓ} :
    {A : Type ℓ} → (String → Result DbError A) → Option String → Result DbError (Option A)
read_optional read none = ok none
read_optional read (some text) = do value ← read text; ok (some value)

-- `for row in rows { items.push(row?) }`
unfoldable pub read_all {ℓ κ} :
    {R : Type ℓ} {A : Type κ} → (R → Result DbError A) → List R → Result DbError (List A)
read_all read [] = ok []
read_all read (row ∷ rows) = do item ← read row; items ← read_all read rows; ok (item ∷ items)

-- LIMIT ?, where the bound is a usize cast to i64: SQLite takes a negative bound for none at all.
unfoldable pub limit_rows {ℓ} : {A : Type ℓ} → ℕ → List A → List A
limit_rows limit rows = if ltb limit (2 ^ 63) then take limit rows else rows

unfoldable pub read_session_event : EventRow → Result DbError SessionEvent
read_session_event row = do
  kind ← map_err (λ e. conversion 2 (message_of e)) (session_event_kind_from_str row.event_kind)
  ok (record {
    event_id = row.event_id;
    node_id = row.node_id;
    kind = kind;
    message = row.message;
    created_at_unix_secs = row.created_at_unix_secs;
  })

-- The snapshot of a row, from its decoded columns.
abbrev pub snapshot : TaskRow → List String → Option ExecutionResult → TaskStatus → TaskSnapshot
snapshot row args result status = record {
  task_id = row.task_id;
  node_id = row.node_id;
  command_name = row.command_name;
  args = args;
  status = status;
  created_at_unix_secs = row.created_at_unix_secs;
  created_via = row.created_via;
  created_by = row.created_by;
  dispatched_at_unix_secs = row.dispatched_at_unix_secs;
  acked_at_unix_secs = row.acked_at_unix_secs;
  started_at_unix_secs = row.started_at_unix_secs;
  finished_at_unix_secs = row.finished_at_unix_secs;
  timeout_secs = row.timeout_secs;
  retry_count = row.retry_count % 2 ^ 32;
  retry_reason = row.retry_reason;
  canceled_at_unix_secs = row.canceled_at_unix_secs;
  cancel_reason = row.cancel_reason;
  canceled_via = row.canceled_via;
  canceled_by = row.canceled_by;
  result = result;
}

module _ (json : Json) where
  unfoldable pub read_node : NodeRow → Result DbError NodeSnapshot
  read_node row = do
    commands ← map_err (conversion 6) (json.commands.decode row.commands_json)
    ok (record {
      node_id = row.node_id;
      hostname = row.hostname;
      platform = row.platform;
      poll_interval_secs = row.poll_interval_secs;
      registered_at_unix_secs = row.registered_at_unix_secs;
      last_seen_unix_secs = row.last_seen_unix_secs;
      online = false;
      session_protocol_version = none;
      session_transport_stack = none;
      session_heartbeat_interval_secs = none;
      session_capabilities = [];
      commands = commands;
    })

  unfoldable pub read_result : String → Result DbError ExecutionResult
  read_result text = map_err (conversion 19) (json.result.decode text)

  unfoldable pub read_task : TaskRow → Result DbError TaskSnapshot
  unfolding read_result
  read_task row = do
    args ← map_err (conversion 3) (json.args.decode row.args_json)
    result ← read_optional read_result row.result_json
    status ← map_err (λ e. conversion 4 (message_of e)) (task_status_from_str row.status)
    ok (snapshot row args result status)

  -- The row reader inside `claim_task`.
  unfoldable pub read_pending : TaskRow → Result DbError PendingTask
  read_pending row = do
    args ← map_err (conversion 3) (json.args.decode row.args_json)
    ok (record {
      task_id = row.task_id;
      node_id = row.node_id;
      command_name = row.command_name;
      args = args;
      created_at_unix_secs = row.created_at_unix_secs;
      timeout_secs = row.timeout_secs;
      retry_count = row.retry_count % 2 ^ 32;
    })

  unfoldable pub read_found {ℓ κ} :
      {R : Type ℓ} {A : Type κ} → (R → Result DbError A) → Option R → Result DbError (Option A)
  read_found read none = ok none
  read_found read (some row) = do item ← read row; ok (some item)

  unfoldable pub get_node_inner : Db → String → Result DbError (Option NodeSnapshot)
  unfolding read_found
  get_node_inner db node_id = read_found read_node (find (is_node node_id) db.nodes)

  unfoldable pub get_task_inner : Db → ℕ → Result DbError (Option TaskSnapshot)
  unfolding read_found
  get_task_inner db task_id = read_found read_task (find (has_id task_id) db.tasks)

-- `.ok_or_else(|| DbError::Data(…))`
abbrev pub ok_or_else {ℓ} : {A : Type ℓ} → String → Result DbError (Option A) → Result DbError A
ok_or_else text (ok none) = err (data_error text)
ok_or_else text (ok (some item)) = ok item
ok_or_else text (err e) = err e
