-- ===== src/Client/Deliveries.antt =====
-- The delivery of a result, at a server and a client that use the same encoder.
use ruchat.Prelude.{◌≡◌, refl, true, false, none, some, []}
use ruchat.Prelude.Result.{ok}
use ruchat.Protocol.Domain.{ExecutionResult, pos}
use ruchat.Protocol.Topic.{node_result_topic}
use ruchat.Protocol.Wire.{PayloadBody}
use ruchat.Samples.JsonSample.{sample_json}
use ruchat.Samples.ProstSample.{sample_prost}
use ruchat.Prelude.{◌∷◌, arith}
use ruchat.Prelude.Lists.{find}
use ruchat.Db.Rows.{Db, TaskRow, TaskAudit, has_id, is_node}
use ruchat.Db.Tasks.{new_task, dispatch}
use ruchat.Db.Sound.{IsSoundDb}
use ruchat.Db.Writes.{new_task-IsSound, dispatch-IsSound}
use ruchat.Protocol.Domain.{CreateTaskRequest, dispatched}
use ruchat.Session.World.{Outside, World}
use ruchat.Session.Publish.{handle_binary_message}
use ruchat.Client.World.{Machine}
use ruchat.Client.Session.{publish_frame, task_result_to_pb}
use ruchat.Client.Delivery.{Stored, published_result_accepted}

abbrev server : Outside
server = record {
  json = sample_json;
  prost = sample_prost;
  clock = λ n. 200;
  link = λ sent bytes. none;
}

abbrev client : Machine
client = record {
  prost = sample_prost;
  link = λ effects bytes. none;
  spawn = λ effects program args. ok 7;
  kill = λ effects child. ok tt;
  elapsed_ms = λ effects. 5;
}

abbrev request : CreateTaskRequest
request = record { node_id = "n"; command_name = "a"; args = []; timeout_secs = none }

abbrev audit : TaskAudit
audit = record { source = "api"; actor = some "admin" }

abbrev running : TaskRow
running = dispatch 101 (new_task sample_json 100 request audit 1)

abbrev db : Db
db = record {
  nodes =
      record {
        node_id = "n";
        hostname = "h";
        platform = "linux";
        poll_interval_secs = 3;
        registered_at_unix_secs = 90;
        last_seen_unix_secs = 95;
        commands_json = "[]";
      }
      ∷ [];
  tasks = running ∷ [];
  session_events = [];
  task_sequence = 1;
  event_sequence = 0;
}

db-IsSoundDb : IsSoundDb sample_json db
unfolding new_task find is_node dispatch
db-IsSoundDb = record {
  rows = (dispatch-IsSound 101 (new_task-IsSound 100 request audit 1), tt);
  keys = omega arith;
  owners = (refl, tt);
  readable = (([], sample_json.commands_empty), tt);
}

db_found : find (has_id 1) db.tasks ≡ some running
unfolding new_task find has_id dispatch
db_found = refl

abbrev world : World
world = record {
  state = record {
    db = db;
    heartbeat_interval_secs = 30;
    auth = record { shared_token = some "secret"; node_tokens = [] };
    admin_username = "admin";
    admin_password = "pw";
    admin_session_ttl_secs = 3600;
    admin_sessions = [];
    admin_session_counter = 1;
    public_ws_base = none;
    sessions = [];
    sent_signals = [];
  };
  subscriptions = [];
  registered = true;
  in_flight_task = some (record {
    task_id = 1;
    timeout_secs = none;
    dispatched_at_unix_secs = 100;
    cancel_requested = false;
    ignore_result = false;
  });
  sent = [];
  readings = 0;
}

abbrev result : ExecutionResult
result = record {
  success = true;
  exit_code = some (pos 0);
  stdout = "up";
  stderr = "";
  stdout_truncated = false;
  stderr_truncated = false;
  duration_ms = 12;
  error = none;
}

published_result_accepted_example :
    let pb = task_result_to_pb 1 result in
    let frame = publish_frame client (node_result_topic "n") (PayloadBody.task_result pb) in
    Stored sample_json 1 result
      (handle_binary_message server "n" (client.prost.frame.encode frame) world).1.state.db
published_result_accepted_example =
    published_result_accepted server client refl "n" 1 result world _ running dispatched refl refl
      refl db-IsSoundDb db_found (unfold dispatch new_task in refl) (unfold dispatch in refl) refl
