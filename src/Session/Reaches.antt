-- ===== src/Session/Reaches.antt =====
-- The theorem on the worlds of a session at a node that registers.
use ruchat.Prelude.Maps.{contains}
use ruchat.Prelude.{ℕ, String, ◌≡◌, refl, true, false, Option, none, some, List, []}
use ruchat.Prelude.Lists.{All, find, matching}
use ruchat.Prelude.Result.{ok}
use ruchat.Protocol.Topic.{node_hello_topic, node_task_topic}
use ruchat.Protocol.Wire.{PbMqttFrame, FrameBody, PbClientHello, PbNodePayloadEnvelope, PayloadBody}
use ruchat.Protocol.Conversions.{registration_from_hello}
use ruchat.Samples.JsonSample.{sample_json}
use ruchat.Samples.ProstSample.{sample_prost}
use ruchat.Db.Rows.{is_node}
use ruchat.Prelude.{◌∷◌, arith}
use ruchat.Protocol.Domain.{CreateTaskRequest}
use ruchat.Db.Rows.{Db, TaskAudit}
use ruchat.Db.Sound.{IsSoundDb}
use ruchat.Db.Writes.{new_task-IsSound}
use ruchat.Db.Tasks.{new_task, claim_task, next_queued, older_task, is_queued_for, dispatch}
use ruchat.Prelude.Lists.{select, order_by, update}
use ruchat.Db.Read.{read_pending}
use ruchat.Db.Text.{has_status, task_status_to_str}
use ruchat.Session.Dispatch.{claim, push_claimed, track}
use ruchat.Db.Held.{Held}
use ruchat.Db.Nodes.{register_node, registration_row, registered_commands, upsert_node, overwrite}
use ruchat.Db.Tasks.{requeue_incomplete_tasks, is_incomplete, in_progress}
use ruchat.Db.Events.{record_session_event}
use ruchat.Db.Read.{get_node_inner, read_node}
use ruchat.Session.World.{Outside, World, store, unix_now}
use ruchat.Session.Frames.{send_mqtt_frame, answer_of_link, publish_task_assignment}
use ruchat.Session.Dispatch.{try_dispatch_next_task}
use ruchat.Session.Publish.{
  record_event, handle_binary_message, handle_body, decoded_frame, handle_publish, decoded_payload,
  by_topic, handle_hello_topic, accept_hello,
}
use ruchat.Session.Socket.{Event, Received, go_on, handle_event, handle_received}
use ruchat.Session.Single.{watched}
use ruchat.Session.Reach.{Reach, single_inflight}

abbrev sample_env : Outside
sample_env = record {
  json = sample_json;
  prost = sample_prost;
  clock = λ n. 200;
  link = λ sent bytes. none;
}

abbrev pong_link : List ℕ → Option String
pong_link payload = none

abbrev request : CreateTaskRequest
request = record { node_id = "n"; command_name = "a"; args = []; timeout_secs = none }

abbrev audit : TaskAudit
audit = record { source = "api"; actor = some "admin" }

-- A store with a node and a queued task of it.
abbrev db : Db
db = record {
  nodes =
      record {
        node_id = "n";
        hostname = "h";
        platform = "linux";
        poll_interval_secs = 3;
        registered_at_unix_secs = 90;
        last_seen_unix_secs = 95;
        commands_json = "[]";
      }
      ∷ [];
  tasks = new_task sample_json 100 request audit 1 ∷ [];
  session_events = [];
  task_sequence = 1;
  event_sequence = 0;
}

db-IsSoundDb : IsSoundDb sample_json db
unfolding new_task find is_node
db-IsSoundDb = record {
  rows = (new_task-IsSound 100 request audit 1, tt);
  keys = omega arith;
  owners = (refl, tt);
  readable = (([], sample_json.commands_empty), tt);
}

abbrev start : World
start = record {
  state = record {
    db = db;
    heartbeat_interval_secs = 30;
    auth = record { shared_token = some "secret"; node_tokens = [] };
    admin_username = "admin";
    admin_password = "pw";
    admin_session_ttl_secs = 3600;
    admin_sessions = [];
    admin_session_counter = 1;
    public_ws_base = none;
    sessions = [];
    sent_signals = [];
  };
  subscriptions = node_task_topic "n" ∷ [];
  registered = false;
  in_flight_task = none;
  sent = [];
  readings = 0;
}

abbrev hello : PbClientHello
hello = record { node_id = "n"; hostname = "h"; platform = "linux"; poll_interval_secs = 3 }

abbrev envelope : PbNodePayloadEnvelope
envelope = record { body = some (PayloadBody.client_hello hello) }

abbrev frame : PbMqttFrame
frame = record {
  body = some (
      FrameBody.publish
        (record { topic = node_hello_topic "n"; payload = sample_prost.payload.encode envelope }));
}

abbrev event : Event
event = Event.message (Received.binary (sample_prost.frame.encode frame))

went_on :
    let out = handle_event sample_env pong_link "n" event start in
    (out.0 ≡ ok go_on) × (out.1.registered ≡ true)
unfolding handle_event handle_received handle_binary_message handle_body decoded_frame
    handle_publish decoded_payload by_topic handle_hello_topic accept_hello register_node
    registration_row registered_commands upsert_node requeue_incomplete_tasks record_session_event
    record_event store unix_now send_mqtt_frame answer_of_link try_dispatch_next_task
    node_hello_topic registration_from_hello get_node_inner read_node find matching is_node contains
    node_task_topic claim_task next_queued older_task select order_by update is_queued_for
    has_status new_task read_pending task_status_to_str claim push_claimed dispatch track overwrite
    is_incomplete in_progress publish_task_assignment
went_on = rw (sample_prost.frame.decode-encode frame) (
    rw (sample_prost.payload.decode-encode envelope)
      (rw sample_json.commands_empty (rw (sample_json.args.decode-encode []) (refl, refl))))

abbrev after : World
after = (handle_event sample_env pong_link "n" event start).1

single_inflight_example : All (Held "n" (watched after.in_flight_task)) after.state.db.tasks
single_inflight_example =
    single_inflight sample_env pong_link "n" start after db-IsSoundDb refl
      (Reach.turn event Reach.here tt went_on.0) went_on.1
