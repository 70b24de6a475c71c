-- ===== src/Session/Frames.antt =====
-- apps/command-server/src/session.rs: the frames that a session sends.
use Prim.Native.String.{◌++◌ as str_append}
use Prim.Native.Nat.{◌/◌}
use ruchat.Prelude.{
  ℕ, zero, suc, ◌%◌, String, Bool, Option, none, some, List, [], ◌∷◌, ◌++◌, ◌==◌, ltb,
  if◌then◌else◌,
}
use ruchat.Prelude.Result.{Result, ok, err}
use ruchat.Protocol.Domain.{PendingTask, max_result_output_bytes, control_protocol_version}
use ruchat.Protocol.Wire.{PayloadBody, FrameBody, PbMqttFrame, PbTaskAssignment}
use ruchat.Protocol.Topic.{node_control_topic, node_task_topic}
use ruchat.Protocol.Conversions.{assignment_from_pending}
use ruchat.Session.World.{Outside, World, IoError, Action, broken_pipe, unix_now, ◌>>=◌}

unfoldable pub digit : ℕ → String
digit n =
    if n == 0
    then "0"
    else if n == 1
    then "1"
    else if n == 2
    then "2"
    else if n == 3
    then "3"
    else if n == 4
    then "4"
    else if n == 5
    then "5"
    else if n == 6
    then "6"
    else if n == 7
    then "7"
    else if n == 8
    then "8"
    else "9"

-- The `Display` of a u64, which has at most twenty digits.
unfoldable pub decimal_digits : ℕ → ℕ → String
unfolding digit
decimal_digits zero n = ""
decimal_digits (suc fuel) n =
    let rest = decimal_digits fuel (n / 10) in
    if ltb n 10 then digit n else str_append rest (digit (n % 10))

unfoldable pub decimal : ℕ → String
unfolding decimal_digits
decimal n = decimal_digits 20 n

-- A frame that carries a message of the control plane under a topic.
abbrev pub payload_frame : Outside → String → PayloadBody → PbMqttFrame
payload_frame env topic body = record {
  body = some (
      FrameBody.publish (record {
        topic = topic;
        payload = env.prost.payload.encode (record { body = some body });
      }));
}

unfoldable pub mqtt_connack : Bool → String → PbMqttFrame
mqtt_connack accepted message = record {
  body = some (FrameBody.conn_ack (record { accepted = accepted; message = message }));
}

-- The socket took the frame, or gives the text of its error.
unfoldable pub answer_of_link : World → List ℕ → Option String → Result IoError (Unit {0}) × World
answer_of_link w bytes none = (ok tt, record w { sent = w.sent ++ bytes ∷ [] })
answer_of_link w bytes (some message) = (err (broken_pipe message), w)

module _ (env : Outside) where
  unfoldable pub send_mqtt_frame : PbMqttFrame → Action Unit
  unfolding answer_of_link
  send_mqtt_frame frame w =
      let bytes = env.prost.frame.encode frame in answer_of_link w bytes (env.link w.sent bytes)

  unfoldable pub send_task_cancel : String → ℕ → Option String → Action Unit
  send_task_cancel node_id task_id reason = send_mqtt_frame (
      payload_frame env (node_control_topic node_id)
        (PayloadBody.task_cancel (record { task_id = task_id; reason = reason })))

  unfoldable pub publish_task_assignment : String → PendingTask → Action Unit
  publish_task_assignment node_id task = send_mqtt_frame (
      payload_frame env (node_task_topic node_id)
        (PayloadBody.task_assignment (assignment_from_pending task)))

  unfoldable pub publish_task_pull_response : String → List PbTaskAssignment → Action Unit
  publish_task_pull_response node_id tasks = send_mqtt_frame (
      payload_frame env (node_control_topic node_id)
        (PayloadBody.task_pull_response (record { tasks = tasks })))

  unfoldable pub publish_error : String → String → Action Unit
  publish_error node_id message = send_mqtt_frame (
      payload_frame env (node_control_topic node_id)
        (PayloadBody.node_error (record { message = message })))

  session_info : String → ℕ → ℕ → ℕ → PayloadBody
  session_info node_id heartbeat_interval_secs opened now = PayloadBody.session_info (record {
    session_id = str_append node_id (str_append "-" (decimal opened));
    node_id = node_id;
    heartbeat_interval_secs = heartbeat_interval_secs;
    max_result_output_bytes = max_result_output_bytes;
    protocol_version = control_protocol_version;
    server_unix_secs = now;
  })

  unfoldable pub publish_session_info : String → ℕ → Action Unit
  unfolding session_info
  publish_session_info node_id heartbeat_interval_secs = do
    opened ← unix_now env
    now ← unix_now env
    send_mqtt_frame (
        payload_frame env (node_control_topic node_id)
          (session_info node_id heartbeat_interval_secs opened now))
