-- ===== src/Client/Run.antt =====
-- apps/command-client/src/ws.rs: `run_ws_session`: the handshake, and the loop over what happens.
use ruchat.Prelude.{ℕ, String, Bool, true, Option, none, some, List, [], ◌∷◌, if◌then◌else◌}
use ruchat.Prelude.Result.{Result, ok, err}
use ruchat.Protocol.Domain.{CommandDescriptor}
use ruchat.Protocol.Topic.{node_task_topic, node_control_topic, node_hello_topic}
use ruchat.Protocol.Wire.{PayloadBody, FrameBody, PbMqttFrame, PbCommandDescriptor}
use ruchat.Protocol.Conversions.{descriptor_to_pb, hello_from_registration}
use ruchat.Client.Config.{ClientConfig, command_descriptors, hello_registration}
use ruchat.Client.World.{
  RunningTaskState, Effect, ClientWorld, Machine, Action, ◌>>=◌, ◌>>◌, return, done, throw,
}
use ruchat.Client.Session.{
  Ending, taken, send_frame, send_publish, request_task_pull, on_binary_message, progress,
  cancel_running,
}

-- tungstenite's messages; `raw` is its `Frame`.
pub data WsMessage : Type 0 where
  binary ping : List ℕ → WsMessage
  pong text close raw : WsMessage

-- What one turn of `tokio::select!` takes, with the reading of the clock or the answers of the child.
pub data ClientEvent : Type 0 where
  heartbeat : ℕ → ClientEvent
  progress_tick : Result String Bool → Ending → ClientEvent
  message : Result String WsMessage → ClientEvent
  ended : ClientEvent

-- How a turn ends: the loop goes on, or the session returns.
pub data ClientTurn : Type 0 where
  again over : ClientTurn

pb_descriptors : List CommandDescriptor → List PbCommandDescriptor
unfolding descriptor_to_pb
pb_descriptors [] = []
pb_descriptors (c ∷ cs) = descriptor_to_pb c ∷ pb_descriptors cs

-- `let _ = …`
abbrev pub ignored : Result String (Unit {0}) × ClientWorld → Result String (Unit {0}) × ClientWorld
ignored (r, w) = (ok tt, w)

module _ (env : Machine) where
  -- The websocket's own pong.
  unfoldable pub send_pong : (List ℕ → Option String) → List ℕ → Action Unit
  unfolding taken
  send_pong pong_link payload w = taken (Effect.ponged payload) w (pong_link payload)

  -- What a frame tells somebody who waits for the answer to a connect: nothing yet, or the end.
  unfoldable pub connack_of : Result String PbMqttFrame → Option (Result String (Unit {0}))
  connack_of (err error) = some (err error)
  connack_of (ok frame) = elim frame.body [
    | none ↦ none
    | some body ↦ elim body [
      | FrameBody.conn_ack connack ↦
          if connack.accepted then some (ok tt) else some (err connack.message)
      | _ ↦ none
    ]
  ]

  abbrev pub answered : Option (Result String (Unit {0})) → Action Unit → Action Unit
  answered (some result) rest w = (result, w)
  answered none rest w = rest w

  -- `wait_for_connack`, over the messages that come.
  unfoldable pub wait_for_connack :
      (List ℕ → Option String) → List (Result String WsMessage) → Action Unit
  unfolding connack_of send_pong
  wait_for_connack pong_link [] = throw "websocket closed before connack"
  wait_for_connack pong_link (err error ∷ messages) = throw error
  wait_for_connack pong_link (ok (binary bytes) ∷ messages) =
      answered (connack_of (env.prost.frame.decode bytes)) (wait_for_connack pong_link messages)
  wait_for_connack pong_link (ok close ∷ messages) = done
  wait_for_connack pong_link (ok (ping payload) ∷ messages) =
      send_pong pong_link payload >> wait_for_connack pong_link messages
  wait_for_connack pong_link (ok pong ∷ messages) = wait_for_connack pong_link messages
  wait_for_connack pong_link (ok text ∷ messages) = wait_for_connack pong_link messages
  wait_for_connack pong_link (ok raw ∷ messages) = wait_for_connack pong_link messages

  -- The session is over: a running task is asked to cancel, whether that works or not.
  unfoldable pub cancel_at_end : Option RunningTaskState → Action Unit
  unfolding cancel_running
  cancel_at_end none w = (ok tt, w)
  cancel_at_end (some task) w =
      ignored (cancel_running env (some "websocket session closed") task w)

  unfoldable pub leave_session : Action ClientTurn
  unfolding cancel_at_end
  leave_session w = (cancel_at_end w.running_task >> return over) w

  unfoldable pub on_message :
      (List ℕ → Option String) → ClientConfig → WsMessage → Action ClientTurn
  unfolding on_binary_message send_pong leave_session
  on_message pong_link config (binary bytes) = on_binary_message env config bytes >> return again
  on_message pong_link config (ping payload) = send_pong pong_link payload >> return again
  on_message pong_link config close = leave_session
  on_message pong_link config pong = return again
  on_message pong_link config text = return again
  on_message pong_link config raw = return again

  -- One turn of the loop.
  unfoldable pub on_event :
      (List ℕ → Option String) → ClientConfig → ClientEvent → Action ClientTurn
  unfolding on_message progress send_frame leave_session
  on_event pong_link config (heartbeat now) =
      send_frame env (record { body = some (FrameBody.ping_req (record { unix_secs = now })) })
      >> return again
  on_event pong_link config (progress_tick waited ending) =
      progress env config.node_id waited ending >> return again
  on_event pong_link config (message (err error)) = throw error
  on_event pong_link config (message (ok item)) = on_message pong_link config item
  on_event pong_link config ended = leave_session

  abbrev pub next_turn : Action Unit → ClientTurn → Action Unit
  next_turn rest again = rest
  next_turn rest over = done

  -- The loop, over what happens until the session returns.
  unfoldable pub run_events :
      (List ℕ → Option String) → ClientConfig → List ClientEvent → Action Unit
  unfolding on_event
  run_events pong_link config [] = done
  run_events pong_link config (event ∷ events) =
      on_event pong_link config event >>= next_turn (run_events pong_link config events)

  -- What the client tells the server before its loop; `host`, `os` and `arch` describe its machine.
  unfoldable pub introduce : String → String → String → ClientConfig → Action Unit
  unfolding send_frame send_publish request_task_pull pb_descriptors
  introduce host os arch config = do
    _ ← send_frame env (record {
      body = some (
          FrameBody.subscribe (record {
            topics = node_task_topic config.node_id ∷ node_control_topic config.node_id ∷ [];
          }));
    })
    _ ← send_publish env (node_hello_topic config.node_id) (
        PayloadBody.client_hello (hello_from_registration (hello_registration host os arch config)))
    _ ← send_publish env (node_hello_topic config.node_id) (
        PayloadBody.command_catalog
          (record { commands = pb_descriptors (command_descriptors config) }))
    request_task_pull env config.node_id

  -- `run_ws_session` behind the connection of the socket.
  unfoldable pub run_ws_session :
      (List ℕ → Option String)
      → String
      → String
      → String
      → ClientConfig
      → List (Result String WsMessage)
      → List ClientEvent
      → Action Unit
  unfolding wait_for_connack introduce run_events
  run_ws_session pong_link host os arch config answers events = do
    _ ← send_frame env (record {
      body = some (
          FrameBody.connect (record {
            client_id = config.node_id;
            clean_session = true;
            auth_token = config.auth_token;
          }));
    })
    _ ← wait_for_connack pong_link answers
    _ ← introduce host os arch config
    run_events pong_link config events
