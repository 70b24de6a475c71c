-- ===== src/Session/Socket.antt =====
-- apps/command-server/src/session.rs: the life of a session: the handshake, the loop over what
-- happens, and the end.
use ruchat.Prelude.{
  ℕ, String, true, false, Option, none, some, List, [], ◌∷◌, str_eq, if◌then◌else◌,
}
use ruchat.Prelude.Result.{Result, ok, err}
use ruchat.Protocol.Domain.{
  SessionEventKind, connect_rejected, auth_failed, session_opened, session_closed,
}
use ruchat.Protocol.Wire.{FrameBody, PbMqttFrame, PbMqttConnect}
use ruchat.Db.Tasks.{requeue_incomplete_tasks}
use ruchat.Db.Ops.{Op, apply_op}
use ruchat.Server.Auth.{verify_node_token}
use ruchat.Server.AppState.{SessionSignal, insert_session, remove_session}
use ruchat.Session.World.{
  with_db, Outside, World, Action, IoError, broken_pipe, unix_now, store, attempt, ◌>>=◌, ◌>>◌,
  return, modify,
}
use ruchat.Session.Frames.{send_mqtt_frame, mqtt_connack}
use ruchat.Session.Dispatch.{try_dispatch_next_task, handle_cancel_signal, handle_in_flight_timeout}
use ruchat.Session.Publish.{record_event, handle_binary_message}

-- What `socket.recv()` brings; `failed` is an error of the socket, with its text.
pub data Received : Type 0 where
  binary : List ℕ → Received
  ping : List ℕ → Received
  pong text close : Received
  failed : String → Received

-- What one turn of `tokio::select!` takes: `no_sender` and `ended` are the end of a channel.
pub data Event : Type 0 where
  tick : Event
  signal : SessionSignal → Event
  no_sender : Event
  message : Received → Event
  ended : Event

-- What the ten seconds' wait for the first frame brings.
pub data FirstFrame : Type 0 where
  timed_out closed : FirstFrame
  received : Received → FirstFrame

-- A turn of the loop, or an operation that another part of the server runs on the store between two.
pub data Step : Type 0 where
  turn : Event → Step
  elsewhere : Op → Step

-- How a turn of the loop ends.
pub data Turn : Type 0 where
  go_on leave : Turn

-- The session is there for the others, and its local variables have their first values.
unfoldable pub start_session : String → ℕ → World → World
unfolding insert_session
start_session path_node_id channel w = record w {
  state = insert_session path_node_id channel w.state;
  subscriptions = [];
  registered = false;
  in_flight_task = none;
}

-- What becomes of a pong: nothing, or the error of the socket.
abbrev pub pong_result : World → Option String → Result IoError Turn × World
pong_result w none = (ok go_on, w)
pong_result w (some error) = (err (broken_pipe error), w)

module _ (env : Outside) where
  unfoldable pub connect_of : Result String PbMqttFrame → Result String PbMqttConnect
  connect_of (err error) = err error
  connect_of (ok frame) = elim frame.body [
    | none ↦ err "first websocket frame must be mqtt connect"
    | some body ↦ elim body [
      | FrameBody.connect connect ↦ ok connect
      | _ ↦ err "first websocket frame must be mqtt connect"
    ]
  ]

  unfoldable pub receive_connect : FirstFrame → Result String PbMqttConnect
  unfolding connect_of
  receive_connect timed_out = err "timed out waiting for mqtt connect"
  receive_connect closed = err "websocket closed before mqtt connect"
  receive_connect (received (failed error)) = err error
  receive_connect (received (binary bytes)) = connect_of (env.prost.frame.decode bytes)
  receive_connect (received _) = err "first websocket frame must be binary mqtt connect"

  -- A refused connection: the event, and the answer, whose loss is ignored.
  unfoldable pub refuse : String → SessionEventKind → String → Action Turn
  refuse path_node_id kind reason = do
    _ ← record_event env path_node_id kind reason
    _ ← attempt (send_mqtt_frame env (mqtt_connack false reason))
    return leave

  unfoldable pub accepted : String → ℕ → Result IoError (Unit {0}) → Action Turn
  accepted path_node_id channel (err _) = return leave
  accepted path_node_id channel (ok _) = do
    _ ← modify (start_session path_node_id channel)
    _ ← record_event env path_node_id session_opened "mqtt connected"
    return go_on

  unfoldable pub admit : String → ℕ → Result String (Unit {0}) → Action Turn
  unfolding accepted refuse
  admit path_node_id channel (err reason) w = refuse path_node_id auth_failed reason w
  admit path_node_id channel (ok _) w =
      let answered = send_mqtt_frame env (mqtt_connack true "connected") w in
      accepted path_node_id channel answered.0 answered.1

  unfoldable pub check_connect : String → ℕ → Result String PbMqttConnect → Action Turn
  unfolding refuse admit
  check_connect path_node_id channel (err error) w = refuse path_node_id connect_rejected error w
  check_connect path_node_id channel (ok connect) w =
      if str_eq connect.client_id path_node_id
      then admit path_node_id channel
          (verify_node_token w.state.auth path_node_id connect.auth_token) w
      else refuse path_node_id connect_rejected "client_id mismatch between path and connect" w

  -- `handle_node_socket` up to its loop; `channel` is the new channel's sender.
  unfoldable pub open_session : String → ℕ → FirstFrame → Action Turn
  unfolding check_connect
  open_session path_node_id channel first =
      check_connect path_node_id channel (receive_connect first)

  unfoldable pub handle_tick : String → Action Unit
  handle_tick path_node_id = do
    _ ← handle_in_flight_timeout env path_node_id
    now ← unix_now env
    send_mqtt_frame env (record { body = some (FrameBody.ping_req (record { unix_secs = now })) })

  -- The websocket's own pong, which is no frame of the protocol, may fail as well.
  unfoldable pub handle_received : (List ℕ → Option String) → String → Received → Action Turn
  handle_received pong_link path_node_id (binary bytes) w =
      (handle_binary_message env path_node_id bytes >> return go_on) w
  handle_received pong_link path_node_id (ping payload) w = pong_result w (pong_link payload)
  handle_received pong_link path_node_id pong w = (ok go_on, w)
  handle_received pong_link path_node_id text w = (ok go_on, w)
  handle_received pong_link path_node_id close w = (ok leave, w)
  handle_received pong_link path_node_id (failed _) w = (ok leave, w)

  -- One turn of the loop.
  unfoldable pub handle_event : (List ℕ → Option String) → String → Event → Action Turn
  unfolding handle_tick handle_received
  handle_event pong_link path_node_id tick = handle_tick path_node_id >> return go_on
  handle_event pong_link path_node_id (signal SessionSignal.try_dispatch) =
      try_dispatch_next_task env path_node_id >> return go_on
  handle_event pong_link path_node_id (signal (SessionSignal.cancel_task task_id reason)) =
      handle_cancel_signal env path_node_id task_id reason >> return go_on
  handle_event pong_link path_node_id no_sender = return leave
  handle_event pong_link path_node_id (message item) = handle_received pong_link path_node_id item
  handle_event pong_link path_node_id ended = return leave

  -- The part of `handle_node_socket` behind its loop.
  unfoldable pub close_session : String → Action Unit
  close_session path_node_id = do
    _ ← modify (λ w. record w { state = remove_session path_node_id w.state })
    _ ← record_event env path_node_id session_closed "node session closed"
    store (λ db. (ok tt, requeue_incomplete_tasks path_node_id "node session closed" db))

  -- The loop goes on, or is left.
  abbrev pub resume : Result IoError Turn → World → World → World
  resume (ok go_on) rest w = rest
  resume (ok leave) rest w = w
  resume (err _) rest w = w

  -- The loop, over the steps that happen until one ends it.
  unfoldable pub run_steps : (List ℕ → Option String) → String → List Step → World → World
  run_steps pong_link path_node_id [] w = w
  run_steps pong_link path_node_id (elsewhere op ∷ steps) w =
      run_steps pong_link path_node_id steps (with_db w (apply_op env.json op w.state.db))
  run_steps pong_link path_node_id (turn event ∷ steps) w =
      let out = handle_event pong_link path_node_id event w in
      let rest = run_steps pong_link path_node_id steps out.1 in resume out.0 rest out.1

  unfoldable pub end_session :
      (List ℕ → Option String) → String → List Step → Result IoError Turn × World → World
  unfolding run_steps
  end_session pong_link path_node_id steps (ok go_on, w) =
      (close_session path_node_id (run_steps pong_link path_node_id steps w)).1
  end_session pong_link path_node_id steps (_, w) = w

  unfoldable pub handle_node_socket :
      (List ℕ → Option String) → String → ℕ → FirstFrame → List Step → World → World
  unfolding end_session
  handle_node_socket pong_link path_node_id channel first steps w =
      end_session pong_link path_node_id steps (open_session path_node_id channel first w)
