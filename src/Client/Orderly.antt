-- ===== src/Client/Orderly.antt =====
-- apps/command-client/src/ws.rs: the whole session of the client keeps its effects in order.
use ruchat.Prelude.{
  ℕ, String, ◌≡◌, refl, Bool, true, false, not, Option, none, some, List, [], ◌∷◌, ◌==◌, ==_refl,
  arith, str_eq, if◌then◌else◌,
}
use ruchat.Prelude.Result.{Result, ok, err}
use ruchat.Protocol.Topic.{node_task_topic, node_control_topic}
use ruchat.Protocol.Wire.{
  PayloadBody, FrameBody, PbMqttFrame, PbNodePayloadEnvelope, PbTaskAssignment, PbTaskCancel,
}
use ruchat.Client.Config.{ClientConfig}
use ruchat.Client.World.{
  RunningTaskState, Effect, ClientWorld, Machine, Action, done, set_running, noted,
}
use ruchat.Client.Session.{
  Ending, cancel_running, accept_cancel, handle_task_cancel, start_pulled, on_task_topic,
  on_control_topic, on_publish, on_frame, on_decoded, on_binary_message, complete_task,
  running_task_finished, progress,
}
use ruchat.Client.Run.{
  WsMessage, ClientEvent, ClientTurn, again, over, send_pong, answered, connack_of,
  wait_for_connack, cancel_at_end, leave_session, on_message, on_event, next_turn, run_events,
  introduce, run_ws_session,
}
use ruchat.Client.OneChild.{
  running_after, IsOrderly, Keeps, then-Keeps, return-Keeps, throw-Keeps, if-Keeps, taken-Keeps,
  send-Keeps, publish-Keeps, result-Keeps, pull-Keeps, assignment-Keeps, cancel_running-Keeps,
  continue_lem,
}

-- A choice between two actions, in one world.
either :
    {A : Type 0} (b : Bool) (m n : Action A) (w : ClientWorld)
    → IsOrderly (m w).1
    → IsOrderly (n w).1
    → IsOrderly ((if b then m else n) w).1
either true m n w h k = h
either false m n w h k = k

module _ (env : Machine) where
  cancel-Keeps : (cancel : PbTaskCancel) → Keeps (handle_task_cancel env cancel)
  unfolding handle_task_cancel accept_cancel
  cancel-Keeps cancel = record { run = λ w h. on w w.running_task refl h }
    where
      on :
          (w : ClientWorld) (running : Option RunningTaskState)
          → w.running_task ≡ running
          → IsOrderly w
          → IsOrderly (accept_cancel env cancel running w).1
      on w none e h = h
      on w (some task) e h =
          either (not (task.task_id == cancel.task_id)) done (cancel_running env cancel.reason task)
            w h (cancel_running-Keeps env cancel.reason task w e h)

  pulled-Keeps :
      (config : ClientConfig) (tasks : List PbTaskAssignment)
      → Keeps (start_pulled env config tasks)
  unfolding start_pulled
  pulled-Keeps config [] = return-Keeps tt
  pulled-Keeps config (task ∷ tasks) = assignment-Keeps env config task

  task_topic-Keeps :
      (config : ClientConfig) (body : Option PayloadBody) → Keeps (on_task_topic env config body)
  unfolding on_task_topic
  task_topic-Keeps config (some (PayloadBody.task_assignment task)) =
      assignment-Keeps env config task
  task_topic-Keeps config _ = return-Keeps tt

  control_topic-Keeps :
      (config : ClientConfig) (body : Option PayloadBody) → Keeps (on_control_topic env config body)
  unfolding on_control_topic
  control_topic-Keeps config (some (PayloadBody.task_pull_response response)) =
      pulled-Keeps config response.tasks
  control_topic-Keeps config (some (PayloadBody.task_cancel cancel)) = cancel-Keeps cancel
  control_topic-Keeps config _ = return-Keeps tt

  on_publish-Keeps :
      (config : ClientConfig) (topic : String) (decoded : Result String PbNodePayloadEnvelope)
      → Keeps (on_publish env config topic decoded)
  unfolding on_publish
  on_publish-Keeps config topic (err error) = throw-Keeps error
  on_publish-Keeps config topic (ok payload) =
      if-Keeps (str_eq topic (node_task_topic config.node_id))
        (task_topic-Keeps config payload.body)
        (if-Keeps (str_eq topic (node_control_topic config.node_id))
          (control_topic-Keeps config payload.body) (return-Keeps tt))

  frame-Keeps : (config : ClientConfig) (body : Option FrameBody) → Keeps (on_frame env config body)
  unfolding on_frame
  frame-Keeps config (some (FrameBody.publish publish)) = on_publish-Keeps config publish.topic _
  frame-Keeps config (some (FrameBody.ping_req request)) = send-Keeps env _
  frame-Keeps config _ = return-Keeps tt

  binary-Keeps :
      (config : ClientConfig) (bytes : List ℕ) → Keeps (on_binary_message env config bytes)
  unfolding on_binary_message on_decoded
  binary-Keeps config bytes = on (env.prost.frame.decode bytes)
    where
      on : (decoded : Result String PbMqttFrame) → Keeps (on_decoded env config decoded)
      on (err error) = throw-Keeps error
      on (ok frame) = frame-Keeps config frame.body

  -- The wait for the child that runs.
  reaped-IsOrderly :
      (task : RunningTaskState) (w : ClientWorld)
      → w.running_task ≡ some task
      → IsOrderly w
      → IsOrderly (set_running none (noted (Effect.reaped task.task_id task.runner.child) w))
  unfolding IsOrderly running_after
  reaped-IsOrderly task w e h =
      rw h (rw e (ground (arith, ==_refl task.task_id, ==_refl task.runner.child)))

  progress-Keeps :
      (node_id : String) (waited : Result String Bool) (ending : Ending)
      → Keeps (progress env node_id waited ending)
  unfolding progress running_task_finished complete_task
  progress-Keeps node_id waited ending = record { run = λ w h. on w w.running_task refl waited h }
    where
      on :
          (w : ClientWorld) (running : Option RunningTaskState)
          → w.running_task ≡ running
          → (waited : Result String Bool) → IsOrderly w
          → IsOrderly (running_task_finished env node_id waited ending running w).1
      on w none e waited h = h
      on w (some task) e (err error) h = h
      on w (some task) e (ok false) h = h
      on w (some task) e (ok true) h =
          (then-Keeps (result-Keeps env node_id task.task_id _) (λ _. pull-Keeps env node_id)).run _
            (reaped-IsOrderly task w e h)

  module _ (pong_link : List ℕ → Option String) where
    pong-Keeps : (payload : List ℕ) → Keeps (send_pong env pong_link payload)
    unfolding send_pong running_after
    pong-Keeps payload = record {
      run = λ w h. taken-Keeps (Effect.ponged payload) w (pong_link payload) refl h;
    }

    answered-Keeps :
        (answer : Option (Result String (Unit {0}))) {rest : Action Unit}
        → Keeps rest
        → Keeps (answered env answer rest)
    answered-Keeps none h = record { run = λ w k. h.run w k }
    answered-Keeps (some result) h = record { run = λ w k. k }

    connack-Keeps :
        (messages : List (Result String WsMessage))
        → Keeps (wait_for_connack env pong_link messages)
    unfolding wait_for_connack
    connack-Keeps [] = throw-Keeps _
    connack-Keeps (err error ∷ messages) = throw-Keeps error
    connack-Keeps (ok (WsMessage.binary bytes) ∷ messages) =
        answered-Keeps (connack_of env (env.prost.frame.decode bytes)) (connack-Keeps messages)
    connack-Keeps (ok WsMessage.close ∷ messages) = return-Keeps tt
    connack-Keeps (ok (WsMessage.ping payload) ∷ messages) =
        then-Keeps (pong-Keeps payload) (λ _. connack-Keeps messages)
    connack-Keeps (ok WsMessage.pong ∷ messages) = connack-Keeps messages
    connack-Keeps (ok WsMessage.text ∷ messages) = connack-Keeps messages
    connack-Keeps (ok WsMessage.raw ∷ messages) = connack-Keeps messages

    at_end-IsOrderly :
        (w : ClientWorld) (running : Option RunningTaskState)
        → w.running_task ≡ running
        → IsOrderly w
        → IsOrderly (cancel_at_end env running w).1
    unfolding cancel_at_end
    at_end-IsOrderly w none e h = h
    at_end-IsOrderly w (some task) e h = cancel_running-Keeps env _ task w e h

    leave-Keeps : Keeps (leave_session env)
    unfolding leave_session
    leave-Keeps = record {
      run = λ w h.
          continue_lem {M = IsOrderly} {Q = IsOrderly} _ (cancel_at_end env w.running_task w)
            (λ v k. k) (λ _. return-Keeps over) (at_end-IsOrderly w w.running_task refl h);
    }

    message-Keeps :
        (config : ClientConfig) (item : WsMessage) → Keeps (on_message env pong_link config item)
    unfolding on_message
    message-Keeps config (WsMessage.binary bytes) =
        then-Keeps (binary-Keeps config bytes) (λ _. return-Keeps again)
    message-Keeps config (WsMessage.ping payload) =
        then-Keeps (pong-Keeps payload) (λ _. return-Keeps again)
    message-Keeps config WsMessage.close = leave-Keeps
    message-Keeps config WsMessage.pong = return-Keeps again
    message-Keeps config WsMessage.text = return-Keeps again
    message-Keeps config WsMessage.raw = return-Keeps again

    event-Keeps :
        (config : ClientConfig) (event : ClientEvent) → Keeps (on_event env pong_link config event)
    unfolding on_event
    event-Keeps config (ClientEvent.heartbeat now) =
        then-Keeps (send-Keeps env _) (λ _. return-Keeps again)
    event-Keeps config (ClientEvent.progress_tick waited ending) =
        then-Keeps (progress-Keeps config.node_id waited ending) (λ _. return-Keeps again)
    event-Keeps config (ClientEvent.message (err error)) = throw-Keeps error
    event-Keeps config (ClientEvent.message (ok item)) = message-Keeps config item
    event-Keeps config ClientEvent.ended = leave-Keeps

    events-Keeps :
        (config : ClientConfig) (events : List ClientEvent)
        → Keeps (run_events env pong_link config events)
    unfolding run_events
    events-Keeps config [] = return-Keeps tt
    events-Keeps config (event ∷ events) =
        then-Keeps (event-Keeps config event) (next (events-Keeps config events))
      where
        next :
            {rest : Action Unit}
            → Keeps rest
            → (turn : ClientTurn) → Keeps (next_turn env rest turn)
        next h again = h
        next h over = return-Keeps tt

    introduce-Keeps :
        (host os arch : String) (config : ClientConfig) → Keeps (introduce env host os arch config)
    unfolding introduce
    introduce-Keeps host os arch config = then-Keeps (send-Keeps env _) (λ _.
        then-Keeps (publish-Keeps env _ _)
          (λ _. then-Keeps (publish-Keeps env _ _) (λ _. pull-Keeps env config.node_id)))

    -- Whatever the server sends, however the sockets, spawns, kills and waits answer, and wherever the
    -- session fails: a child is launched only when none runs, only the child that runs is killed or
    -- waited for, and the child that runs at the end is the one that the session holds.
    pub run_ws_session-IsOrderly :
        (host os arch : String) (config : ClientConfig) (answers : List (Result String WsMessage))
        (events : List ClientEvent) (w : ClientWorld)
        → IsOrderly w
        → IsOrderly (run_ws_session env pong_link host os arch config answers events w).1
    unfolding run_ws_session
    run_ws_session-IsOrderly host os arch config answers events w h =
        (then-Keeps (send-Keeps env _) (λ _. then-Keeps (connack-Keeps answers) (λ _.
            then-Keeps (introduce-Keeps host os arch config)
              (λ _. events-Keeps config events)))).run
          w h
