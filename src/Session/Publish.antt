-- ===== src/Session/Publish.antt =====
-- apps/command-server/src/session.rs: a frame from the node, by the kind of its body, and a published
-- message, by its topic.
use ruchat.Prelude.{
  ℕ, String, true, Option, none, some, List, [], ◌∷◌, not, ◌==◌, str_eq, if◌then◌else◌,
}
use ruchat.Prelude.Maps.{contains, insert_item}
use ruchat.Prelude.Result.{Result, ok, err}
use ruchat.Protocol.Domain.{CommandDescriptor, SessionEventKind, node_registered, NodeSnapshot}
use ruchat.Protocol.Wire.{
  PayloadBody, FrameBody, PbMqttFrame, PbMqttPublish, PbMqttSubscribe, PbClientHello,
  PbCommandCatalog, PbCommandDescriptor, PbTaskAck, PbTaskResult, PbNodePayloadEnvelope,
}
use ruchat.Protocol.Topic.{node_hello_topic, node_control_topic, node_ack_topic, node_result_topic}
use ruchat.Protocol.Conversions.{descriptor_from_pb, registration_from_hello, result_from_pb}
use ruchat.Db.Tasks.{requeue_incomplete_tasks, acknowledge_task, submit_task_result}
use ruchat.Db.Nodes.{register_node, update_node_commands}
use ruchat.Db.Events.{record_session_event}
use ruchat.Session.World.{
  InFlightTask, Outside, World, Action, invalid_data, unix_now, store, attempt, ◌>>=◌, ◌>>◌, done,
  throw, modify,
}
use ruchat.Session.Frames.{send_mqtt_frame, publish_error, publish_session_info}
use ruchat.Session.Dispatch.{
  set_in_flight, try_dispatch_next_task, respond_to_task_pull, task_result_should_be_ignored,
}

abbrev pub catalog_commands : List PbCommandDescriptor → List CommandDescriptor
catalog_commands [] = []
catalog_commands (c ∷ cs) = descriptor_from_pb c ∷ catalog_commands cs

abbrev subscribe_all : List String → List String → List String
subscribe_all [] subscriptions = subscriptions
subscribe_all (topic ∷ topics) subscriptions =
    subscribe_all topics (insert_item topic subscriptions)

abbrev pub set_registered : World → World
set_registered w = record w { registered = true }

unfoldable pub add_topics : List String → World → World
add_topics topics w = record w { subscriptions = subscribe_all topics w.subscriptions }

module _ (env : Outside) where
  -- `let _ = state.db.record_session_event(…)`
  unfoldable pub record_event : String → SessionEventKind → String → Action Unit
  record_event node_id kind message =
      attempt (unix_now env >>= λ now. store (record_session_event now node_id kind message))

  unfoldable pub accept_hello : String → PbClientHello → Action Unit
  accept_hello node_id hello = do
    _ ← store (λ db. (ok tt, requeue_incomplete_tasks node_id "node re-registered" db))
    now ← unix_now env
    _ ← store (register_node env.json now (registration_from_hello hello))
    _ ← record_event node_id node_registered "client hello accepted"
    _ ← modify set_registered
    try_dispatch_next_task env node_id

  unfoldable pub catalog_stored : String → Option NodeSnapshot → Action Unit
  catalog_stored node_id none =
      publish_error env node_id "command catalog received before registration"
  catalog_stored node_id (some node) = done

  unfoldable pub accept_catalog : String → PbCommandCatalog → Action Unit
  unfolding catalog_stored
  accept_catalog node_id catalog = do
    now ← unix_now env
    node ← store (update_node_commands env.json now node_id (catalog_commands catalog.commands))
    catalog_stored node_id node

  unfoldable pub handle_hello_topic : String → Option PayloadBody → Action Unit
  unfolding accept_catalog
  handle_hello_topic node_id (some (PayloadBody.client_hello hello)) =
      if str_eq hello.node_id node_id
      then accept_hello node_id hello
      else publish_error env node_id "node_id mismatch in hello payload"
  handle_hello_topic node_id (some (PayloadBody.command_catalog catalog)) =
      accept_catalog node_id catalog
  handle_hello_topic node_id _ =
      publish_error env node_id "hello topic requires client hello or command catalog payload"

  unfoldable pub handle_control_topic : String → Option PayloadBody → Action Unit
  handle_control_topic node_id (some (PayloadBody.task_pull_request request)) =
      respond_to_task_pull env node_id request
  handle_control_topic node_id (some (PayloadBody.node_error _)) = done
  handle_control_topic node_id (some (PayloadBody.task_cancel _)) = done
  handle_control_topic node_id (some (PayloadBody.session_info _)) = done
  handle_control_topic node_id (some (PayloadBody.task_pull_response _)) = done
  handle_control_topic node_id _ = publish_error env node_id "unsupported payload on control topic"

  unfoldable pub accept_ack : String → PbTaskAck → Option InFlightTask → Action Unit
  accept_ack node_id ack none =
      publish_error env node_id "unexpected task ack without in-flight task"
  accept_ack node_id ack (some current_task) =
      if not (current_task.task_id == ack.task_id)
      then publish_error env node_id "unexpected task ack id"
      else if current_task.ignore_result
      then done
      else do
        now ← unix_now env
        _ ← store (acknowledge_task env.json now ack.task_id node_id)
        done

  unfoldable pub handle_ack_topic : String → Option PayloadBody → Action Unit
  unfolding accept_ack
  handle_ack_topic node_id (some (PayloadBody.task_ack ack)) w =
      accept_ack node_id ack w.in_flight_task w
  handle_ack_topic node_id _ w = publish_error env node_id "ack topic requires task ack payload" w

  -- A result that no task in flight waits for.
  unfoldable pub stray_result : String → PbTaskResult → String → Action Unit
  stray_result node_id result message = do
    ignored ← task_result_should_be_ignored env result.task_id
    if ignored then done else publish_error env node_id message

  -- The end of the task in flight.
  unfoldable pub finish_in_flight : String → Action Unit
  finish_in_flight node_id = modify (set_in_flight none) >> try_dispatch_next_task env node_id

  unfoldable pub accept_result : String → PbTaskResult → Option InFlightTask → Action Unit
  unfolding stray_result finish_in_flight
  accept_result node_id result none =
      stray_result node_id result "unexpected task result without in-flight task"
  accept_result node_id result (some current_task) =
      if not (current_task.task_id == result.task_id)
      then stray_result node_id result "unexpected task result id"
      else if current_task.ignore_result
      then finish_in_flight node_id
      else do
        now ← unix_now env
        _ ← store (
            submit_task_result env.json now result.task_id
              (record { node_id = node_id; result = result_from_pb result }))
        finish_in_flight node_id

  unfoldable pub handle_result_topic : String → Option PayloadBody → Action Unit
  unfolding accept_result
  handle_result_topic node_id (some (PayloadBody.task_result result)) w =
      accept_result node_id result w.in_flight_task w
  handle_result_topic node_id _ w =
      publish_error env node_id "result topic requires task result payload" w

  unfoldable pub by_topic : String → String → Option PayloadBody → Action Unit
  by_topic node_id topic body =
      if str_eq topic (node_hello_topic node_id)
      then handle_hello_topic node_id body
      else if str_eq topic (node_control_topic node_id)
      then handle_control_topic node_id body
      else if str_eq topic (node_ack_topic node_id)
      then handle_ack_topic node_id body
      else if str_eq topic (node_result_topic node_id)
      then handle_result_topic node_id body
      else done

  unfoldable pub decoded_payload :
      String → String → Result String PbNodePayloadEnvelope → Action Unit
  unfolding by_topic
  decoded_payload node_id topic (err message) = throw (invalid_data message)
  decoded_payload node_id topic (ok payload) = by_topic node_id topic payload.body

  unfoldable pub handle_publish : String → PbMqttPublish → Action Unit
  unfolding decoded_payload
  handle_publish node_id publish =
      decoded_payload node_id publish.topic (env.prost.payload.decode publish.payload)

  -- The part behind the insertion of the topics.
  unfoldable pub answer_subscribe : String → World → Action Unit
  answer_subscribe node_id w = do
    _ ←
        send_mqtt_frame env
          (record { body = some (FrameBody.sub_ack (record { topics = w.subscriptions })) })
    _ ←
        (if contains (node_control_topic node_id) w.subscriptions
          then publish_session_info env node_id w.state.heartbeat_interval_secs
          else done)
    try_dispatch_next_task env node_id

  unfoldable pub accept_subscribe : String → PbMqttSubscribe → Action Unit
  unfolding answer_subscribe
  accept_subscribe node_id subscribe =
      modify (add_topics subscribe.topics) >> λ w. answer_subscribe node_id w w

  unfoldable pub handle_body : String → Option FrameBody → Action Unit
  unfolding accept_subscribe
  handle_body node_id (some (FrameBody.subscribe subscribe)) = accept_subscribe node_id subscribe
  handle_body node_id (some (FrameBody.publish publish)) = handle_publish node_id publish
  handle_body node_id (some (FrameBody.ping_req request)) =
      send_mqtt_frame env
        (record { body = some (FrameBody.ping_resp (record { unix_secs = request.unix_secs })) })
  handle_body node_id _ = done

  unfoldable pub decoded_frame : String → Result String PbMqttFrame → Action Unit
  unfolding handle_body
  decoded_frame node_id (err message) = throw (invalid_data message)
  decoded_frame node_id (ok frame) = handle_body node_id frame.body

  unfoldable pub handle_binary_message : String → List ℕ → Action Unit
  unfolding decoded_frame
  handle_binary_message node_id bytes = decoded_frame node_id (env.prost.frame.decode bytes)
