-- ===== src/Session/Handlers.antt =====
-- What a node publishes changes the shared store by operations of the store only, and so does the
-- whole session.
use ruchat.Prelude.{ℕ, String, refl, not, ◌==◌, str_eq, Option, none, some, List}
use ruchat.Prelude.Maps.{contains}
use ruchat.Prelude.Result.{Result, ok, err}
use ruchat.Protocol.Domain.{NodeSnapshot}
use ruchat.Protocol.Topic.{node_hello_topic, node_control_topic, node_ack_topic, node_result_topic}
use ruchat.Protocol.Conversions.{result_from_pb}
use ruchat.Protocol.Wire.{
  PayloadBody, FrameBody, PbMqttFrame, PbMqttPublish, PbMqttSubscribe, PbCommandCatalog, PbTaskAck,
  PbTaskResult, PbNodePayloadEnvelope,
}
use ruchat.Db.Ops.{Op}
use ruchat.Session.World.{InFlightTask, Outside, World, Action, ◌>>=◌}
use ruchat.Session.Frames.{publish_session_info}
use ruchat.Session.Publish.{
  handle_publish, handle_binary_message, catalog_stored, accept_catalog, catalog_commands,
  handle_hello_topic, handle_control_topic, accept_ack, handle_ack_topic, stray_result,
  finish_in_flight, accept_result, handle_result_topic, by_topic, decoded_payload, answer_subscribe,
  add_topics, accept_subscribe, handle_body, decoded_frame,
}
use ruchat.Session.Stores.{bind-Runs, Stores-order, if-Runs, untouched-Runs, store-Runs}
use ruchat.Session.Ops.{
  Keeps, of_world, done-Keeps, modify-Keeps, unix_now-Keeps, send-Keeps, publish_error-Keeps,
  hello-Keeps, pull-Keeps, try_dispatch-Keeps, ignored-Keeps,
}

module _ (env : Outside) where
  infixl 5 ◌>>>◌
  ◌>>>◌ :
      {A B : Type 0} {m : Action A} {f : A → Action B}
      → Keeps env m
      → ((a : A) → Keeps env (f a))
      → Keeps env (m >>= f)
  h >>> k = bind-Runs (Stores-order env) h k

  catalog_stored-Keeps :
      (node_id : String) (node : Option NodeSnapshot) → Keeps env (catalog_stored env node_id node)
  unfolding catalog_stored
  catalog_stored-Keeps node_id none = publish_error-Keeps env node_id _
  catalog_stored-Keeps node_id (some node) = done-Keeps env

  catalog-Keeps :
      (node_id : String) (catalog : PbCommandCatalog)
      → Keeps env (accept_catalog env node_id catalog)
  unfolding accept_catalog
  catalog-Keeps node_id catalog = unix_now-Keeps env >>> λ now.
      store-Runs env _ (Op.update_commands now node_id (catalog_commands catalog.commands))
        (λ db. refl)
      >>> catalog_stored-Keeps node_id

  hello_topic-Keeps :
      (node_id : String) (body : Option PayloadBody)
      → Keeps env (handle_hello_topic env node_id body)
  unfolding handle_hello_topic
  hello_topic-Keeps node_id (some (PayloadBody.client_hello hello)) =
      if-Runs (str_eq hello.node_id node_id) (hello-Keeps env node_id hello)
        (publish_error-Keeps env node_id _)
  hello_topic-Keeps node_id (some (PayloadBody.command_catalog catalog)) =
      catalog-Keeps node_id catalog
  hello_topic-Keeps node_id _ = publish_error-Keeps env node_id _

  control_topic-Keeps :
      (node_id : String) (body : Option PayloadBody)
      → Keeps env (handle_control_topic env node_id body)
  unfolding handle_control_topic
  control_topic-Keeps node_id (some (PayloadBody.task_pull_request request)) =
      pull-Keeps env node_id request
  control_topic-Keeps node_id (some (PayloadBody.node_error _)) = done-Keeps env
  control_topic-Keeps node_id (some (PayloadBody.task_cancel _)) = done-Keeps env
  control_topic-Keeps node_id (some (PayloadBody.session_info _)) = done-Keeps env
  control_topic-Keeps node_id (some (PayloadBody.task_pull_response _)) = done-Keeps env
  control_topic-Keeps node_id _ = publish_error-Keeps env node_id _

  ack-Keeps :
      (node_id : String) (ack : PbTaskAck) (task : Option InFlightTask)
      → Keeps env (accept_ack env node_id ack task)
  unfolding accept_ack
  ack-Keeps node_id ack none = publish_error-Keeps env node_id _
  ack-Keeps node_id ack (some task) =
      if-Runs (not (task.task_id == ack.task_id)) (publish_error-Keeps env node_id _) (
        if-Runs task.ignore_result (done-Keeps env) (
          unix_now-Keeps env >>> λ now.
          store-Runs env _ (Op.acknowledge now ack.task_id node_id) (λ db. refl) >>> λ _.
          done-Keeps env))

  ack_topic-Keeps :
      (node_id : String) (body : Option PayloadBody) → Keeps env (handle_ack_topic env node_id body)
  unfolding handle_ack_topic
  ack_topic-Keeps node_id (some (PayloadBody.task_ack ack)) =
      of_world env (λ w. ack-Keeps node_id ack w.in_flight_task)
  ack_topic-Keeps node_id _ = publish_error-Keeps env node_id _

  stray-Keeps :
      (node_id : String) (result : PbTaskResult) (text : String)
      → Keeps env (stray_result env node_id result text)
  unfolding stray_result
  stray-Keeps node_id result text = ignored-Keeps env result.task_id >>> λ ignored.
      if-Runs ignored (done-Keeps env) (publish_error-Keeps env node_id text)

  pub finish-Keeps : (node_id : String) → Keeps env (finish_in_flight env node_id)
  unfolding finish_in_flight
  finish-Keeps node_id = modify-Keeps env _ (λ w. refl) >>> λ _. try_dispatch-Keeps env node_id

  result-Keeps :
      (node_id : String) (result : PbTaskResult) (task : Option InFlightTask)
      → Keeps env (accept_result env node_id result task)
  unfolding accept_result
  result-Keeps node_id result none = stray-Keeps node_id result _
  result-Keeps node_id result (some task) =
      if-Runs (not (task.task_id == result.task_id)) (stray-Keeps node_id result _) (
        if-Runs task.ignore_result (finish-Keeps node_id) (
          unix_now-Keeps env >>> λ now.
          store-Runs env _
            (Op.submit now result.task_id
              (record { node_id = node_id; result = result_from_pb result }))
            (λ db. refl)
          >>> λ _. finish-Keeps node_id))

  result_topic-Keeps :
      (node_id : String) (body : Option PayloadBody)
      → Keeps env (handle_result_topic env node_id body)
  unfolding handle_result_topic
  result_topic-Keeps node_id (some (PayloadBody.task_result result)) =
      of_world env (λ w. result-Keeps node_id result w.in_flight_task)
  result_topic-Keeps node_id _ = publish_error-Keeps env node_id _

  topic-Keeps :
      (node_id topic : String) (body : Option PayloadBody)
      → Keeps env (by_topic env node_id topic body)
  unfolding by_topic
  topic-Keeps node_id topic body =
      if-Runs (str_eq topic (node_hello_topic node_id)) (hello_topic-Keeps node_id body) (
        if-Runs (str_eq topic (node_control_topic node_id)) (control_topic-Keeps node_id body) (
          if-Runs (str_eq topic (node_ack_topic node_id)) (ack_topic-Keeps node_id body) (
            if-Runs (str_eq topic (node_result_topic node_id)) (result_topic-Keeps node_id body)
              (done-Keeps env))))

  payload-Keeps :
      (node_id topic : String) (decoded : Result String PbNodePayloadEnvelope)
      → Keeps env (decoded_payload env node_id topic decoded)
  unfolding decoded_payload
  payload-Keeps node_id topic (err text) = untouched-Runs env (λ w. refl)
  payload-Keeps node_id topic (ok payload) = topic-Keeps node_id topic payload.body

  publish-Keeps :
      (node_id : String) (publish : PbMqttPublish) → Keeps env (handle_publish env node_id publish)
  unfolding handle_publish
  publish-Keeps node_id publish = payload-Keeps node_id publish.topic _

  session_info-Keeps :
      (node_id : String) (interval : ℕ) → Keeps env (publish_session_info env node_id interval)
  unfolding publish_session_info
  session_info-Keeps node_id interval =
      unix_now-Keeps env >>> λ opened. unix_now-Keeps env >>> λ now. send-Keeps env _

  answer_subscribe-Keeps :
      (node_id : String) (w : World) → Keeps env (answer_subscribe env node_id w)
  unfolding answer_subscribe
  answer_subscribe-Keeps node_id w = send-Keeps env _ >>> λ _.
      if-Runs (contains (node_control_topic node_id) w.subscriptions) (session_info-Keeps node_id _)
        (done-Keeps env)
      >>> λ _. try_dispatch-Keeps env node_id

  subscribe-Keeps :
      (node_id : String) (subscribe : PbMqttSubscribe)
      → Keeps env (accept_subscribe env node_id subscribe)
  unfolding accept_subscribe
  subscribe-Keeps node_id subscribe =
      modify-Keeps env (add_topics subscribe.topics) (λ w. unfold add_topics in refl) >>> λ _.
      of_world env (answer_subscribe-Keeps node_id)

  body-Keeps :
      (node_id : String) (body : Option FrameBody) → Keeps env (handle_body env node_id body)
  unfolding handle_body
  body-Keeps node_id (some (FrameBody.subscribe subscribe)) = subscribe-Keeps node_id subscribe
  body-Keeps node_id (some (FrameBody.publish publish)) = publish-Keeps node_id publish
  body-Keeps node_id (some (FrameBody.ping_req request)) = send-Keeps env _
  body-Keeps node_id _ = done-Keeps env

  frame-Keeps :
      (node_id : String) (decoded : Result String PbMqttFrame)
      → Keeps env (decoded_frame env node_id decoded)
  unfolding decoded_frame
  frame-Keeps node_id (err text) = untouched-Runs env (λ w. refl)
  frame-Keeps node_id (ok frame) = body-Keeps node_id frame.body

  pub binary-Keeps :
      (node_id : String) (bytes : List ℕ) → Keeps env (handle_binary_message env node_id bytes)
  unfolding handle_binary_message
  binary-Keeps node_id bytes = frame-Keeps node_id _
