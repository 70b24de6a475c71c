-- ===== src/Samples/MessageSamples.antt =====
-- Streams of numbers for the records of the wire, which decode to what was encoded.
use ruchat.Prelude.{refl}
use ruchat.Protocol.Wire.{
  PbCommandDescriptor, PbCommandCatalog, PbClientHello, PbSessionInfo, PbTaskAssignment,
  PbTaskPullRequest, PbTaskPullResponse, PbTaskAck, PbTaskCancel, PbTaskResult, PbNodeError,
  PbMqttConnect, PbMqttConnAck, PbMqttSubscribe, PbMqttSubAck, PbMqttPublish, PbMqttPingReq,
  PbMqttPingResp,
}
use ruchat.Samples.Serial.{Serial, number, pair, via, list, string}
use ruchat.Samples.JsonSample.{bool, option, integer}

abbrev pub pb_command_descriptor : Serial PbCommandDescriptor
pb_command_descriptor =
    via (λ v. (v.name, (v.description, (v.default_args, v.allow_extra_args))))
      (λ t. record {
        name = t.0;
        description = t.1.0;
        default_args = t.1.1.0;
        allow_extra_args = t.1.1.1;
      })
      (λ v. refl) (pair string (pair string (pair (list string) bool)))

abbrev pub pb_command_catalog : Serial PbCommandCatalog
pb_command_catalog =
    via (λ v. v.commands) (λ t. record { commands = t }) (λ v. refl) (list pb_command_descriptor)

abbrev pub pb_client_hello : Serial PbClientHello
pb_client_hello =
    via (λ v. (v.node_id, (v.hostname, (v.platform, v.poll_interval_secs))))
      (λ t. record {
        node_id = t.0;
        hostname = t.1.0;
        platform = t.1.1.0;
        poll_interval_secs = t.1.1.1;
      })
      (λ v. refl) (pair string (pair string (pair string number)))

abbrev pub pb_session_info : Serial PbSessionInfo
pb_session_info =
    via
      (λ v. (
        v.session_id,
        (
          v.node_id,
          (
            v.heartbeat_interval_secs,
            (v.max_result_output_bytes, (v.protocol_version, v.server_unix_secs)),
          ),
        ),
      ))
      (λ t. record {
        session_id = t.0;
        node_id = t.1.0;
        heartbeat_interval_secs = t.1.1.0;
        max_result_output_bytes = t.1.1.1.0;
        protocol_version = t.1.1.1.1.0;
        server_unix_secs = t.1.1.1.1.1;
      })
      (λ v. refl) (pair string (pair string (pair number (pair number (pair string number)))))

abbrev pub pb_task_assignment : Serial PbTaskAssignment
pb_task_assignment =
    via
      (λ v. (
        v.task_id,
        (v.command_name, (v.args, (v.created_at_unix_secs, (v.timeout_secs, v.attempt)))),
      ))
      (λ t. record {
        task_id = t.0;
        command_name = t.1.0;
        args = t.1.1.0;
        created_at_unix_secs = t.1.1.1.0;
        timeout_secs = t.1.1.1.1.0;
        attempt = t.1.1.1.1.1;
      })
      (λ v. refl)
      (pair number (pair string (pair (list string) (pair number (pair (option number) number)))))

abbrev pub pb_task_pull_request : Serial PbTaskPullRequest
pb_task_pull_request =
    via (λ v. (v.node_id, v.limit)) (λ t. record { node_id = t.0; limit = t.1 }) (λ v. refl)
      (pair string number)

abbrev pub pb_task_pull_response : Serial PbTaskPullResponse
pb_task_pull_response =
    via (λ v. v.tasks) (λ t. record { tasks = t }) (λ v. refl) (list pb_task_assignment)

abbrev pub pb_task_ack : Serial PbTaskAck
pb_task_ack = via (λ v. v.task_id) (λ t. record { task_id = t }) (λ v. refl) (number)

abbrev pub pb_task_cancel : Serial PbTaskCancel
pb_task_cancel =
    via (λ v. (v.task_id, v.reason)) (λ t. record { task_id = t.0; reason = t.1 }) (λ v. refl)
      (pair number (option string))

abbrev pub pb_task_result : Serial PbTaskResult
pb_task_result =
    via
      (λ v. (
        v.task_id,
        (
          v.success,
          (
            v.exit_code,
            (
              v.stdout,
              (v.stderr, (v.duration_ms, (v.error, (v.stdout_truncated, v.stderr_truncated)))),
            ),
          ),
        ),
      ))
      (λ t. record {
        task_id = t.0;
        success = t.1.0;
        exit_code = t.1.1.0;
        stdout = t.1.1.1.0;
        stderr = t.1.1.1.1.0;
        duration_ms = t.1.1.1.1.1.0;
        error = t.1.1.1.1.1.1.0;
        stdout_truncated = t.1.1.1.1.1.1.1.0;
        stderr_truncated = t.1.1.1.1.1.1.1.1;
      })
      (λ v. refl)
      (pair number (
        pair bool (
          pair (option integer)
            (pair string (pair string (pair number (pair (option string) (pair bool bool))))))))

abbrev pub pb_node_error : Serial PbNodeError
pb_node_error = via (λ v. v.message) (λ t. record { message = t }) (λ v. refl) (string)

abbrev pub pb_mqtt_connect : Serial PbMqttConnect
pb_mqtt_connect =
    via (λ v. (v.client_id, (v.clean_session, v.auth_token)))
      (λ t. record { client_id = t.0; clean_session = t.1.0; auth_token = t.1.1 }) (λ v. refl)
      (pair string (pair bool string))

abbrev pub pb_mqtt_conn_ack : Serial PbMqttConnAck
pb_mqtt_conn_ack =
    via (λ v. (v.accepted, v.message)) (λ t. record { accepted = t.0; message = t.1 }) (λ v. refl)
      (pair bool string)

abbrev pub pb_mqtt_subscribe : Serial PbMqttSubscribe
pb_mqtt_subscribe = via (λ v. v.topics) (λ t. record { topics = t }) (λ v. refl) (list string)

abbrev pub pb_mqtt_sub_ack : Serial PbMqttSubAck
pb_mqtt_sub_ack = via (λ v. v.topics) (λ t. record { topics = t }) (λ v. refl) (list string)

abbrev pub pb_mqtt_publish : Serial PbMqttPublish
pb_mqtt_publish =
    via (λ v. (v.topic, v.payload)) (λ t. record { topic = t.0; payload = t.1 }) (λ v. refl)
      (pair string (list number))

abbrev pub pb_mqtt_ping_req : Serial PbMqttPingReq
pb_mqtt_ping_req = via (λ v. v.unix_secs) (λ t. record { unix_secs = t }) (λ v. refl) (number)

abbrev pub pb_mqtt_ping_resp : Serial PbMqttPingResp
pb_mqtt_ping_resp = via (λ v. v.unix_secs) (λ t. record { unix_secs = t }) (λ v. refl) (number)
