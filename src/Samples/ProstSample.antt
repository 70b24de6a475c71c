-- ===== src/Samples/ProstSample.antt =====
-- Streams of numbers for the two messages of the socket, which decode to what was encoded.
use ruchat.Prelude.{ℕ, ◌≡◌, refl, List, [], ◌⊎◌, inl, inr}
use ruchat.Prelude.Result.{ok}
use ruchat.Protocol.Wire.{
  PbCommandCatalog, PbClientHello, PbSessionInfo, PbTaskAssignment, PbTaskPullRequest,
  PbTaskPullResponse, PbTaskAck, PbTaskCancel, PbTaskResult, PbNodeError, PbNodePayloadEnvelope,
  PbMqttConnect, PbMqttConnAck, PbMqttSubscribe, PbMqttSubAck, PbMqttPublish, PbMqttPingReq,
  PbMqttPingResp, PbMqttFrame, PayloadBody, client_hello, task_assignment, task_result, task_ack,
  task_cancel, node_error, session_info, command_catalog, task_pull_request, task_pull_response,
  FrameBody, connect, conn_ack, subscribe, sub_ack, publish, ping_req, ping_resp,
}
use ruchat.Protocol.Codec.{Codec, Prost}
use ruchat.Samples.Serial.{Serial, via, choice}
use ruchat.Samples.JsonSample.{finished, option}
use ruchat.Samples.MessageSamples.{
  pb_command_catalog, pb_client_hello, pb_session_info, pb_task_assignment, pb_task_pull_request,
  pb_task_pull_response, pb_task_ack, pb_task_cancel, pb_task_result, pb_node_error,
  pb_mqtt_connect, pb_mqtt_conn_ack, pb_mqtt_subscribe, pb_mqtt_sub_ack, pb_mqtt_publish,
  pb_mqtt_ping_req, pb_mqtt_ping_resp,
}

unfoldable pub payload_body_to_sum :
    PayloadBody
    → PbClientHello
      ⊎ (PbTaskAssignment
          ⊎ (PbTaskResult
              ⊎ (PbTaskAck
                  ⊎ (PbTaskCancel
                      ⊎ (PbNodeError
                          ⊎ (PbSessionInfo
                              ⊎ (PbCommandCatalog ⊎ (PbTaskPullRequest ⊎ PbTaskPullResponse))))))))
payload_body_to_sum (client_hello v) = inl v
payload_body_to_sum (task_assignment v) = inr (inl v)
payload_body_to_sum (task_result v) = inr (inr (inl v))
payload_body_to_sum (task_ack v) = inr (inr (inr (inl v)))
payload_body_to_sum (task_cancel v) = inr (inr (inr (inr (inl v))))
payload_body_to_sum (node_error v) = inr (inr (inr (inr (inr (inl v)))))
payload_body_to_sum (session_info v) = inr (inr (inr (inr (inr (inr (inl v))))))
payload_body_to_sum (command_catalog v) = inr (inr (inr (inr (inr (inr (inr (inl v)))))))
payload_body_to_sum (task_pull_request v) = inr (inr (inr (inr (inr (inr (inr (inr (inl v))))))))
payload_body_to_sum (task_pull_response v) = inr (inr (inr (inr (inr (inr (inr (inr (inr v))))))))

unfoldable pub payload_body_of_sum :
    PbClientHello
      ⊎ (PbTaskAssignment
          ⊎ (PbTaskResult
              ⊎ (PbTaskAck
                  ⊎ (PbTaskCancel
                      ⊎ (PbNodeError
                          ⊎ (PbSessionInfo
                              ⊎ (PbCommandCatalog ⊎ (PbTaskPullRequest ⊎ PbTaskPullResponse))))))))
    → PayloadBody
payload_body_of_sum (inl v) = client_hello v
payload_body_of_sum (inr (inl v)) = task_assignment v
payload_body_of_sum (inr (inr (inl v))) = task_result v
payload_body_of_sum (inr (inr (inr (inl v)))) = task_ack v
payload_body_of_sum (inr (inr (inr (inr (inl v))))) = task_cancel v
payload_body_of_sum (inr (inr (inr (inr (inr (inl v)))))) = node_error v
payload_body_of_sum (inr (inr (inr (inr (inr (inr (inl v))))))) = session_info v
payload_body_of_sum (inr (inr (inr (inr (inr (inr (inr (inl v)))))))) = command_catalog v
payload_body_of_sum (inr (inr (inr (inr (inr (inr (inr (inr (inl v))))))))) = task_pull_request v
payload_body_of_sum (inr (inr (inr (inr (inr (inr (inr (inr (inr v))))))))) = task_pull_response v

pub payload_body_of_sum-to_sum : (b : PayloadBody) → payload_body_of_sum (payload_body_to_sum b) ≡ b
unfolding payload_body_of_sum payload_body_to_sum
payload_body_of_sum-to_sum (client_hello v) = refl
payload_body_of_sum-to_sum (task_assignment v) = refl
payload_body_of_sum-to_sum (task_result v) = refl
payload_body_of_sum-to_sum (task_ack v) = refl
payload_body_of_sum-to_sum (task_cancel v) = refl
payload_body_of_sum-to_sum (node_error v) = refl
payload_body_of_sum-to_sum (session_info v) = refl
payload_body_of_sum-to_sum (command_catalog v) = refl
payload_body_of_sum-to_sum (task_pull_request v) = refl
payload_body_of_sum-to_sum (task_pull_response v) = refl

abbrev payload_body : Serial PayloadBody
payload_body = via payload_body_to_sum payload_body_of_sum payload_body_of_sum-to_sum (
    choice pb_client_hello (
      choice pb_task_assignment (
        choice pb_task_result (
          choice pb_task_ack (
            choice pb_task_cancel (
              choice pb_node_error (
                choice pb_session_info (
                  choice pb_command_catalog
                    (choice pb_task_pull_request pb_task_pull_response)))))))))

unfoldable pub frame_body_to_sum :
    FrameBody
    → PbMqttConnect
      ⊎ (PbMqttConnAck
          ⊎ (PbMqttSubscribe ⊎ (PbMqttSubAck ⊎ (PbMqttPublish ⊎ (PbMqttPingReq ⊎ PbMqttPingResp)))))
frame_body_to_sum (connect v) = inl v
frame_body_to_sum (conn_ack v) = inr (inl v)
frame_body_to_sum (subscribe v) = inr (inr (inl v))
frame_body_to_sum (sub_ack v) = inr (inr (inr (inl v)))
frame_body_to_sum (publish v) = inr (inr (inr (inr (inl v))))
frame_body_to_sum (ping_req v) = inr (inr (inr (inr (inr (inl v)))))
frame_body_to_sum (ping_resp v) = inr (inr (inr (inr (inr (inr v)))))

unfoldable pub frame_body_of_sum :
    PbMqttConnect
      ⊎ (PbMqttConnAck
          ⊎ (PbMqttSubscribe ⊎ (PbMqttSubAck ⊎ (PbMqttPublish ⊎ (PbMqttPingReq ⊎ PbMqttPingResp)))))
    → FrameBody
frame_body_of_sum (inl v) = connect v
frame_body_of_sum (inr (inl v)) = conn_ack v
frame_body_of_sum (inr (inr (inl v))) = subscribe v
frame_body_of_sum (inr (inr (inr (inl v)))) = sub_ack v
frame_body_of_sum (inr (inr (inr (inr (inl v))))) = publish v
frame_body_of_sum (inr (inr (inr (inr (inr (inl v)))))) = ping_req v
frame_body_of_sum (inr (inr (inr (inr (inr (inr v)))))) = ping_resp v

pub frame_body_of_sum-to_sum : (b : FrameBody) → frame_body_of_sum (frame_body_to_sum b) ≡ b
unfolding frame_body_of_sum frame_body_to_sum
frame_body_of_sum-to_sum (connect v) = refl
frame_body_of_sum-to_sum (conn_ack v) = refl
frame_body_of_sum-to_sum (subscribe v) = refl
frame_body_of_sum-to_sum (sub_ack v) = refl
frame_body_of_sum-to_sum (publish v) = refl
frame_body_of_sum-to_sum (ping_req v) = refl
frame_body_of_sum-to_sum (ping_resp v) = refl

abbrev frame_body : Serial FrameBody
frame_body = via frame_body_to_sum frame_body_of_sum frame_body_of_sum-to_sum (
    choice pb_mqtt_connect (
      choice pb_mqtt_conn_ack (
        choice pb_mqtt_subscribe (
          choice pb_mqtt_sub_ack
            (choice pb_mqtt_publish (choice pb_mqtt_ping_req pb_mqtt_ping_resp))))))

abbrev payload : Serial PbNodePayloadEnvelope
payload = via (λ v. v.body) (λ t. record { body = t }) (λ v. refl) (option payload_body)

abbrev frame : Serial PbMqttFrame
frame = via (λ v. v.body) (λ t. record { body = t }) (λ v. refl) (option frame_body)

module _ {A : Type 0} (sa : Serial A) where
  pub decode_stream-print : (a : A) → finished (sa.parse (sa.print a [])) ≡ ok a
  unfolding finished
  decode_stream-print a = rw (sa.parse-print a [])

  abbrev codec : Codec (List ℕ) A
  codec = record {
    encode = λ a. sa.print a [];
    decode = λ bytes. finished (sa.parse bytes);
    decode-encode = decode_stream-print;
  }

abbrev pub sample_prost : Prost
sample_prost = record { frame = codec frame; payload = codec payload }
