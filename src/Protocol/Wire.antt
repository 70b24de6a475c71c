-- ===== src/Protocol/Wire.antt =====
-- crates/command-protocol/src/pb.rs and mqtt.rs: the messages on the socket. A `oneof` is a data
-- type, and its absence `none`.
use ruchat.Prelude.{ℕ, String, Bool, Option, List}
use ruchat.Protocol.Domain.{ℤ}

pub record PbCommandDescriptor : Type 0 where
  pub name : String
  pub description : String
  pub default_args : List String
  pub allow_extra_args : Bool

pub record PbCommandCatalog : Type 0 where
  pub commands : List PbCommandDescriptor

pub record PbClientHello : Type 0 where
  pub node_id : String
  pub hostname : String
  pub platform : String
  pub poll_interval_secs : ℕ

pub record PbSessionInfo : Type 0 where
  pub session_id : String
  pub node_id : String
  pub heartbeat_interval_secs : ℕ
  pub max_result_output_bytes : ℕ
  pub protocol_version : String
  pub server_unix_secs : ℕ

pub record PbTaskAssignment : Type 0 where
  pub task_id : ℕ
  pub command_name : String
  pub args : List String
  pub created_at_unix_secs : ℕ
  pub timeout_secs : Option ℕ
  pub attempt : ℕ

pub record PbTaskPullRequest : Type 0 where
  pub node_id : String
  pub limit : ℕ

pub record PbTaskPullResponse : Type 0 where
  pub tasks : List PbTaskAssignment

pub record PbTaskAck : Type 0 where
  pub task_id : ℕ

pub record PbTaskCancel : Type 0 where
  pub task_id : ℕ
  pub reason : Option String

pub record PbTaskResult : Type 0 where
  pub task_id : ℕ
  pub success : Bool
  pub exit_code : Option ℤ
  pub stdout : String
  pub stderr : String
  pub duration_ms : ℕ
  pub error : Option String
  pub stdout_truncated : Bool
  pub stderr_truncated : Bool

pub record PbNodeError : Type 0 where
  pub message : String

pub data PayloadBody : Type 0 where
  client_hello : PbClientHello → PayloadBody
  task_assignment : PbTaskAssignment → PayloadBody
  task_result : PbTaskResult → PayloadBody
  task_ack : PbTaskAck → PayloadBody
  task_cancel : PbTaskCancel → PayloadBody
  node_error : PbNodeError → PayloadBody
  session_info : PbSessionInfo → PayloadBody
  command_catalog : PbCommandCatalog → PayloadBody
  task_pull_request : PbTaskPullRequest → PayloadBody
  task_pull_response : PbTaskPullResponse → PayloadBody

pub record PbNodePayloadEnvelope : Type 0 where
  pub body : Option PayloadBody

pub record PbMqttConnect : Type 0 where
  pub client_id : String
  pub clean_session : Bool
  pub auth_token : String

pub record PbMqttConnAck : Type 0 where
  pub accepted : Bool
  pub message : String

pub record PbMqttSubscribe : Type 0 where
  pub topics : List String

pub record PbMqttSubAck : Type 0 where
  pub topics : List String

pub record PbMqttPublish : Type 0 where
  pub topic : String
  pub payload : List ℕ

pub record PbMqttPingReq : Type 0 where
  pub unix_secs : ℕ

pub record PbMqttPingResp : Type 0 where
  pub unix_secs : ℕ

pub data FrameBody : Type 0 where
  connect : PbMqttConnect → FrameBody
  conn_ack : PbMqttConnAck → FrameBody
  subscribe : PbMqttSubscribe → FrameBody
  sub_ack : PbMqttSubAck → FrameBody
  publish : PbMqttPublish → FrameBody
  ping_req : PbMqttPingReq → FrameBody
  ping_resp : PbMqttPingResp → FrameBody

pub record PbMqttFrame : Type 0 where
  pub body : Option FrameBody
