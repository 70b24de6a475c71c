-- ===== src/Protocol/Http.antt =====
-- crates/command-protocol/src/http.rs and the request of a cancel: the bodies of the HTTP interface.
use ruchat.Prelude.{ℕ, String, List}

pub record BootstrapRequest : Type 0 where
  pub node_id : String
  pub auth_token : String

pub record BootstrapResponse : Type 0 where
  pub node_id : String
  pub ws_url : String
  pub heartbeat_interval_secs : ℕ
  pub protocol_version : String
  pub transport_stack : String
  pub capabilities : List String

pub record ProtocolSnapshot : Type 0 where
  pub protocol_version : String
  pub transport_stack : String
  pub heartbeat_interval_secs : ℕ
  pub max_result_output_bytes : ℕ
  pub max_task_pull_response_items : ℕ
  pub capabilities : List String
