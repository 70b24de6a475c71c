-- ===== src/Protocol/Topic.antt =====
-- crates/command-protocol/src/topic.rs
use Prim.Native.String.{◌++◌ as str_append}
use ruchat.Prelude.{String}

-- format!("nodes/{node_id}/…")
node_topic : String → String → String
node_topic node_id suffix = str_append "nodes/" (str_append node_id suffix)

unfoldable pub node_hello_topic : String → String
unfolding node_topic
node_hello_topic node_id = node_topic node_id "/hello"

unfoldable pub node_task_topic : String → String
unfolding node_topic
node_task_topic node_id = node_topic node_id "/task"

unfoldable pub node_result_topic : String → String
unfolding node_topic
node_result_topic node_id = node_topic node_id "/result"

unfoldable pub node_ack_topic : String → String
unfolding node_topic
node_ack_topic node_id = node_topic node_id "/ack"

unfoldable pub node_control_topic : String → String
unfolding node_topic
node_control_topic node_id = node_topic node_id "/control"
