-- ===== src/Protocol/Conversions.antt =====
-- crates/command-protocol/src/conversions.rs: the `From` instances between wire and domain types.
use ruchat.Prelude.{◌+◌, ◌%◌, ◌^◌, []}
use ruchat.Protocol.Domain.{CommandDescriptor, NodeRegistration, PendingTask, ExecutionResult}
use ruchat.Protocol.Wire.{PbCommandDescriptor, PbClientHello, PbTaskAssignment, PbTaskResult}

unfoldable pub descriptor_to_pb : CommandDescriptor → PbCommandDescriptor
descriptor_to_pb value = record {
  name = value.name;
  description = value.description;
  default_args = value.default_args;
  allow_extra_args = value.allow_extra_args;
}

unfoldable pub descriptor_from_pb : PbCommandDescriptor → CommandDescriptor
descriptor_from_pb value = record {
  name = value.name;
  description = value.description;
  default_args = value.default_args;
  allow_extra_args = value.allow_extra_args;
}

-- A hello carries no commands: the catalog brings them.
unfoldable pub registration_from_hello : PbClientHello → NodeRegistration
registration_from_hello value = record {
  node_id = value.node_id;
  hostname = value.hostname;
  platform = value.platform;
  poll_interval_secs = value.poll_interval_secs;
  commands = [];
}

unfoldable pub hello_from_registration : NodeRegistration → PbClientHello
hello_from_registration value = record {
  node_id = value.node_id;
  hostname = value.hostname;
  platform = value.platform;
  poll_interval_secs = value.poll_interval_secs;
}

-- `attempt` is a u32: the sum wraps in a release build.
unfoldable pub assignment_from_pending : PendingTask → PbTaskAssignment
assignment_from_pending value = record {
  task_id = value.task_id;
  command_name = value.command_name;
  args = value.args;
  created_at_unix_secs = value.created_at_unix_secs;
  timeout_secs = value.timeout_secs;
  attempt = (value.retry_count + 1) % 2 ^ 32;
}

unfoldable pub result_from_pb : PbTaskResult → ExecutionResult
result_from_pb value = record {
  success = value.success;
  exit_code = value.exit_code;
  stdout = value.stdout;
  stderr = value.stderr;
  stdout_truncated = value.stdout_truncated;
  stderr_truncated = value.stderr_truncated;
  duration_ms = value.duration_ms;
  error = value.error;
}
