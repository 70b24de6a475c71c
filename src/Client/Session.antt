-- ===== src/Client/Session.antt =====
-- apps/command-client/src/ws.rs: the handlers of the client's session.
use ruchat.Prelude.{
  ℕ, String, Bool, true, false, not, Option, none, some, List, [], ◌∷◌, ◌==◌, str_eq, if◌then◌else◌,
}
use ruchat.Prelude.Result.{Result, ok, err}
use ruchat.Protocol.Domain.{ExecutionResult}
use ruchat.Protocol.Topic.{node_task_topic, node_control_topic, node_ack_topic, node_result_topic}
use ruchat.Protocol.Wire.{
  PayloadBody, FrameBody, PbMqttFrame, PbNodePayloadEnvelope, PbTaskAssignment, PbTaskCancel,
  PbTaskResult,
}
use ruchat.Client.Config.{ClientConfig}
use ruchat.Client.Executor.{
  StartTaskOutcome, ExitStatus, Joined, start, request_cancel, finish_command,
}
use ruchat.Client.World.{
  RunningTaskState, Effect, ClientWorld, Machine, Action, ◌>>=◌, ◌>>◌, done, throw, noted,
  set_running,
}

-- How a child that ended ends, with its two pipes, and the time that it ran.
pub record Ending : Type 0 where
  pub status : Result String ExitStatus
  pub stdout : Joined
  pub stderr : Joined
  pub elapsed_ms : ℕ

unfoldable pub task_result_to_pb : ℕ → ExecutionResult → PbTaskResult
task_result_to_pb task_id result = record {
  task_id = task_id;
  success = result.success;
  exit_code = result.exit_code;
  stdout = result.stdout;
  stderr = result.stderr;
  duration_ms = result.duration_ms;
  error = result.error;
  stdout_truncated = result.stdout_truncated;
  stderr_truncated = result.stderr_truncated;
}

-- The socket took the frame, or gives the text of its error.
unfoldable pub taken : Effect → ClientWorld → Option String → Result String (Unit {0}) × ClientWorld
taken effect w none = (ok tt, noted effect w)
taken effect w (some error) = (err error, w)

module _ (env : Machine) where
  unfoldable pub send_frame : PbMqttFrame → Action Unit
  unfolding taken
  send_frame frame w =
      taken (Effect.sent frame) w (env.link w.effects (env.prost.frame.encode frame))

  abbrev pub publish_frame : String → PayloadBody → PbMqttFrame
  publish_frame topic body = record {
    body = some (
        FrameBody.publish (record {
          topic = topic;
          payload = env.prost.payload.encode (record { body = some body });
        }));
  }

  unfoldable pub send_publish : String → PayloadBody → Action Unit
  unfolding send_frame
  send_publish topic body = send_frame (publish_frame topic body)

  unfoldable pub publish_task_result : String → ℕ → ExecutionResult → Action Unit
  unfolding send_publish task_result_to_pb
  publish_task_result node_id task_id result =
      send_publish (node_result_topic node_id)
        (PayloadBody.task_result (task_result_to_pb task_id result))

  unfoldable pub request_task_pull : String → Action Unit
  unfolding send_publish
  request_task_pull node_id =
      send_publish (node_control_topic node_id)
        (PayloadBody.task_pull_request (record { node_id = node_id; limit = 1 }))

  -- The part of `start_task_assignment` behind the start.
  unfoldable pub launch : ClientConfig → ℕ → StartTaskOutcome → Action Unit
  launch config task_id (StartTaskOutcome.started runner) w = (
    ok tt,
    set_running (some (record { task_id = task_id; runner = runner }))
        (noted (Effect.launched task_id runner.child) w),
  )
  launch config task_id (StartTaskOutcome.completed result) w =
      publish_task_result config.node_id task_id result w

  -- The start itself, at the moment when it happens.
  unfoldable pub start_task : ClientConfig → PbTaskAssignment → Action Unit
  unfolding launch
  start_task config task w =
      launch config task.task_id
        (start (env.spawn w.effects) (env.elapsed_ms w.effects) config task.command_name task.args)
        w

  unfoldable pub start_when_free :
      ClientConfig → PbTaskAssignment → Option RunningTaskState → Action Unit
  unfolding start_task send_publish
  start_when_free config task (some running) = done
  start_when_free config task none = do
    _ ←
        send_publish (node_ack_topic config.node_id)
          (PayloadBody.task_ack (record { task_id = task.task_id }))
    start_task config task

  unfoldable pub start_task_assignment : ClientConfig → PbTaskAssignment → Action Unit
  unfolding start_when_free
  start_task_assignment config task w = start_when_free config task w.running_task w

  -- `request_cancel` on the running task.
  unfoldable pub cancel_running : Option String → RunningTaskState → Action Unit
  unfolding request_cancel
  cancel_running reason task w =
      let answer = request_cancel (env.kill w.effects task.runner.child) reason task.runner in
      (
        answer.0,
        set_running (some (record task { runner = answer.1 }))
            (noted (Effect.killed task.task_id task.runner.child) w),
      )

  unfoldable pub accept_cancel : PbTaskCancel → Option RunningTaskState → Action Unit
  unfolding cancel_running
  accept_cancel cancel none = done
  accept_cancel cancel (some task) =
      if not (task.task_id == cancel.task_id) then done else cancel_running cancel.reason task

  unfoldable pub handle_task_cancel : PbTaskCancel → Action Unit
  unfolding accept_cancel
  handle_task_cancel cancel w = accept_cancel cancel w.running_task w

  -- The first task of an answer.
  unfoldable pub start_pulled : ClientConfig → List PbTaskAssignment → Action Unit
  unfolding start_task_assignment
  start_pulled config [] = done
  start_pulled config (task ∷ _) = start_task_assignment config task

  unfoldable pub on_task_topic : ClientConfig → Option PayloadBody → Action Unit
  unfolding start_task_assignment
  on_task_topic config (some (PayloadBody.task_assignment task)) = start_task_assignment config task
  on_task_topic config _ = done

  unfoldable pub on_control_topic : ClientConfig → Option PayloadBody → Action Unit
  unfolding start_pulled handle_task_cancel
  on_control_topic config (some (PayloadBody.task_pull_response response)) =
      start_pulled config response.tasks
  on_control_topic config (some (PayloadBody.task_cancel cancel)) = handle_task_cancel cancel
  on_control_topic config _ = done

  unfoldable pub on_publish :
      ClientConfig → String → Result String PbNodePayloadEnvelope → Action Unit
  unfolding on_task_topic on_control_topic
  on_publish config topic (err error) = throw error
  on_publish config topic (ok payload) =
      if str_eq topic (node_task_topic config.node_id)
      then on_task_topic config payload.body
      else if str_eq topic (node_control_topic config.node_id)
      then on_control_topic config payload.body
      else done

  unfoldable pub on_frame : ClientConfig → Option FrameBody → Action Unit
  unfolding on_publish send_frame
  on_frame config (some (FrameBody.publish publish)) =
      on_publish config publish.topic (env.prost.payload.decode publish.payload)
  on_frame config (some (FrameBody.ping_req request)) =
      send_frame
        (record { body = some (FrameBody.ping_resp (record { unix_secs = request.unix_secs })) })
  on_frame config _ = done

  unfoldable pub on_decoded : ClientConfig → Result String PbMqttFrame → Action Unit
  unfolding on_frame
  on_decoded config (err error) = throw error
  on_decoded config (ok frame) = on_frame config frame.body

  -- `handle_binary_message` of the client.
  unfoldable pub on_binary_message : ClientConfig → List ℕ → Action Unit
  unfolding on_decoded
  on_binary_message config bytes = on_decoded config (env.prost.frame.decode bytes)

  -- The end of the running task: its result, and the next request.
  unfoldable pub complete_task : String → Ending → RunningTaskState → Action Unit
  unfolding finish_command publish_task_result request_task_pull
  complete_task node_id ending task w =
      (publish_task_result node_id task.task_id
            (finish_command ending.status ending.stdout ending.stderr ending.elapsed_ms task.runner)
          >> request_task_pull node_id)
        (set_running none (noted (Effect.reaped task.task_id task.runner.child) w))

  -- What `try_wait` answers: whether the child has ended.
  unfoldable pub running_task_finished :
      String → Result String Bool → Ending → Option RunningTaskState → Action Unit
  unfolding complete_task
  running_task_finished node_id waited ending none = done
  running_task_finished node_id (err error) ending (some task) = throw error
  running_task_finished node_id (ok false) ending (some task) = done
  running_task_finished node_id (ok true) ending (some task) = complete_task node_id ending task

  unfoldable pub progress : String → Result String Bool → Ending → Action Unit
  unfolding running_task_finished
  progress node_id waited ending w = running_task_finished node_id waited ending w.running_task w
