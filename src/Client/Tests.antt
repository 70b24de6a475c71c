-- ===== src/Client/Tests.antt =====
-- The theorems of the client on a node with one command, `uptime`.
use ruchat.Prelude.{ℕ, String, ◌≡◌, refl, true, false, none, some, List, [], ◌∷◌}
use ruchat.Prelude.Result.{Result, ok, err}
use ruchat.Prelude.Lists.{find, length}
use ruchat.Protocol.Domain.{pos}
use ruchat.Protocol.Wire.{PbMqttFrame, FrameBody}
use ruchat.Samples.ProstSample.{sample_prost}
use ruchat.Client.Config.{ClientConfig, LocalCommandConfig}
use ruchat.Client.Executor.{
  ExitStatus, RunningCommand, StartTaskOutcome, Joined, spawned, start_found, start, finish_command,
  read_output,
}
use ruchat.Session.Frames.{decimal}
use ruchat.Client.Capture.{delivered, captured, read_output-captured}
use ruchat.Client.Starting.{Runs, stated, cancel_all, start-Runs, finish_command-canceled}
use ruchat.Client.World.{Effect, ClientWorld, Machine}
use ruchat.Client.Session.{Ending}
use ruchat.Client.Run.{WsMessage, ClientEvent, run_ws_session}
use ruchat.Client.OneChild.{running_after, IsOrderly}
use ruchat.Client.Orderly.{run_ws_session-IsOrderly}

abbrev sample_command : LocalCommandConfig
sample_command = record {
  name = "uptime";
  description = "";
  program = "/usr/bin/uptime";
  default_args = "-p" ∷ [];
  allow_extra_args = true;
}

abbrev sample_config : ClientConfig
sample_config = record {
  node_id = "n";
  auth_token = "secret";
  server_url = "http://localhost:18080";
  poll_interval_secs = 3;
  request_timeout_secs = none;
  commands = sample_command ∷ [];
}

abbrev sample_spawn : String → List String → Result String ℕ
sample_spawn program args = ok 7

abbrev sample_runner : RunningCommand
sample_runner = record { child = 7; cancel_reason = none }

started :
    start sample_spawn 0 sample_config "uptime" ("-s" ∷ []) ≡ StartTaskOutcome.started sample_runner
unfolding start start_found spawned find
started = refl

start-Runs_example : Runs sample_spawn sample_config "uptime" ("-s" ∷ []) sample_runner
start-Runs_example = start-Runs sample_spawn sample_config "uptime" ("-s" ∷ []) 0 started

abbrev exited : ExitStatus
exited = record { success = true; code = some (pos 0) }

abbrev quiet : Joined
quiet = ok (ok (record { text = ""; truncated = false }))

finish_command-canceled_example :
    let result =
      finish_command
        (ok exited)
        quiet
        quiet
        12
        (cancel_all ((ok tt, none) ∷ (err "gone", some "again") ∷ []) sample_runner) in
    (result.success ≡ false) × (result.error ≡ some (stated none))
finish_command-canceled_example =
    finish_command-canceled (ok tt) none ((err "gone", some "again") ∷ []) exited quiet quiet 12
      sample_runner refl

abbrev sample_machine : Machine
sample_machine = record {
  prost = sample_prost;
  link = λ effects bytes. none;
  spawn = λ effects program args. ok 7;
  kill = λ effects child. ok tt;
  elapsed_ms = λ effects. 5;
}

-- A child of an earlier task is still running.
abbrev working : ClientWorld
working = record {
  running_task = some (record { task_id = 3; runner = sample_runner });
  effects = Effect.launched 3 7 ∷ [];
}

abbrev accepted_frame : PbMqttFrame
accepted_frame = record {
  body = some (FrameBody.conn_ack (record { accepted = true; message = "connected" }));
}

abbrev answers : List (Result String WsMessage)
answers = ok (WsMessage.binary (sample_prost.frame.encode accepted_frame)) ∷ []

abbrev ending : Ending
ending = record { status = ok exited; stdout = quiet; stderr = quiet; elapsed_ms = 12 }

abbrev events : List ClientEvent
events =
    ClientEvent.heartbeat 100 ∷ ClientEvent.progress_tick (ok true) ending ∷ ClientEvent.ended ∷ []

working-IsOrderly : IsOrderly working
unfolding IsOrderly running_after
working-IsOrderly = refl

run_ws_session-IsOrderly_example :
    IsOrderly
      (run_ws_session sample_machine
        (λ payload. none)
        "h"
        "linux"
        "x86_64"
        sample_config
        answers
        events
        working).1
run_ws_session-IsOrderly_example =
    run_ws_session-IsOrderly sample_machine (λ payload. none) "h" "linux" "x86_64" sample_config
      answers events working working-IsOrderly

-- The text of some bytes, here their number.
abbrev lossy : List ℕ → String
lossy bytes = decimal (length bytes)

read_output-captured_example :
    read_output lossy (some (ok (104 ∷ 105 ∷ []) ∷ ok (33 ∷ []) ∷ ok [] ∷ []))
    ≡ captured lossy (delivered (ok (104 ∷ 105 ∷ []) ∷ ok (33 ∷ []) ∷ ok [] ∷ []))
read_output-captured_example =
    read_output-captured lossy (ok (104 ∷ 105 ∷ []) ∷ ok (33 ∷ []) ∷ ok [] ∷ [])
