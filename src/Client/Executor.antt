-- ===== src/Client/Executor.antt =====
-- apps/command-client/src/executor.rs: how a task becomes a process and its end a result. What the
-- operating system answers (the spawn, the exit status, the reads of a pipe, the time that passed)
-- are arguments.
use Prim.Native.String.{◌++◌ as str_append}
use ruchat.Prelude.{
  ℕ, ◌-◌, ◌%◌, ◌^◌, String, Bool, true, false, not, ◌&&◌, ◌||◌, Option, none, some, List, [], ◌∷◌,
  ◌++◌, ltb, leb, is_none, str_eq, if◌then◌else◌,
}
use ruchat.Prelude.Lists.{length, take, find}
use ruchat.Prelude.Result.{Result, ok, err}
use ruchat.Protocol.Domain.{ℤ, ExecutionResult, max_result_output_bytes}
use ruchat.Db.Tasks.{is_empty}
use ruchat.Client.Config.{ClientConfig, LocalCommandConfig}

pub record OutputCapture : Type 0 where
  pub text : String
  pub truncated : Bool

pub record ExitStatus : Type 0 where
  pub success : Bool
  pub code : Option ℤ

-- The child process with its two readers is a number.
pub record RunningCommand : Type 0 where
  pub child : ℕ
  pub cancel_reason : Option String

pub data StartTaskOutcome : Type 0 where
  started : RunningCommand → StartTaskOutcome
  completed : ExecutionResult → StartTaskOutcome

-- A result of a command that did not run. `elapsed().as_millis() as u64` drops the high bits.
unfoldable pub failed_result : ℕ → String → ExecutionResult
failed_result elapsed_ms message = record {
  success = false;
  exit_code = none;
  stdout = "";
  stderr = "";
  stdout_truncated = false;
  stderr_truncated = false;
  duration_ms = elapsed_ms % 2 ^ 64;
  error = some message;
}

unfoldable pub invalid_task_result : ℕ → String → ExecutionResult
unfolding failed_result
invalid_task_result elapsed_ms message = failed_result elapsed_ms message

-- The arguments of the process.
unfoldable pub process_args : LocalCommandConfig → List String → List String
process_args command args =
    if command.allow_extra_args then command.default_args ++ args else command.default_args

module _ (spawn : String → List String → Result String ℕ) (elapsed_ms : ℕ) where
  unfoldable pub spawned : Result String ℕ → StartTaskOutcome
  spawned (ok child) = StartTaskOutcome.started (record { child = child; cancel_reason = none })
  spawned (err error) = StartTaskOutcome.completed (failed_result elapsed_ms error)

  -- The part behind the search for the command.
  unfoldable pub start_found : Option LocalCommandConfig → List String → StartTaskOutcome
  unfolding process_args
  start_found none args =
      StartTaskOutcome.completed
        (invalid_task_result elapsed_ms "command is not configured on this client")
  start_found (some command) args =
      if not command.allow_extra_args && not (is_empty args)
      then StartTaskOutcome.completed
          (invalid_task_result elapsed_ms "command does not allow extra args")
      else spawned (spawn command.program (process_args command args))

  -- `RunningCommand::start`
  unfoldable pub start : ClientConfig → String → List String → StartTaskOutcome
  unfolding start_found
  start config command_name args =
      start_found (find (λ command. str_eq command.name command_name) config.commands) args

unfoldable pub first_reason : Option String → Option String → Option String
first_reason (some reason) _ = some reason
first_reason none (some reason) = some reason
first_reason none none = some "task canceled by server"

-- The reason is kept, then the child is killed, which may fail.
unfoldable pub request_cancel :
    Result String (Unit {0})
    → Option String
    → RunningCommand
    → Result String (Unit {0}) × RunningCommand
unfolding first_reason
request_cancel killed reason command =
    (killed, record command { cancel_reason = first_reason command.cancel_reason reason })

-- What one `read` of a pipe brings: an empty chunk is its end.
abbrev pub Read : Type 0
Read = Result String (List ℕ)

module _ (limit : ℕ) where
  -- The body of the loop: the bytes kept so far, and whether some were left out.
  unfoldable pub keep : List ℕ × Bool → List ℕ → List ℕ × Bool
  keep (output, truncated) chunk =
      let remaining = limit - length output in
      let to_copy = if leb remaining (length chunk) then remaining else length chunk in
      if ltb (length output) limit
      then (output ++ take to_copy chunk, truncated || ltb to_copy (length chunk))
      else (output, true)

  unfoldable pub read_loop : List ℕ × Bool → List Read → Result String (List ℕ × Bool)
  read_loop kept [] = ok kept
  read_loop kept (err error ∷ reads) = err error
  read_loop kept (ok [] ∷ reads) = ok kept
  read_loop kept (ok (b ∷ chunk) ∷ reads) = read_loop (keep kept (b ∷ chunk)) reads

module _ (from_utf8_lossy : List ℕ → String) where
  unfoldable pub capture_of : Result String (List ℕ × Bool) → Result String OutputCapture
  capture_of (ok (output, truncated)) =
      ok (record { text = from_utf8_lossy output; truncated = truncated })
  capture_of (err error) = err error

  -- The reads are those up to the end of the pipe.
  unfoldable pub read_output : Option (List Read) → Result String OutputCapture
  unfolding capture_of read_loop
  read_output none = ok (record { text = ""; truncated = false })
  read_output (some reads) = capture_of (read_loop max_result_output_bytes ([], false) reads)

-- What the reader's task ends with: its error, or what `read_output` gave.
unfoldable pub join_output : Result String (Result String OutputCapture) → OutputCapture
join_output (ok (ok capture)) = capture
join_output (ok (err error)) = record {
  text = str_append "output read failed: " error;
  truncated = false;
}
join_output (err error) = record {
  text = str_append "output join failed: " error;
  truncated = false;
}

abbrev pub Joined : Type 0
Joined = Result String (Result String OutputCapture)

-- `RunningCommand::finish`, from what the child and the two readers end with.
unfoldable pub finish_command :
    Result String ExitStatus → Joined → Joined → ℕ → RunningCommand → ExecutionResult
unfolding join_output failed_result
finish_command (err error) stdout stderr elapsed_ms command = failed_result elapsed_ms error
finish_command (ok status) stdout stderr elapsed_ms command = record {
  success = status.success && is_none command.cancel_reason;
  exit_code = status.code;
  stdout = (join_output stdout).text;
  stderr = (join_output stderr).text;
  stdout_truncated = (join_output stdout).truncated;
  stderr_truncated = (join_output stderr).truncated;
  duration_ms = elapsed_ms % 2 ^ 64;
  error = command.cancel_reason;
}
