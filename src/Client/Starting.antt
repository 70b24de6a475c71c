-- ===== src/Client/Starting.antt =====
-- apps/command-client/src/executor.rs: what may become a process, and what a cancel does to the
-- result.
use ruchat.Prelude.{
  ℕ, String, ◌≡◌, ◌⊎◌, inl, inr, refl, Bool, true, false, not, ◌&&◌, Bool-cases, Option, none, some,
  List, [], ◌∷◌, ◌++◌, eq_iff, str_eq, arith,
}
use mathlib.Core.List.{append-nil}
use ruchat.Prelude.Lists.{find}
use ruchat.Prelude.Updates.{find_holds}
use ruchat.Prelude.Result.{Result, ok, err}
use ruchat.Db.Tasks.{is_empty}
use ruchat.Client.Config.{ClientConfig, LocalCommandConfig}
use ruchat.Client.Executor.{
  ExitStatus, RunningCommand, StartTaskOutcome, Joined, process_args, spawned, start_found, start,
  first_reason, request_cancel, finish_command,
}

-- Whether the command may be given these arguments.
abbrev pub Allows : LocalCommandConfig → List String → Type 0
Allows command args = (command.allow_extra_args ≡ true) ⊎ (args ≡ [])

module _ (spawn : String → List String → Result String ℕ) (config : ClientConfig) (name : String)
    (args : List String) where
  -- A process that runs what the configuration says.
  pub record Runs (running : RunningCommand) : Type 0 where
    pub command : LocalCommandConfig
    pub configured : find (λ c. str_eq c.name name) config.commands ≡ some command
    pub named : command.name ≡ name
    pub allowed : Allows command args
    pub process : spawn command.program (command.default_args ++ args) ≡ ok running.child
    pub fresh : running.cancel_reason ≡ none

  process_args_lem :
      (command : LocalCommandConfig) (allow : Bool) (args : List String)
      → command.allow_extra_args ≡ allow
      → not allow && not (is_empty args) ≡ false
      → Allows command args × (process_args command args ≡ command.default_args ++ args)
  unfolding process_args
  process_args_lem command true args a h = (inl a, rw a refl)
  process_args_lem command false [] a h = (inr refl, rw (a, append-nil command.default_args) refl)
  process_args_lem command false (x ∷ args) a h = absurd (grind arith)

  -- The part behind the search.
  spawned_from :
      (elapsed_ms : ℕ) (command : LocalCommandConfig) (answer : Result String ℕ)
      → spawn command.program (process_args command args) ≡ answer
      → Allows command args × (process_args command args ≡ command.default_args ++ args)
      → find (λ c. str_eq c.name name) config.commands ≡ some command
      → {running : RunningCommand}
      → spawned spawn elapsed_ms answer ≡ StartTaskOutcome.started running
      → Runs running
  unfolding spawned
  spawned_from elapsed_ms command (err error) s a f e = absurd (grind arith)
  spawned_from elapsed_ms command (ok child) s (allowed, together) f {running} e = record {
    command = command;
    configured = f;
    named = (eq_iff command.name name).0 (find_holds _ config.commands f);
    allowed = allowed;
    process = grind arith;
    fresh = grind arith;
  }

  start_found-Runs :
      (elapsed_ms : ℕ) (found : Option LocalCommandConfig)
      → find (λ c. str_eq c.name name) config.commands ≡ found
      → {running : RunningCommand}
      → start_found spawn elapsed_ms found args ≡ StartTaskOutcome.started running
      → Runs running
  unfolding start_found
  start_found-Runs elapsed_ms none f e = absurd (grind arith)
  start_found-Runs elapsed_ms (some command) f e =
      elim (Bool-cases (not command.allow_extra_args && not (is_empty args))) [
        | inl h ↦ absurd (grind arith)
        | inr h ↦
            spawned_from elapsed_ms command _ refl
              (process_args_lem command command.allow_extra_args args refl h) f (rw h at e)
      ]

  -- A task becomes a process only where a command of its name is configured: the process is that
  -- command's program with its default arguments and, behind them, the task's, of which there are none
  -- unless the command allows them.
  pub start-Runs :
      (elapsed_ms : ℕ) {running : RunningCommand}
      → start spawn elapsed_ms config name args ≡ StartTaskOutcome.started running
      → Runs running
  unfolding start
  start-Runs elapsed_ms e = start_found-Runs elapsed_ms _ refl e

-- Requests to cancel, one after the other, with what the kill answers.
abbrev pub cancel_all :
    List (Result String (Unit {0}) × Option String) → RunningCommand → RunningCommand
cancel_all [] command = command
cancel_all ((killed, reason) ∷ requests) command =
    cancel_all requests (request_cancel killed reason command).1

-- The reason that a first request gives.
abbrev pub stated : Option String → String
stated (some reason) = reason
stated none = "task canceled by server"

first_reason-stated : (reason : Option String) → first_reason none reason ≡ some (stated reason)
unfolding first_reason
first_reason-stated none = refl
first_reason-stated (some reason) = refl

cancel_all_kept :
    (requests : List (Result String (Unit {0}) × Option String)) (command : RunningCommand)
    (reason : String)
    → command.cancel_reason ≡ some reason
    → (cancel_all requests command).cancel_reason ≡ some reason
unfolding request_cancel first_reason
cancel_all_kept [] command reason e = e
cancel_all_kept ((killed, again) ∷ requests) command reason e =
    cancel_all_kept requests _ reason (rw e refl)

-- Once a running command was asked to cancel, its result is no success, whatever its exit status, and
-- reports the reason of the first request, also if the kill failed or more requests came.
pub finish_command-canceled :
    (killed : Result String (Unit {0})) (reason : Option String)
    (requests : List (Result String (Unit {0}) × Option String)) (status : ExitStatus)
    (stdout stderr : Joined) (elapsed_ms : ℕ) (command : RunningCommand)
    → command.cancel_reason ≡ none
    → let result =
        finish_command
          (ok status)
          stdout
          stderr
          elapsed_ms
          (cancel_all ((killed, reason) ∷ requests) command) in
      (result.success ≡ false) × (result.error ≡ some (stated reason))
unfolding finish_command request_cancel
finish_command-canceled killed reason requests status stdout stderr elapsed_ms command fresh =
    let kept =
      cancel_all_kept requests (request_cancel killed reason command).1 (stated reason)
        (rw fresh (first_reason-stated reason)) in
    (grind arith, kept)
