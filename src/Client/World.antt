-- ===== src/Client/World.antt =====
-- apps/command-client/src/ws.rs: the state of the client's session and what it does to the world, as
-- actions that may fail with the text of an error. What was done before a failure stays done.
use ruchat.Prelude.{ℕ, String, Option, List, ◌∷◌}
use ruchat.Prelude.Result.{Result, ok, err}
use ruchat.Protocol.Codec.{Prost}
use ruchat.Protocol.Wire.{PbMqttFrame}
use ruchat.Client.Executor.{RunningCommand}

pub record RunningTaskState : Type 0 where
  pub task_id : ℕ
  pub runner : RunningCommand

-- What the session did: frames that the socket took, children with the task they run, and the pongs
-- of the websocket itself.
pub data Effect : Type 0 where
  sent : PbMqttFrame → Effect
  ponged : List ℕ → Effect
  launched killed reaped : ℕ → ℕ → Effect

-- The local variable of `run_ws_session`, and what was done, newest first.
pub record ClientWorld : Type 0 where
  pub running_task : Option RunningTaskState
  pub effects : List Effect

-- What the session does not decide, given what was done before: whether the socket takes some bytes,
-- or else its error; what a spawn and a kill answer; the time that a start took.
pub record Machine : Type 0 where
  pub prost : Prost
  pub link : List Effect → List ℕ → Option String
  pub spawn : List Effect → String → List String → Result String ℕ
  pub kill : List Effect → ℕ → Result String (Unit {0})
  pub elapsed_ms : List Effect → ℕ

abbrev pub Action : Type 0 → Type 0
Action A = ClientWorld → Result String A × ClientWorld

abbrev pub continue :
    {A B : Type 0} → (A → Action B) → Result String A × ClientWorld → Result String B × ClientWorld
continue f (ok a, w) = f a w
continue f (err e, w) = (err e, w)

infixl 5 ◌>>=◌ ◌>>◌
abbrev pub ◌>>=◌ : {A B : Type 0} → Action A → (A → Action B) → Action B
◌>>=◌ m f w = continue f (m w)

abbrev pub ◌>>◌ : {A B : Type 0} → Action A → Action B → Action B
m >> n = m >>= λ _. n

abbrev pub return : {A : Type 0} → A → Action A
return a w = (ok a, w)

abbrev pub done : Action Unit
done w = (ok tt, w)

abbrev pub throw : {A : Type 0} → String → Action A
throw e w = (err e, w)

-- One more effect.
abbrev pub noted : Effect → ClientWorld → ClientWorld
noted effect w = record w { effects = effect ∷ w.effects }

abbrev pub set_running : Option RunningTaskState → ClientWorld → ClientWorld
set_running task w = record w { running_task = task }
