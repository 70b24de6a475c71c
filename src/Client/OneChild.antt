-- ===== src/Client/OneChild.antt =====
-- apps/command-client/src/ws.rs: the client runs one child at a time, and deals with no other.
use ruchat.Prelude.{
  ℕ, String, ◌≡◌, refl, ◌∙◌, Bool, true, false, Option, none, some, List, [], ◌∷◌, ◌==◌, ◌&&◌,
  ==_refl, arith, if◌then◌else◌,
}
use ruchat.Prelude.Result.{Result, ok, err}
use ruchat.Protocol.Domain.{ExecutionResult}
use ruchat.Protocol.Wire.{PayloadBody, PbMqttFrame, PbTaskAssignment}
use ruchat.Client.Config.{ClientConfig}
use ruchat.Client.Executor.{StartTaskOutcome, request_cancel}
use ruchat.Client.World.{
  RunningTaskState, Effect, ClientWorld, Machine, Action, continue, ◌>>=◌, return, throw,
}
use ruchat.Client.Session.{
  taken, send_frame, send_publish, publish_task_result, request_task_pull, launch, start_task,
  start_when_free, start_task_assignment, cancel_running,
}

-- The task and the child that run.
abbrev pub child_of : Option RunningTaskState → Option (ℕ × ℕ)
child_of none = none
child_of (some task) = some (task.task_id, task.runner.child)

abbrev same : ℕ → ℕ → ℕ × ℕ → Bool
same task child (t, c) = task == t && child == c

-- A launch needs that nothing runs, a kill and a wait need that just this runs.
abbrev after_launch : ℕ → ℕ → Option (Option (ℕ × ℕ)) → Option (Option (ℕ × ℕ))
after_launch task child (some none) = some (some (task, child))
after_launch task child _ = none

abbrev after_kill : ℕ → ℕ → Option (Option (ℕ × ℕ)) → Option (Option (ℕ × ℕ))
after_kill task child (some (some p)) = if same task child p then some (some p) else none
after_kill task child _ = none

abbrev after_reap : ℕ → ℕ → Option (Option (ℕ × ℕ)) → Option (Option (ℕ × ℕ))
after_reap task child (some (some p)) = if same task child p then some none else none
after_reap task child _ = none

-- What runs after some effects, newest first; `none` if they are out of order.
unfoldable pub running_after : List Effect → Option (Option (ℕ × ℕ))
running_after [] = some none
running_after (Effect.launched task child ∷ effects) =
    after_launch task child (running_after effects)
running_after (Effect.killed task child ∷ effects) = after_kill task child (running_after effects)
running_after (Effect.reaped task child ∷ effects) = after_reap task child (running_after effects)
running_after (Effect.sent _ ∷ effects) = running_after effects
running_after (Effect.ponged _ ∷ effects) = running_after effects

-- The effects are in order, and what runs is what the session holds.
unfoldable pub IsOrderly : ClientWorld → Type 0
IsOrderly w = running_after w.effects ≡ some (child_of w.running_task)

pub record Carries (P Q : ClientWorld → Type 0) {A : Type 0} (m : Action A) : Type 0 where
  pub run : (w : ClientWorld) → P w → Q (m w).1

abbrev pub Keeps : {A : Type 0} → Action A → Type 0
Keeps m = Carries IsOrderly IsOrderly m

module _ {A B : Type 0} {M Q : ClientWorld → Type 0} where
  pub continue_lem :
      (f : A → Action B) (out : Result String A × ClientWorld)
      → ((w : ClientWorld) → M w → Q w)
      → ((a : A) → Carries M Q (f a))
      → M out.1
      → Q (continue f out).1
  continue_lem f (ok a, w) weaken k h = (k a).run w h
  continue_lem f (err e, w) weaken k h = weaken w h

  bind-Carries :
      {P : ClientWorld → Type 0} {m : Action A} {f : A → Action B}
      → ((w : ClientWorld) → M w → Q w)
      → Carries P M m
      → ((a : A) → Carries M Q (f a))
      → Carries P Q (m >>= f)
  bind-Carries {P} {m} {f} weaken h k = record {
    run = λ w p. continue_lem f (m w) weaken k (h.run w p);
  }

pub then-Keeps :
    {A B : Type 0} {m : Action A} {f : A → Action B}
    → Keeps m
    → ((a : A) → Keeps (f a))
    → Keeps (m >>= f)
then-Keeps h k = bind-Carries {M = IsOrderly} (λ w p. p) h k

pub return-Keeps : {A : Type 0} (a : A) → Keeps (return a)
return-Keeps a = record { run = λ w h. h }

pub throw-Keeps : {A : Type 0} (text : String) → Keeps {A = A} (throw text)
throw-Keeps text = record { run = λ w h. h }

pub if-Keeps :
    {A : Type 0} (b : Bool) {m n : Action A} → Keeps m → Keeps n → Keeps (if b then m else n)
if-Keeps true h k = h
if-Keeps false h k = k

-- In order, and nothing runs.
IsFree : ClientWorld → Type 0
IsFree w = (running_after w.effects ≡ some none) × (w.running_task ≡ none)

free-IsOrderly : (w : ClientWorld) → IsFree w → IsOrderly w
unfolding IsFree IsOrderly
free-IsOrderly w (e, f) = rw f e

orderly-IsFree : (w : ClientWorld) → IsOrderly w → w.running_task ≡ none → IsFree w
unfolding IsFree IsOrderly
orderly-IsFree w h f = (rw f at h, f)

-- An effect that is no child's.
pub taken-Keeps :
    (effect : Effect) (w : ClientWorld) (answer : Option String)
    → (running_after (effect ∷ w.effects) ≡ running_after w.effects)
    → IsOrderly w
    → IsOrderly (taken effect w answer).1
unfolding taken IsOrderly
taken-Keeps effect w none e h = e ∙ h
taken-Keeps effect w (some text) e h = h

taken-Free :
    (effect : Effect) (w : ClientWorld) (answer : Option String)
    → (running_after (effect ∷ w.effects) ≡ running_after w.effects)
    → IsFree w
    → IsFree (taken effect w answer).1
unfolding taken IsFree
taken-Free effect w none e h = (e ∙ h.0, h.1)
taken-Free effect w (some text) e h = h

module _ (env : Machine) where
  pub send-Keeps : (frame : PbMqttFrame) → Keeps (send_frame env frame)
  unfolding send_frame running_after
  send-Keeps frame = record {
    run = λ w h.
        taken-Keeps (Effect.sent frame) w (env.link w.effects (env.prost.frame.encode frame)) refl
          h;
  }

  pub publish-Keeps : (topic : String) (body : PayloadBody) → Keeps (send_publish env topic body)
  unfolding send_publish
  publish-Keeps topic body = send-Keeps _

  publish-Free :
      (topic : String) (body : PayloadBody) → Carries IsFree IsFree (send_publish env topic body)
  unfolding send_publish send_frame running_after
  publish-Free topic body = record { run = λ w h. taken-Free (Effect.sent _) w _ refl h }

  pub result-Keeps :
      (node_id : String) (task_id : ℕ) (result : ExecutionResult)
      → Keeps (publish_task_result env node_id task_id result)
  unfolding publish_task_result
  result-Keeps node_id task_id result = publish-Keeps _ _

  pub pull-Keeps : (node_id : String) → Keeps (request_task_pull env node_id)
  unfolding request_task_pull
  pull-Keeps node_id = publish-Keeps _ _

  launch-Keeps :
      (config : ClientConfig) (task_id : ℕ) (outcome : StartTaskOutcome) (w : ClientWorld)
      → IsFree w
      → IsOrderly (launch env config task_id outcome w).1
  unfolding launch IsFree IsOrderly running_after
  launch-Keeps config task_id (StartTaskOutcome.started runner) w h = rw h.0 refl
  launch-Keeps config task_id (StartTaskOutcome.completed result) w h =
      (result-Keeps config.node_id task_id result).run w (free-IsOrderly w h)

  start_task-Keeps :
      (config : ClientConfig) (task : PbTaskAssignment)
      → Carries IsFree IsOrderly (start_task env config task)
  unfolding start_task
  start_task-Keeps config task = record { run = λ w h. launch-Keeps config task.task_id _ w h }

  pub assignment-Keeps :
      (config : ClientConfig) (task : PbTaskAssignment)
      → Keeps (start_task_assignment env config task)
  unfolding start_task_assignment start_when_free
  assignment-Keeps config task = record { run = λ w h. when_free w w.running_task refl h }
    where
      when_free :
          (w : ClientWorld) (running : Option RunningTaskState)
          → w.running_task ≡ running
          → IsOrderly w
          → IsOrderly (start_when_free env config task running w).1
      when_free w (some running) e h = h
      when_free w none e h =
          (bind-Carries free-IsOrderly (publish-Free _ _) (λ _. start_task-Keeps config task)).run w
            (orderly-IsFree w h e)

  pub cancel_running-Keeps :
      (reason : Option String) (task : RunningTaskState) (w : ClientWorld)
      → w.running_task ≡ some task
      → IsOrderly w
      → IsOrderly (cancel_running env reason task w).1
  unfolding cancel_running IsOrderly running_after request_cancel
  cancel_running-Keeps reason task w e h =
      rw h (rw e (ground (arith, ==_refl task.task_id, ==_refl task.runner.child)))
