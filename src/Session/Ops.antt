-- ===== src/Session/Ops.antt =====
-- Every handler of a session changes the shared store by operations of the store only.
use ruchat.Prelude.{
  ℕ, String, arith, inl, inr, Bool-cases, ◌≡◌, refl, Bool, not, ◌||◌, ◌==◌, ltb, is_some, str_eq,
  Option, none, some, List, [], if◌then◌else◌,
}
use ruchat.Prelude.Maps.{contains}
use ruchat.Protocol.Domain.{PendingTask, SessionEventKind}
use ruchat.Protocol.Topic.{node_task_topic}
use ruchat.Protocol.Wire.{PbMqttFrame, PbClientHello, PbTaskAssignment, PbTaskPullRequest}
use ruchat.Protocol.Conversions.{registration_from_hello}
use ruchat.Db.Rows.{ClaimTaskOutcome}
use ruchat.Db.Ops.{Op}
use ruchat.Session.World.{
  InFlightTask, Outside, World, Action, unix_now, store, done, modify, ◌>>=◌,
}
use ruchat.Session.Frames.{
  send_mqtt_frame, send_task_cancel, publish_task_assignment, publish_task_pull_response,
  publish_error,
}
use ruchat.Session.Dispatch.{
  is_idle_pull, serve_pull, push_claimed, answer_claimed, cancel_in_flight, cancel_tracked, expire,
  check_deadline, check_limit, check_timeout, claim, track, try_dispatch_next_task,
  respond_to_task_pull, handle_cancel_signal, task_result_should_be_ignored,
  handle_in_flight_timeout,
}
use ruchat.Session.Publish.{accept_hello, record_event, set_registered}
use ruchat.Session.Stores.{
  Runs, bind-Runs, if-Runs, attempt-Runs, Stores, Stores-order, untouched-Runs, store-Runs,
}

module _ (env : Outside) where
  abbrev pub Keeps : {A : Type 0} → Action A → Type 0
  Keeps m = Runs (Stores env) m

  infixl 5 ◌>>>◌
  ◌>>>◌ :
      {A B : Type 0} {m : Action A} {f : A → Action B}
      → Keeps m
      → ((a : A) → Keeps (f a))
      → Keeps (m >>= f)
  h >>> k = bind-Runs (Stores-order env) h k

  -- A test on the world, and an action for each case.
  pub at_world :
      {A : Type 0} (test : World → Bool) {m n : World → Action A}
      → ((w : World) → Keeps (m w))
      → ((w : World) → Keeps (n w))
      → Keeps (λ w. if test w then m w w else n w w)
  at_world test {m} {n} h k = record {
    run =
        λ w. elim (Bool-cases (test w)) [ inl e ↦ rw e ((h w).run w) | inr e ↦ rw e ((k w).run w) ];
  }

  -- An action that starts by reading the world.
  pub of_world :
      {A : Type 0} {m : World → Action A} → ((w : World) → Keeps (m w)) → Keeps (λ w. m w w)
  of_world h = record { run = λ w. (h w).run w }

  pub done-Keeps : Keeps done
  done-Keeps = untouched-Runs env (λ w. refl)

  pub modify-Keeps :
      (f : World → World) → ((w : World) → (f w).state.db ≡ w.state.db) → Keeps (modify f)
  modify-Keeps f e = untouched-Runs env e

  pub unix_now-Keeps : Keeps (unix_now env)
  unfolding unix_now
  unix_now-Keeps = untouched-Runs env (λ w. refl)

  pub send-Keeps : (frame : PbMqttFrame) → Keeps (send_mqtt_frame env frame)
  unfolding send_mqtt_frame
  send-Keeps frame = untouched-Runs env (λ w. ground arith)

  pub publish_error-Keeps : (node_id text : String) → Keeps (publish_error env node_id text)
  unfolding publish_error
  publish_error-Keeps node_id text = send-Keeps _

  claim-Keeps : (node_id : String) → Keeps (claim env node_id)
  unfolding claim
  claim-Keeps node_id =
      unix_now-Keeps >>> λ now. store-Runs env _ (Op.claim now node_id) (λ db. refl)

  track-Keeps : (task : PendingTask) → Keeps (track env task)
  unfolding track
  track-Keeps task = unix_now-Keeps >>> λ now. modify-Keeps _ (λ w. refl)

  push_claimed-Keeps :
      (node_id : String) (outcome : ClaimTaskOutcome) → Keeps (push_claimed env node_id outcome)
  unfolding push_claimed publish_task_assignment
  push_claimed-Keeps node_id (ClaimTaskOutcome.claimed task) =
      send-Keeps _ >>> λ _. track-Keeps task
  push_claimed-Keeps node_id _ = done-Keeps

  pub try_dispatch-Keeps : (node_id : String) → Keeps (try_dispatch_next_task env node_id)
  unfolding try_dispatch_next_task
  try_dispatch-Keeps node_id =
      at_world
        (λ w.
          not w.registered
          || is_some w.in_flight_task
          || not (contains (node_task_topic node_id) w.subscriptions))
        (λ w. done-Keeps) (λ w. claim-Keeps node_id >>> push_claimed-Keeps node_id)

  answer_claimed-Keeps :
      (node_id : String) (outcome : ClaimTaskOutcome) → Keeps (answer_claimed env node_id outcome)
  unfolding answer_claimed publish_task_pull_response
  answer_claimed-Keeps node_id (ClaimTaskOutcome.claimed task) =
      send-Keeps _ >>> λ _. track-Keeps task
  answer_claimed-Keeps node_id _ = send-Keeps _

  pull_response-Keeps :
      (node_id : String) (tasks : List PbTaskAssignment)
      → Keeps (publish_task_pull_response env node_id tasks)
  unfolding publish_task_pull_response
  pull_response-Keeps node_id tasks = send-Keeps _

  serve_pull-Keeps :
      (node_id : String) (request : PbTaskPullRequest) → Keeps (serve_pull env node_id request)
  unfolding serve_pull
  serve_pull-Keeps node_id request =
      at_world (is_idle_pull env request) (λ w. pull_response-Keeps node_id [])
        (λ w. claim-Keeps node_id >>> answer_claimed-Keeps node_id)

  pub pull-Keeps :
      (node_id : String) (request : PbTaskPullRequest)
      → Keeps (respond_to_task_pull env node_id request)
  unfolding respond_to_task_pull
  pull-Keeps node_id request =
      if-Runs (str_eq request.node_id node_id) (serve_pull-Keeps node_id request)
        (publish_error-Keeps node_id _)

  cancel_in_flight-Keeps :
      (node_id : String) (reason : Option String) (task : InFlightTask)
      → Keeps (cancel_in_flight env node_id reason task)
  unfolding cancel_in_flight send_task_cancel
  cancel_in_flight-Keeps node_id reason task =
      if-Runs task.cancel_requested (modify-Keeps _ (λ w. refl))
        (send-Keeps _ >>> λ _. modify-Keeps _ (λ w. refl))

  cancel_tracked-Keeps :
      (node_id : String) (task_id : ℕ) (reason : Option String) (task : Option InFlightTask)
      → Keeps (cancel_tracked env node_id task_id reason task)
  unfolding cancel_tracked
  cancel_tracked-Keeps node_id task_id reason none = try_dispatch-Keeps node_id
  cancel_tracked-Keeps node_id task_id reason (some task) =
      if-Runs (task.task_id == task_id) (cancel_in_flight-Keeps node_id reason task)
        (try_dispatch-Keeps node_id)

  pub cancel_signal-Keeps :
      (node_id : String) (task_id : ℕ) (reason : Option String)
      → Keeps (handle_cancel_signal env node_id task_id reason)
  unfolding handle_cancel_signal
  cancel_signal-Keeps node_id task_id reason =
      of_world (λ w. cancel_tracked-Keeps node_id task_id reason w.in_flight_task)

  pub ignored-Keeps : (task_id : ℕ) → Keeps (task_result_should_be_ignored env task_id)
  unfolding task_result_should_be_ignored
  ignored-Keeps task_id = untouched-Runs env (λ w. unfold store in ground arith)

  expire-Keeps : (node_id : String) (task : InFlightTask) → Keeps (expire env node_id task)
  unfolding expire send_task_cancel
  expire-Keeps node_id task =
      store-Runs env _ (Op.retry task.task_id node_id "task timeout expired") (λ db. refl) >>> λ _.
      send-Keeps _ >>> λ _. modify-Keeps _ (λ w. refl)

  check_limit-Keeps :
      (node_id : String) (task : InFlightTask) (limit : Option ℕ)
      → Keeps (check_limit env node_id task limit)
  unfolding check_limit check_deadline
  check_limit-Keeps node_id task none = done-Keeps
  check_limit-Keeps node_id task (some timeout_secs) =
      if-Runs task.ignore_result done-Keeps
        (unix_now-Keeps >>> λ now. if-Runs (ltb now _) done-Keeps (expire-Keeps node_id task))

  check_timeout-Keeps :
      (node_id : String) (task : Option InFlightTask) → Keeps (check_timeout env node_id task)
  unfolding check_timeout
  check_timeout-Keeps node_id none = done-Keeps
  check_timeout-Keeps node_id (some task) = check_limit-Keeps node_id task task.timeout_secs

  pub timeout-Keeps : (node_id : String) → Keeps (handle_in_flight_timeout env node_id)
  unfolding handle_in_flight_timeout
  timeout-Keeps node_id = of_world (λ w. check_timeout-Keeps node_id w.in_flight_task)

  pub record_event-Keeps :
      (node_id : String) (kind : SessionEventKind) (text : String)
      → Keeps (record_event env node_id kind text)
  unfolding record_event
  record_event-Keeps node_id kind text = attempt-Runs (
      unix_now-Keeps >>> λ now.
      store-Runs env _ (Op.record_event now node_id kind text) (λ db. refl))

  pub hello-Keeps :
      (node_id : String) (hello : PbClientHello) → Keeps (accept_hello env node_id hello)
  unfolding accept_hello
  hello-Keeps node_id hello =
      store-Runs env _ (Op.requeue_incomplete node_id "node re-registered") (λ db. refl) >>> λ _.
      unix_now-Keeps >>> λ now.
      store-Runs env _ (Op.register now (registration_from_hello hello)) (λ db. refl) >>> λ _.
      record_event-Keeps node_id _ _ >>> λ _.
      modify-Keeps set_registered (λ w. refl) >>> λ _. try_dispatch-Keeps node_id
