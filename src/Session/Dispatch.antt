-- ===== src/Session/Dispatch.antt =====
-- apps/command-server/src/session.rs: handing out tasks, canceling, and timeouts.
use ruchat.Prelude.{
  ℕ, ◌+◌, String, Bool, true, false, not, ◌||◌, Option, none, some, [], ◌∷◌, ◌==◌, ltb, leb,
  is_some, str_eq, if◌then◌else◌,
}
use ruchat.Prelude.Maps.{contains}
use ruchat.Prelude.Result.{ok}
use ruchat.Protocol.Domain.{
  PendingTask, TaskStatus, dispatched, running, TaskSnapshot, max_task_pull_response_items,
}
use ruchat.Protocol.Wire.{PbTaskPullRequest}
use ruchat.Protocol.Topic.{node_task_topic}
use ruchat.Protocol.Conversions.{assignment_from_pending}
use ruchat.Db.Rows.{ClaimTaskOutcome}
use ruchat.Db.Tasks.{claim_task, retry_task, get_task}
use ruchat.Session.World.{
  InFlightTask, Outside, World, Action, unix_now, store, ◌>>=◌, ◌>>◌, done, return, modify,
}
use ruchat.Session.Frames.{
  send_task_cancel, publish_task_assignment, publish_task_pull_response, publish_error,
}

abbrev pub set_in_flight : Option InFlightTask → World → World
set_in_flight in_flight_task w = record w { in_flight_task = in_flight_task }

unfoldable pub new_in_flight_task : ℕ → PendingTask → InFlightTask
new_in_flight_task now task = record {
  task_id = task.task_id;
  timeout_secs = task.timeout_secs;
  dispatched_at_unix_secs = now;
  cancel_requested = false;
  ignore_result = false;
}

abbrev pub task_status_accepts_result : TaskStatus → Bool
task_status_accepts_result dispatched = true
task_status_accepts_result running = true
task_status_accepts_result _ = false

-- `u64::min` and `u64::saturating_add`
abbrev pub min : ℕ → ℕ → ℕ
min a b = if leb a b then a else b

abbrev pub saturating_add : ℕ → ℕ → ℕ
saturating_add a b = min (a + b) 18446744073709551615

module _ (env : Outside) where
  -- `state.db.claim_task`, which reads the clock.
  unfoldable pub claim : String → Action ClaimTaskOutcome
  claim node_id = do now ← unix_now env; store (claim_task env.json now node_id)

  unfoldable pub track : PendingTask → Action Unit
  track task = do now ← unix_now env; modify (set_in_flight (some (new_in_flight_task now task)))

  unfoldable pub push_claimed : String → ClaimTaskOutcome → Action Unit
  push_claimed node_id (ClaimTaskOutcome.claimed task) =
      publish_task_assignment env node_id task >> track task
  push_claimed node_id _ = done

  unfoldable pub try_dispatch_next_task : String → Action Unit
  unfolding push_claimed
  try_dispatch_next_task node_id w =
      if not w.registered
        || is_some w.in_flight_task
        || not (contains (node_task_topic node_id) w.subscriptions)
      then (ok tt, w)
      else (claim node_id >>= push_claimed node_id) w

  unfoldable pub answer_claimed : String → ClaimTaskOutcome → Action Unit
  answer_claimed node_id (ClaimTaskOutcome.claimed task) =
      publish_task_pull_response env node_id (assignment_from_pending task ∷ []) >> track task
  answer_claimed node_id _ = publish_task_pull_response env node_id []

  -- The part behind the check of the request's node.
  unfoldable pub is_idle_pull : PbTaskPullRequest → World → Bool
  is_idle_pull request w =
      min request.limit max_task_pull_response_items == 0
      || not w.registered
      || is_some w.in_flight_task

  unfoldable pub serve_pull : String → PbTaskPullRequest → Action Unit
  unfolding answer_claimed is_idle_pull
  serve_pull node_id request w =
      if is_idle_pull request w
      then publish_task_pull_response env node_id [] w
      else (claim node_id >>= answer_claimed node_id) w

  unfoldable pub respond_to_task_pull : String → PbTaskPullRequest → Action Unit
  unfolding serve_pull
  respond_to_task_pull node_id request =
      if str_eq request.node_id node_id
      then serve_pull node_id request
      else publish_error env node_id "node_id mismatch in task pull request"

  -- The part where the canceled task is the one in flight.
  unfoldable pub cancel_in_flight : String → Option String → InFlightTask → Action Unit
  cancel_in_flight node_id reason task =
      if task.cancel_requested
      then modify (set_in_flight (some (record task { ignore_result = true })))
      else send_task_cancel env node_id task.task_id reason
        >> modify
            (set_in_flight (some (record task { cancel_requested = true; ignore_result = true })))

  unfoldable pub cancel_tracked : String → ℕ → Option String → Option InFlightTask → Action Unit
  unfolding cancel_in_flight
  cancel_tracked node_id task_id reason none = try_dispatch_next_task node_id
  cancel_tracked node_id task_id reason (some task) =
      if task.task_id == task_id
      then cancel_in_flight node_id reason task
      else try_dispatch_next_task node_id

  unfoldable pub handle_cancel_signal : String → ℕ → Option String → Action Unit
  unfolding cancel_tracked
  handle_cancel_signal node_id task_id reason w =
      cancel_tracked node_id task_id reason w.in_flight_task w

  is_ignored : Option TaskSnapshot → Bool
  is_ignored none = false
  is_ignored (some task) = not (task_status_accepts_result task.status)

  unfoldable pub task_result_should_be_ignored : ℕ → Action Bool
  unfolding is_ignored
  task_result_should_be_ignored task_id = do
    task ← store (λ db. (get_task env.json db task_id, db))
    return (is_ignored task)

  unfoldable pub expire : String → InFlightTask → Action Unit
  expire node_id task = do
    _ ← store (retry_task env.json task.task_id node_id "task timeout expired")
    _ ← send_task_cancel env node_id task.task_id (some "task timeout expired")
    modify (set_in_flight (some (record task { cancel_requested = true; ignore_result = true })))

  unfoldable pub check_deadline : String → InFlightTask → ℕ → Action Unit
  unfolding expire
  check_deadline node_id task timeout_secs = unix_now env >>= λ now.
      if ltb now (saturating_add task.dispatched_at_unix_secs timeout_secs)
      then done
      else expire node_id task

  unfoldable pub check_limit : String → InFlightTask → Option ℕ → Action Unit
  unfolding check_deadline
  check_limit node_id task none = done
  check_limit node_id task (some timeout_secs) =
      if task.ignore_result then done else check_deadline node_id task timeout_secs

  unfoldable pub check_timeout : String → Option InFlightTask → Action Unit
  unfolding check_limit
  check_timeout node_id none = done
  check_timeout node_id (some task) = check_limit node_id task task.timeout_secs

  unfoldable pub handle_in_flight_timeout : String → Action Unit
  unfolding check_timeout
  handle_in_flight_timeout node_id w = check_timeout node_id w.in_flight_task w
