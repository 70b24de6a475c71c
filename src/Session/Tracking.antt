-- ===== src/Session/Tracking.antt =====
-- Every handler of a session keeps it tracked: it watches what is in progress on its node.
use ruchat.Prelude.{
  ℕ, String, ◌≡◌, refl, sym, ◌∙◌, Bool, true, false, not, ◌==◌, ==_iff, ltb, str_eq, Option, none,
  some, List, [], arith, Bool-cases, inl, inr,
}
use ruchat.Prelude.Lists.{All}
use ruchat.Prelude.Updates.{All-map, All-zip}
use ruchat.Protocol.Wire.{PbTaskPullRequest, PbTaskAssignment}
use ruchat.Db.Rows.{TaskRow, ClaimTaskOutcome, has_id}
use ruchat.Db.Tasks.{of_node, in_progress, retry_task}
use ruchat.Db.Ops.{Op}
use ruchat.Db.Preserve.{apply_op-IsSoundDb}
use ruchat.Db.Held.{Held}
use ruchat.Db.Writes.{and_left, and_right}
use ruchat.Db.Release.{nobody, only, retry-released}
use ruchat.Session.World.{InFlightTask, Outside, World, store, unix_now, done, ◌>>=◌}
use ruchat.Session.Frames.{publish_error, publish_task_pull_response, send_task_cancel}
use ruchat.Session.Dispatch.{
  claim, answer_claimed, is_idle_pull, serve_pull, respond_to_task_pull, cancel_in_flight,
  cancel_tracked, handle_cancel_signal, expire, check_deadline, check_limit, check_timeout,
  handle_in_flight_timeout,
}
use ruchat.Session.Ensures.{Ensures, Keeping, bind-Ensures, if-Ensures, at-Ensures}
use ruchat.Session.Single.{
  watched, Busy, IsTracked, IsIdle, idle-IsTracked, any-IsTracked, store_out-Succeeds, send-Busy,
  send-IsTracked, send-IsIdle, Claims, claim-Claims, track-IsTracked, unwatched-Busy,
  try_dispatch-IsTracked,
}

module _ (env : Outside) (node_id : String) where
  abbrev pub Tracked : World → Type 0
  Tracked = IsTracked env node_id

  pub done-IsTracked : Keeping Tracked done
  done-IsTracked = record { run = λ w h. h }

  pub error-IsTracked : (text : String) → Keeping Tracked (publish_error env node_id text)
  unfolding publish_error
  error-IsTracked text = send-IsTracked env node_id _

  -- A pull.
  pull_response-IsTracked :
      (tasks : List PbTaskAssignment)
      → Keeping Tracked (publish_task_pull_response env node_id tasks)
  unfolding publish_task_pull_response
  pull_response-IsTracked tasks = send-IsTracked env node_id _

  answered-IsTracked :
      (outcome : ClaimTaskOutcome)
      → Ensures (Claims env node_id outcome) (answer_claimed env node_id outcome) (λ _. Tracked)
  unfolding answer_claimed publish_task_pull_response
  answered-IsTracked (ClaimTaskOutcome.claimed task) =
      bind-Ensures (λ _. Busy env node_id (only task.task_id))
        (send-Busy env node_id (only task.task_id) _) (λ _. track-IsTracked env node_id task)
  answered-IsTracked ClaimTaskOutcome.no_task = record {
    run = λ w h. (send-IsTracked env node_id _).run w (idle-IsTracked env node_id w h);
  }
  answered-IsTracked ClaimTaskOutcome.node_not_found = record {
    run = λ w h. (send-IsTracked env node_id _).run w (idle-IsTracked env node_id w h);
  }

  serve_pull-IsTracked :
      (request : PbTaskPullRequest) → Keeping Tracked (serve_pull env node_id request)
  unfolding serve_pull
  serve_pull-IsTracked request =
      at-Ensures (is_idle_pull env request) (publish_task_pull_response env node_id [])
        (claim env node_id >>= answer_claimed env node_id)
        (λ w h _. (pull_response-IsTracked []).run w h)
        (λ w h e.
          (bind-Ensures (Claims env node_id) (claim-Claims env node_id) answered-IsTracked).run w
            (unwatched-Busy env node_id w h (registered_of w e) (idle_of w e)))
    where
      registered_of : (w : World) → is_idle_pull env request w ≡ false → w.registered ≡ true
      registered_of w e = unfold is_idle_pull in ground arith

      idle_of : (w : World) → is_idle_pull env request w ≡ false → w.in_flight_task ≡ none
      idle_of w e = unfold is_idle_pull in ground arith

  pub pull-IsTracked :
      (request : PbTaskPullRequest) → Keeping Tracked (respond_to_task_pull env node_id request)
  unfolding respond_to_task_pull
  pull-IsTracked request =
      if-Ensures (str_eq request.node_id node_id) (serve_pull-IsTracked request) (error-IsTracked _)

  -- The session tracks a task.
  abbrev pub Tracking : Option InFlightTask → World → Type 0
  Tracking task w = Tracked w × (w.in_flight_task ≡ task)

  -- The task is not in progress.
  abbrev pub Stopped : ℕ → World → Type 0
  Stopped task_id w =
      All (λ row. has_id task_id row ≡ true → in_progress row ≡ false) w.state.db.tasks

  only-watched :
      (task : InFlightTask) (row : TaskRow)
      → Held node_id (watched (some task)) row
      → Held node_id (only task.task_id) row
  only-watched task row k t = and_left _ _ (k t)

  not_watched :
      (task : InFlightTask) (row : TaskRow)
      → task.ignore_result ≡ true
      → Held node_id (watched (some task)) row
      → Held node_id nobody row
  not_watched task row e k t =
      clash task.ignore_result e
        (and_right (row.task_id == task.task_id) (not task.ignore_result) (k t))
    where
      clash : (b : Bool) → b ≡ true → not b ≡ true → false ≡ true
      clash b p q = ground arith

  stopped_watched :
      (task : InFlightTask) (row : TaskRow)
      → Held node_id (watched (some task)) row
      → (has_id task.task_id row ≡ true → in_progress row ≡ false)
      → Held node_id nobody row
  unfolding has_id
  stopped_watched task row k stopped t =
      sym (stopped (and_left (row.task_id == task.task_id) _ (k t)))
      ∙ and_right (of_node node_id row) _ t

  -- What the session tracks is not in progress any more.
  Stopped-IsIdle :
      (w : World) (task : InFlightTask)
      → Tracking (some task) w
      → Stopped task.task_id w
      → IsIdle env node_id w
  Stopped-IsIdle w task (h, e) stopped = record {
    sound = h.sound;
    held = λ r.
        All-map _ (Held node_id nobody) w.state.db.tasks (λ row k. stopped_watched task row k.0 k.1)
          (All-zip (Held node_id (watched (some task))) _ w.state.db.tasks (rw e at (h.held r))
            stopped);
  }

  pub ignored-IsIdle :
      (w : World) (task : InFlightTask)
      → Tracking (some task) w
      → task.ignore_result ≡ true
      → IsIdle env node_id w
  ignored-IsIdle w task (h, e) ignored = record {
    sound = h.sound;
    held = λ r.
        All-map (Held node_id (watched (some task))) (Held node_id nobody) w.state.db.tasks
          (λ row k. not_watched task row ignored k) (rw e at (h.held r));
  }

  pub only-Held :
      (w : World) (task : InFlightTask)
      → Tracking (some task) w
      → w.registered ≡ true
      → All (Held node_id (only task.task_id)) w.state.db.tasks
  only-Held w task (h, e) r =
      All-map (Held node_id (watched (some task))) (Held node_id (only task.task_id))
        w.state.db.tasks (only-watched task) (rw e at (h.held r))

  -- The cancellation of the task in flight.
  cancel_in_flight-IsTracked :
      (reason : Option String) (task : InFlightTask)
      → Ensures (IsIdle env node_id) (cancel_in_flight env node_id reason task) (λ _. Tracked)
  unfolding cancel_in_flight send_task_cancel
  cancel_in_flight-IsTracked reason task =
      if-Ensures task.cancel_requested (record { run = λ w h. any-IsTracked env node_id w _ h })
        (bind-Ensures (λ _. IsIdle env node_id) (send-IsIdle env node_id _)
          (λ _. record { run = λ w h. any-IsTracked env node_id w _ h }))

  cancel_tracked-IsTracked :
      (task_id : ℕ) (reason : Option String) (task : Option InFlightTask)
      → Ensures
          (λ w. Tracking task w × Stopped task_id w)
          (cancel_tracked env node_id task_id reason task)
          (λ _. Tracked)
  unfolding cancel_tracked
  cancel_tracked-IsTracked task_id reason none = record {
    run = λ w h. (try_dispatch-IsTracked env node_id).run w h.0.0;
  }
  cancel_tracked-IsTracked task_id reason (some task) =
      elim (Bool-cases (task.task_id == task_id)) [
        | inl e ↦ rw e (record {
          run = λ w h.
              (cancel_in_flight-IsTracked reason task).run w
                (Stopped-IsIdle w task h.0 (rw (← (==_iff task.task_id task_id).0 e) at h.1));
        })
        | inr e ↦ rw e (record { run = λ w h. (try_dispatch-IsTracked env node_id).run w h.0.0 })
      ]

  pub cancel_signal-IsTracked :
      (task_id : ℕ) (reason : Option String)
      → Ensures
          (λ w. Tracked w × Stopped task_id w)
          (handle_cancel_signal env node_id task_id reason)
          (λ _. Tracked)
  unfolding handle_cancel_signal
  cancel_signal-IsTracked task_id reason = record {
    run =
        λ w h. (cancel_tracked-IsTracked task_id reason w.in_flight_task).run w ((h.0, refl), h.1);
  }

  -- A timeout.
  retried-IsIdle :
      (task : InFlightTask) (reason : String)
      → Ensures
          (Tracking (some task))
          (store (retry_task env.json task.task_id node_id reason))
          (λ _. IsIdle env node_id)
  unfolding store
  retried-IsIdle task reason = record {
    run = λ w h.
        store_out-Succeeds env node_id (λ _. IsIdle env node_id) w
          (retry_task env.json task.task_id node_id reason w.state.db)
          (λ a. record {
            sound = apply_op-IsSoundDb (Op.retry task.task_id node_id reason) h.0.sound;
            held = λ r.
                retry-released env.json w.state.db node_id h.0.sound task.task_id
                  (only-Held w task h r) reason;
          });
  }

  expire-IsTracked :
      (task : InFlightTask)
      → Ensures (Tracking (some task)) (expire env node_id task) (λ _. Tracked)
  unfolding expire send_task_cancel
  expire-IsTracked task =
      bind-Ensures (λ _. IsIdle env node_id) (retried-IsIdle task _)
        (λ _.
          bind-Ensures (λ _. IsIdle env node_id) (send-IsIdle env node_id _)
            (λ _. record { run = λ w h. any-IsTracked env node_id w _ h }))

  pub Tracking-now : (task : Option InFlightTask) → Keeping (Tracking task) (unix_now env)
  unfolding unix_now
  Tracking-now task = record { run = λ w h. (record { sound = h.0.sound; held = h.0.held }, h.1) }

  check_limit-IsTracked :
      (task : InFlightTask) (limit : Option ℕ)
      → Ensures (Tracking (some task)) (check_limit env node_id task limit) (λ _. Tracked)
  unfolding check_limit check_deadline
  check_limit-IsTracked task none = record { run = λ w h. h.0 }
  check_limit-IsTracked task (some timeout_secs) =
      if-Ensures task.ignore_result (record { run = λ w h. h.0 })
        (bind-Ensures (λ _. Tracking (some task)) (Tracking-now (some task))
          (λ now. if-Ensures (ltb now _) (record { run = λ w h. h.0 }) (expire-IsTracked task)))

  check_timeout-IsTracked :
      (task : Option InFlightTask)
      → Ensures (Tracking task) (check_timeout env node_id task) (λ _. Tracked)
  unfolding check_timeout
  check_timeout-IsTracked none = record { run = λ w h. h.0 }
  check_timeout-IsTracked (some task) = check_limit-IsTracked task task.timeout_secs

  pub timeout-IsTracked : Keeping Tracked (handle_in_flight_timeout env node_id)
  unfolding handle_in_flight_timeout
  timeout-IsTracked = record {
    run = λ w h. (check_timeout-IsTracked w.in_flight_task).run w (h, refl);
  }
