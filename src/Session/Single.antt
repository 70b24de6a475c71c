-- ===== src/Session/Single.antt =====
-- The capability "single_inflight": what a registered session has in progress on its node is the one
-- task that it tracks.
use ruchat.Prelude.{
  ℕ, String, ◌≡◌, Bool, true, false, not, ◌&&◌, ◌||◌, ◌==◌, is_some, Option, none, some, List, [],
  ◌∷◌, ◌++◌, ◌+◌, arith,
}
use ruchat.Prelude.Lists.{All}
use ruchat.Prelude.Updates.{All-map}
use ruchat.Prelude.Maps.{contains}
use ruchat.Prelude.Result.{Result, ok, err}
use ruchat.Protocol.Domain.{PendingTask}
use ruchat.Protocol.Topic.{node_task_topic}
use ruchat.Protocol.Wire.{PbMqttFrame}
use ruchat.Db.Rows.{DbError, Db, ClaimTaskOutcome}
use ruchat.Db.Tasks.{claim_task}
use ruchat.Db.Sound.{IsSoundDb}
use ruchat.Db.Ops.{Op, apply_op}
use ruchat.Db.Preserve.{apply_op-IsSoundDb}
use ruchat.Db.Effects.{ClaimCases, claim_task_cases}
use ruchat.Db.Held.{Held, claims_for, apply_op-Held}
use ruchat.Db.Release.{nobody, only, claim-Held-only, anyone-Held}
use ruchat.Session.World.{
  InFlightTask, Outside, World, with_db, store_result, store, unix_now, done, ◌>>=◌,
}
use ruchat.Session.Frames.{answer_of_link, send_mqtt_frame, publish_task_assignment}
use ruchat.Session.Dispatch.{
  set_in_flight, new_in_flight_task, claim, track, push_claimed, try_dispatch_next_task,
}
use ruchat.Session.Ensures.{Succeeds, Ensures, Keeping, bind-Ensures, at-Ensures}

-- The tasks whose results the session waits for: at most one.
abbrev pub watched : Option InFlightTask → ℕ → Bool
watched none _ = false
watched (some task) id = id == task.task_id && not task.ignore_result

module _ (env : Outside) (node_id : String) where
  -- The tasks in progress on the node are among those named.
  pub record Busy (who : ℕ → Bool) (w : World) : Type 0 where
    pub sound : IsSoundDb env.json w.state.db
    pub held : All (Held node_id who) w.state.db.tasks

  -- A registered session watches what is in progress on its node.
  pub record IsTracked (w : World) : Type 0 where
    pub sound : IsSoundDb env.json w.state.db
    pub held : w.registered ≡ true → All (Held node_id (watched w.in_flight_task)) w.state.db.tasks

  -- Where nothing is in progress, nothing has to be watched.
  pub idle-IsTracked : (w : World) → Busy nobody w → IsTracked w
  idle-IsTracked w h = record {
    sound = h.sound;
    held = λ _.
        All-map (Held node_id nobody) (Held node_id (watched w.in_flight_task)) w.state.db.tasks
          (anyone-Held node_id (watched w.in_flight_task)) h.held;
  }

  -- A registered session whose node has nothing in progress.
  pub record IsIdle (w : World) : Type 0 where
    pub sound : IsSoundDb env.json w.state.db
    pub held : w.registered ≡ true → All (Held node_id nobody) w.state.db.tasks

  -- Then it may track anything.
  pub any-IsTracked :
      (w : World) (task : Option InFlightTask) → IsIdle w → IsTracked (set_in_flight task w)
  any-IsTracked w task h = record {
    sound = h.sound;
    held = λ r.
        All-map (Held node_id nobody) (Held node_id (watched task)) w.state.db.tasks
          (anyone-Held node_id (watched task)) (h.held r);
  }

  pub store_out-Succeeds :
      {A : Type 0} (Q : A → World → Type 0) (w : World) (out : Result DbError A × Db)
      → ((a : A) → Q a (with_db w out.1))
      → Succeeds Q (store_result w out)
  store_out-Succeeds Q w (ok a, db) h = h a
  store_out-Succeeds Q w (err e, db) h = tt

  module _ {A : Type 0} (run : Db → Result DbError A × Db) (op : Op)
      (step : (db : Db) → (run db).1 ≡ apply_op env.json op db)
      (other : claims_for node_id op ≡ false) where
    -- An operation that claims nothing for the node.
    pub store-Busy : (who : ℕ → Bool) → Keeping (Busy who) (store run)
    unfolding store
    store-Busy who = record {
      run = λ w h.
          store_out-Succeeds (λ _. Busy who) w (run w.state.db)
            (λ a. rw (step w.state.db) (record {
              sound = apply_op-IsSoundDb op h.sound;
              held = apply_op-Held env.json w.state.db node_id who h.sound h.held op other;
            }));
    }

    pub store-IsTracked : Keeping IsTracked (store run)
    unfolding store
    store-IsTracked = record {
      run = λ w h.
          store_out-Succeeds (λ _. IsTracked) w (run w.state.db)
            (λ a. rw (step w.state.db) (record {
              sound = apply_op-IsSoundDb op h.sound;
              held = λ r.
                  apply_op-Held env.json w.state.db node_id (watched w.in_flight_task) h.sound
                    (h.held r) op other;
            }));
    }

  unix_now-Keeping :
      (P : World → Type 0)
      → ((w : World) → P w → P (record w { readings = w.readings + 1 }))
      → Keeping P (unix_now env)
  unfolding unix_now
  unix_now-Keeping P keep = record { run = λ w h. keep w h }

  link-Succeeds :
      (P : World → Type 0) (w : World) (bytes : List ℕ) (answer : Option String)
      → P (record w { sent = w.sent ++ bytes ∷ [] })
      → Succeeds (λ _. P) (answer_of_link w bytes answer)
  unfolding answer_of_link
  link-Succeeds P w bytes none h = h
  link-Succeeds P w bytes (some text) h = tt

  pub send-Busy :
      (who : ℕ → Bool) (frame : PbMqttFrame) → Keeping (Busy who) (send_mqtt_frame env frame)
  unfolding send_mqtt_frame
  send-Busy who frame = record {
    run = λ w h.
        link-Succeeds (Busy who) w _ (env.link w.sent (env.prost.frame.encode frame))
          (record { sound = h.sound; held = h.held });
  }

  pub send-IsTracked : (frame : PbMqttFrame) → Keeping IsTracked (send_mqtt_frame env frame)
  unfolding send_mqtt_frame
  send-IsTracked frame = record {
    run = λ w h.
        link-Succeeds IsTracked w _ (env.link w.sent (env.prost.frame.encode frame))
          (record { sound = h.sound; held = h.held });
  }

  pub send-IsIdle : (frame : PbMqttFrame) → Keeping IsIdle (send_mqtt_frame env frame)
  unfolding send_mqtt_frame
  send-IsIdle frame = record {
    run = λ w h.
        link-Succeeds IsIdle w _ (env.link w.sent (env.prost.frame.encode frame))
          (record { sound = h.sound; held = h.held });
  }

  pub now-Busy : (who : ℕ → Bool) → Keeping (Busy who) (unix_now env)
  now-Busy who = unix_now-Keeping (Busy who) (λ w h. record { sound = h.sound; held = h.held })

  pub now-IsTracked : Keeping IsTracked (unix_now env)
  now-IsTracked = unix_now-Keeping IsTracked (λ w h. record { sound = h.sound; held = h.held })

  -- After a claim, the task in progress is the claimed one.
  abbrev pub Claims : ClaimTaskOutcome → World → Type 0
  Claims (ClaimTaskOutcome.claimed task) w = Busy (only task.task_id) w
  Claims _ w = Busy nobody w

  claim-Succeeds :
      (now : ℕ) (w : World)
      → Busy nobody w
      → Succeeds Claims (store_result w (claim_task env.json now node_id w.state.db))
  claim-Succeeds now w h =
      let after : IsSoundDb env.json (claim_task env.json now node_id w.state.db).1 =
        apply_op-IsSoundDb (Op.claim now node_id) h.sound in
      elim (claim_task_cases env.json w.state.db now node_id) [
        | ClaimCases.unknown _ e ↦ rw e (record { sound = h.sound; held = h.held })
        | ClaimCases.unread row x _ _ e ↦ rw e tt
        | ClaimCases.idle _ _ e ↦ rw e (record { sound = rw e at after; held = h.held })
        | ClaimCases.took c ↦ rw c.result (record {
          sound = rw c.result at after;
          held = rw c.result at (claim-Held-only env.json w.state.db node_id h.sound c h.held);
        })
      ]

  pub claim-Claims : Ensures (Busy nobody) (claim env node_id) Claims
  unfolding claim store
  claim-Claims =
      bind-Ensures (λ _. Busy nobody) (now-Busy nobody)
        (λ now. record { run = λ w h. claim-Succeeds now w h })

  pub track-IsTracked :
      (task : PendingTask) → Ensures (Busy (only task.task_id)) (track env task) (λ _. IsTracked)
  unfolding track new_in_flight_task
  track-IsTracked task =
      bind-Ensures (λ _. Busy (only task.task_id)) (now-Busy (only task.task_id))
        (λ now. record {
          run = λ w h. record {
            sound = h.sound;
            held = λ _. All-map _ _ w.state.db.tasks (λ row k t. and_true (k t)) h.held;
          };
        })
    where
      and_true : {b : Bool} → b ≡ true → (b && true) ≡ true
      and_true e = ground arith

  pushed-IsTracked :
      (outcome : ClaimTaskOutcome)
      → Ensures (Claims outcome) (push_claimed env node_id outcome) (λ _. IsTracked)
  unfolding push_claimed publish_task_assignment
  pushed-IsTracked (ClaimTaskOutcome.claimed task) =
      bind-Ensures (λ _. Busy (only task.task_id)) (send-Busy (only task.task_id) _)
        (λ _. track-IsTracked task)
  pushed-IsTracked ClaimTaskOutcome.no_task = record { run = idle-IsTracked }
  pushed-IsTracked ClaimTaskOutcome.node_not_found = record { run = idle-IsTracked }

  -- Nothing in flight on a registered session: nothing is in progress.
  pub unwatched-Busy :
      (w : World) → IsTracked w → w.registered ≡ true → w.in_flight_task ≡ none → Busy nobody w
  unwatched-Busy w h r e = record { sound = h.sound; held = rw e at (h.held r) }

  pub try_dispatch-IsTracked : Keeping IsTracked (try_dispatch_next_task env node_id)
  unfolding try_dispatch_next_task
  try_dispatch-IsTracked =
      at-Ensures
        (λ w.
          not w.registered
          || is_some w.in_flight_task
          || not (contains (node_task_topic node_id) w.subscriptions))
        done (claim env node_id >>= push_claimed env node_id) (λ w h _. h)
        (λ w h e.
          (bind-Ensures Claims claim-Claims pushed-IsTracked).run w
            (unwatched-Busy w h (registered_of w e) (idle_of w e)))
    where
      registered_of :
          (w : World)
          → (not w.registered
              || is_some w.in_flight_task
              || not (contains (node_task_topic node_id) w.subscriptions))
            ≡ false
          → w.registered ≡ true
      registered_of w e = ground arith

      idle_of :
          (w : World)
          → (not w.registered
              || is_some w.in_flight_task
              || not (contains (node_task_topic node_id) w.subscriptions))
            ≡ false
          → w.in_flight_task ≡ none
      idle_of w e = ground arith
