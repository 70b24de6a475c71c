-- ===== src/Session/Inflight.antt =====
-- The session's frames and events keep it tracked, so a registered session has at most one task in
-- progress on its node.
use ruchat.Prelude.{
  ℕ, String, ◌≡◌, refl, sym, ◌∙◌, Bool, true, false, not, ◌==◌, ==_iff, str_eq, Option, none, some,
  Bool-cases, inl, inr, if◌then◌else◌,
}
use ruchat.Prelude.Updates.{All-map}
use ruchat.Prelude.Result.{Result, ok}
use ruchat.Protocol.Domain.{SessionEventKind, NodeSnapshot, SubmitTaskResultRequest}
use ruchat.Protocol.Conversions.{result_from_pb, registration_from_hello}
use ruchat.Protocol.Wire.{PayloadBody, PbCommandCatalog, PbTaskAck, PbTaskResult, PbClientHello}
use ruchat.Db.Rows.{Db, DbError}
use ruchat.Db.Tasks.{requeue_incomplete_tasks, submit_task_result, get_task}
use ruchat.Db.Events.{record_session_event}
use ruchat.Db.Ops.{Op}
use ruchat.Db.Preserve.{apply_op-IsSoundDb}
use ruchat.Db.Held.{Held, claims_for}
use ruchat.Db.Release.{nobody, submit-released}
use ruchat.Session.World.{InFlightTask, Outside, Action, store, unix_now, modify, ◌>>=◌}
use ruchat.Session.Dispatch.{set_in_flight, task_result_should_be_ignored}
use ruchat.Session.Publish.{
  record_event, accept_hello, catalog_stored, catalog_commands, accept_catalog, handle_hello_topic,
  handle_control_topic, accept_ack, handle_ack_topic, stray_result, finish_in_flight, accept_result,
  handle_result_topic, set_registered,
}
use ruchat.Session.Ensures.{Ensures, Keeping, bind-Ensures, if-Ensures}
use ruchat.Session.Single.{
  Busy, IsIdle, idle-IsTracked, any-IsTracked, store_out-Succeeds, store-Busy, store-IsTracked,
  now-Busy, now-IsTracked, try_dispatch-IsTracked,
}
use ruchat.Session.Tracking.{
  Tracked, Tracking, done-IsTracked, error-IsTracked, pull-IsTracked, Tracking-now, ignored-IsIdle,
  only-Held,
}
use ruchat.Session.Released.{Free, requeue-Free}

module _ (env : Outside) (node_id : String) where
  abbrev pub Kept : {A : Type 0} → Action A → Type 0
  Kept m = Keeping (Tracked env node_id) m

  -- A hello: the tasks in progress go back to the queue first.
  requeued-Busy :
      Ensures
        (Tracked env node_id)
        (store (λ db. (ok (tt {0}), requeue_incomplete_tasks node_id "node re-registered" db)))
        (λ _. Busy env node_id nobody)
  unfolding store requeue_incomplete_tasks
  requeued-Busy = record {
    run = λ w h. record {
      sound =
          unfold requeue_incomplete_tasks in
          apply_op-IsSoundDb (Op.requeue_incomplete node_id "node re-registered") h.sound;
      held =
          All-map (Free node_id) (Held node_id nobody) _ (λ row e t. sym e ∙ t)
            (requeue-Free env.json node_id "node re-registered" w.state.db.tasks h.sound.rows);
    };
  }

  event-Busy :
      (kind : SessionEventKind) (text : String)
      → Keeping (Busy env node_id nobody) (record_event env node_id kind text)
  unfolding record_event unix_now store record_session_event
  event-Busy kind text = record {
    run = λ w h. record {
      sound = apply_op-IsSoundDb (Op.record_event (env.clock w.readings) node_id kind text) h.sound;
      held = h.held;
    };
  }

  registered-IsTracked :
      Ensures (Busy env node_id nobody) (modify set_registered) (λ _. Tracked env node_id)
  registered-IsTracked = record {
    run = λ w h.
        idle-IsTracked env node_id (set_registered w) (record { sound = h.sound; held = h.held });
  }

  hello-Kept : (hello : PbClientHello) → Kept (accept_hello env node_id hello)
  unfolding accept_hello claims_for
  hello-Kept hello =
      bind-Ensures (λ _. Busy env node_id nobody) requeued-Busy
        λ _.
          bind-Ensures (λ _. Busy env node_id nobody) (now-Busy env node_id nobody)
            λ now.
              bind-Ensures (λ _. Busy env node_id nobody)
                (store-Busy env node_id _ (Op.register now (registration_from_hello hello))
                  (λ db. refl) refl nobody)
                λ _.
                  bind-Ensures (λ _. Busy env node_id nobody) (event-Busy _ _)
                    λ _.
                      bind-Ensures (λ _. Tracked env node_id) registered-IsTracked
                        λ _. try_dispatch-IsTracked env node_id

  catalog_stored-Kept : (node : Option NodeSnapshot) → Kept (catalog_stored env node_id node)
  unfolding catalog_stored
  catalog_stored-Kept none = error-IsTracked env node_id _
  catalog_stored-Kept (some node) = done-IsTracked env node_id

  catalog-Kept : (catalog : PbCommandCatalog) → Kept (accept_catalog env node_id catalog)
  unfolding accept_catalog claims_for
  catalog-Kept catalog =
      bind-Ensures (λ _. Tracked env node_id) (now-IsTracked env node_id)
        λ now.
          bind-Ensures (λ _. Tracked env node_id)
            (store-IsTracked env node_id _
              (Op.update_commands now node_id (catalog_commands catalog.commands)) (λ db. refl)
              refl)
            catalog_stored-Kept

  pub hello_topic-Kept : (body : Option PayloadBody) → Kept (handle_hello_topic env node_id body)
  unfolding handle_hello_topic
  hello_topic-Kept (some (PayloadBody.client_hello hello)) =
      if-Ensures (str_eq hello.node_id node_id) (hello-Kept hello) (error-IsTracked env node_id _)
  hello_topic-Kept (some (PayloadBody.command_catalog catalog)) = catalog-Kept catalog
  hello_topic-Kept _ = error-IsTracked env node_id _

  pub control_topic-Kept :
      (body : Option PayloadBody) → Kept (handle_control_topic env node_id body)
  unfolding handle_control_topic
  control_topic-Kept (some (PayloadBody.task_pull_request request)) =
      pull-IsTracked env node_id request
  control_topic-Kept (some (PayloadBody.node_error _)) = done-IsTracked env node_id
  control_topic-Kept (some (PayloadBody.task_cancel _)) = done-IsTracked env node_id
  control_topic-Kept (some (PayloadBody.session_info _)) = done-IsTracked env node_id
  control_topic-Kept (some (PayloadBody.task_pull_response _)) = done-IsTracked env node_id
  control_topic-Kept _ = error-IsTracked env node_id _

  ack-Kept : (ack : PbTaskAck) (task : Option InFlightTask) → Kept (accept_ack env node_id ack task)
  unfolding accept_ack claims_for
  ack-Kept ack none = error-IsTracked env node_id _
  ack-Kept ack (some task) =
      if-Ensures (not (task.task_id == ack.task_id)) (error-IsTracked env node_id _) (
        if-Ensures task.ignore_result (done-IsTracked env node_id) (
          bind-Ensures (λ _. Tracked env node_id) (now-IsTracked env node_id)
            λ now.
              bind-Ensures (λ _. Tracked env node_id)
                (store-IsTracked env node_id _ (Op.acknowledge now ack.task_id node_id) (λ db. refl)
                  refl)
                λ _. done-IsTracked env node_id))

  pub ack_topic-Kept : (body : Option PayloadBody) → Kept (handle_ack_topic env node_id body)
  unfolding handle_ack_topic
  ack_topic-Kept (some (PayloadBody.task_ack ack)) = record {
    run = λ w h. (ack-Kept ack w.in_flight_task).run w h;
  }
  ack_topic-Kept _ = error-IsTracked env node_id _

  reading-Kept : {A : Type 0} (read : Db → Result DbError A) → Kept (store (λ db. (read db, db)))
  unfolding store
  reading-Kept read = record {
    run = λ w h.
        store_out-Succeeds env node_id (λ _. Tracked env node_id) w (read w.state.db, w.state.db)
          (λ a. record { sound = h.sound; held = h.held });
  }

  ignored-Kept : (task_id : ℕ) → Kept (task_result_should_be_ignored env task_id)
  unfolding task_result_should_be_ignored
  ignored-Kept task_id =
      bind-Ensures (λ _. Tracked env node_id) (reading-Kept (λ db. get_task env.json db task_id))
        λ task. record { run = λ w h. h }

  stray-Kept : (result : PbTaskResult) (text : String) → Kept (stray_result env node_id result text)
  unfolding stray_result
  stray-Kept result text =
      bind-Ensures (λ _. Tracked env node_id) (ignored-Kept result.task_id)
        λ ignored.
          if-Ensures ignored (done-IsTracked env node_id) (error-IsTracked env node_id text)

  -- The end of the task in flight.
  cleared-IsTracked :
      Ensures (IsIdle env node_id) (modify (set_in_flight none)) (λ _. Tracked env node_id)
  cleared-IsTracked = record { run = λ w h. any-IsTracked env node_id w none h }

  finish-IsTracked :
      Ensures (IsIdle env node_id) (finish_in_flight env node_id) (λ _. Tracked env node_id)
  unfolding finish_in_flight
  finish-IsTracked =
      bind-Ensures (λ _. Tracked env node_id) cleared-IsTracked
        (λ _. try_dispatch-IsTracked env node_id)

  submitted-IsIdle :
      (task : InFlightTask) (id now : ℕ) (request : SubmitTaskResultRequest)
      → task.task_id ≡ id
      → request.node_id ≡ node_id
      → Ensures
          (Tracking env node_id (some task))
          (store (submit_task_result env.json now id request))
          (λ _. IsIdle env node_id)
  unfolding store
  submitted-IsIdle task id now request e owned = record {
    run = λ w h.
        store_out-Succeeds env node_id (λ _. IsIdle env node_id) w
          (submit_task_result env.json now id request w.state.db)
          (λ a. record {
            sound = apply_op-IsSoundDb (Op.submit now id request) h.0.sound;
            held = λ r.
                submit-released env.json w.state.db node_id h.0.sound id
                  (rw (← e) ((only-Held env node_id w task h r))) now request owned;
          });
  }

  -- The result that the session waits for.
  awaited-Kept :
      (result : PbTaskResult) (task : InFlightTask)
      → task.task_id ≡ result.task_id
      → Ensures
          (Tracking env node_id (some task))
          (unix_now env >>= λ now.
            store (
              submit_task_result env.json now result.task_id
                (record { node_id = node_id; result = result_from_pb result }))
            >>= λ _. finish_in_flight env node_id)
          (λ _. Tracked env node_id)
  awaited-Kept result task e =
      bind-Ensures (λ _. Tracking env node_id (some task)) (Tracking-now env node_id (some task))
        λ now.
          bind-Ensures (λ _. IsIdle env node_id)
            (submitted-IsIdle task result.task_id now
              (record { node_id = node_id; result = result_from_pb result }) e refl)
            λ _. finish-IsTracked

  -- The abbreviation of the model's last branch.
  abbrev awaited : PbTaskResult → Action Unit
  awaited result = unix_now env >>= λ now.
      store (
        submit_task_result env.json now result.task_id
          (record { node_id = node_id; result = result_from_pb result }))
      >>= λ _. finish_in_flight env node_id

  matched-Kept :
      (result : PbTaskResult) (task : InFlightTask) (ignored : Bool)
      → task.task_id ≡ result.task_id
      → task.ignore_result ≡ ignored
      → Ensures
          (Tracking env node_id (some task))
          (if ignored then finish_in_flight env node_id else awaited result)
          (λ _. Tracked env node_id)
  matched-Kept result task true e i = record {
    run = λ w h. finish-IsTracked.run w (ignored-IsIdle env node_id w task h i);
  }
  matched-Kept result task false e i = awaited-Kept result task e

  result-Kept :
      (result : PbTaskResult) (task : Option InFlightTask)
      → Ensures
          (Tracking env node_id task)
          (accept_result env node_id result task)
          (λ _. Tracked env node_id)
  unfolding accept_result
  result-Kept result none = record { run = λ w h. (stray-Kept result _).run w h.0 }
  result-Kept result (some task) = elim (Bool-cases (task.task_id == result.task_id)) [
    | inr e ↦ rw e (record { run = λ w h. (stray-Kept result _).run w h.0 })
    | inl e ↦ rw e (
        matched-Kept result task task.ignore_result ((==_iff task.task_id result.task_id).0 e) refl)
  ]

  pub result_topic-Kept : (body : Option PayloadBody) → Kept (handle_result_topic env node_id body)
  unfolding handle_result_topic
  result_topic-Kept (some (PayloadBody.task_result result)) = record {
    run = λ w h. (result-Kept result w.in_flight_task).run w (h, refl);
  }
  result_topic-Kept _ = error-IsTracked env node_id _
