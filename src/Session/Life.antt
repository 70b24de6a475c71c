-- ===== src/Session/Life.antt =====
-- The whole session: the shared store changes by operations of the store only, it stays sound, and
-- the end of a session leaves no task of the node in progress.
use ruchat.Prelude.{ℕ, String, arith, refl, str_eq, Option, List, [], ◌∷◌}
use ruchat.Prelude.Result.{Result, ok, err}
use ruchat.Protocol.Domain.{SessionEventKind, session_opened, session_closed}
use ruchat.Protocol.Wire.{PbMqttConnect}
use ruchat.Db.Tasks.{requeue_incomplete_tasks}
use ruchat.Db.Ops.{Op, apply_op, apply_ops}
use ruchat.Server.Auth.{verify_node_token}
use ruchat.Server.AppState.{remove_session, SessionSignal}
use ruchat.Session.World.{Outside, World, Action, IoError, with_db, return, ◌>>=◌}
use ruchat.Session.Socket.{
  Event, FirstFrame, Received, Step, Turn, go_on, leave, turn, elsewhere, refuse, accepted, admit,
  check_connect, open_session, handle_tick, handle_received, handle_event, close_session, run_steps,
  resume, end_session, handle_node_socket, start_session,
}
use ruchat.Session.Stores.{
  Stores, Stores-order, bind-Runs, attempt-Runs, untouched-Runs, store-Runs,
}
use ruchat.Session.Ops.{
  at_world, Keeps, modify-Keeps, unix_now-Keeps, send-Keeps, record_event-Keeps, timeout-Keeps,
  try_dispatch-Keeps, cancel_signal-Keeps,
}
use ruchat.Session.Handlers.{binary-Keeps}

module _ (env : Outside) where
  infixl 5 ◌>>>◌
  ◌>>>◌ :
      {A B : Type 0} {m : Action A} {f : A → Action B}
      → Keeps env m
      → ((a : A) → Keeps env (f a))
      → Keeps env (m >>= f)
  h >>> k = bind-Runs (Stores-order env) h k

  return-Keeps : {A : Type 0} (a : A) → Keeps env (return a)
  return-Keeps a = untouched-Runs env (λ w. refl)

  tick-Keeps : (node_id : String) → Keeps env (handle_tick env node_id)
  unfolding handle_tick
  tick-Keeps node_id =
      timeout-Keeps env node_id >>> λ _. unix_now-Keeps env >>> λ now. send-Keeps env _

  module _ (pong_link : List ℕ → Option String) (node_id : String) where
    received-Keeps : (item : Received) → Keeps env (handle_received env pong_link node_id item)
    unfolding handle_received
    received-Keeps (Received.binary bytes) =
        binary-Keeps env node_id bytes >>> λ _. return-Keeps go_on
    received-Keeps (Received.ping payload) = untouched-Runs env (λ w. ground arith)
    received-Keeps _ = untouched-Runs env (λ w. refl)

    event-Keeps : (event : Event) → Keeps env (handle_event env pong_link node_id event)
    unfolding handle_event
    event-Keeps Event.tick = tick-Keeps node_id >>> λ _. return-Keeps go_on
    event-Keeps (Event.signal SessionSignal.try_dispatch) =
        try_dispatch-Keeps env node_id >>> λ _. return-Keeps go_on
    event-Keeps (Event.signal (SessionSignal.cancel_task task_id reason)) =
        cancel_signal-Keeps env node_id task_id reason >>> λ _. return-Keeps go_on
    event-Keeps (Event.message item) = received-Keeps item
    event-Keeps _ = return-Keeps leave

    -- The operations that other parts run count as well.
    elsewhere-Stores :
        (op : Op) (w : World) → Stores env w (with_db w (apply_op env.json op w.state.db))
    unfolding apply_ops
    elsewhere-Stores op w = record { ops = op ∷ []; applied = refl }

    resume-Stores :
        (out : Result IoError Turn) (before rest w : World)
        → Stores env before w
        → Stores env w rest
        → Stores env before (resume env out rest w)
    resume-Stores (ok go_on) before rest w h k = (Stores-order env).next before w rest h k
    resume-Stores (ok leave) before rest w h k = h
    resume-Stores (err _) before rest w h k = h

    pub run_steps-Stores :
        (steps : List Step) (w : World) → Stores env w (run_steps env pong_link node_id steps w)
    unfolding run_steps
    run_steps-Stores [] w = (Stores-order env).same w
    run_steps-Stores (elsewhere op ∷ steps) w =
        (Stores-order env).next w _ _ (elsewhere-Stores op w) (run_steps-Stores steps _)
    run_steps-Stores (turn event ∷ steps) w =
        resume-Stores _ w _ _ ((event-Keeps event).run w) (run_steps-Stores steps _)

  refuse-Keeps :
      (node_id : String) (kind : SessionEventKind) (reason : String)
      → Keeps env (refuse env node_id kind reason)
  unfolding refuse
  refuse-Keeps node_id kind reason = record_event-Keeps env node_id kind reason >>> λ _.
      attempt-Runs (send-Keeps env _) >>> λ _. return-Keeps leave

  accepted-Keeps :
      (node_id : String) (channel : ℕ) (sent : Result IoError (Unit {0}))
      → Keeps env (accepted env node_id channel sent)
  unfolding accepted
  accepted-Keeps node_id channel (err _) = return-Keeps leave
  accepted-Keeps node_id channel (ok _) =
      modify-Keeps env (start_session node_id channel) (λ w. unfold start_session in refl) >>> λ _.
      record_event-Keeps env node_id session_opened "mqtt connected" >>> λ _. return-Keeps go_on

  admit-Keeps :
      (node_id : String) (channel : ℕ) (verified : Result String (Unit {0}))
      → Keeps env (admit env node_id channel verified)
  unfolding admit
  admit-Keeps node_id channel (err reason) = refuse-Keeps node_id _ reason
  admit-Keeps node_id channel (ok _) = record {
    run = λ w.
        (Stores-order env).next w _ _ ((send-Keeps env _).run w)
          ((accepted-Keeps node_id channel _).run _);
  }

  connect-Keeps :
      (node_id : String) (channel : ℕ) (connect : Result String PbMqttConnect)
      → Keeps env (check_connect env node_id channel connect)
  unfolding check_connect
  connect-Keeps node_id channel (err error) = refuse-Keeps node_id _ error
  connect-Keeps node_id channel (ok connect) =
      at_world env (λ w. str_eq connect.client_id node_id)
        (λ w.
          admit-Keeps node_id channel (verify_node_token w.state.auth node_id connect.auth_token))
        (λ w. refuse-Keeps node_id _ _)

  pub open-Keeps :
      (node_id : String) (channel : ℕ) (first : FirstFrame)
      → Keeps env (open_session env node_id channel first)
  unfolding open_session
  open-Keeps node_id channel first = connect-Keeps node_id channel _

  close-Keeps : (node_id : String) → Keeps env (close_session env node_id)
  unfolding close_session
  close-Keeps node_id =
      modify-Keeps env (λ w. record w { state = remove_session node_id w.state })
        (λ w. unfold remove_session in refl)
      >>> λ _. record_event-Keeps env node_id session_closed "node session closed" >>> λ _.
          store-Runs env
            (λ db. (ok (tt {0}), requeue_incomplete_tasks node_id "node session closed" db))
            (Op.requeue_incomplete node_id "node session closed") (λ db. refl)

  module _ (pong_link : List ℕ → Option String) (node_id : String) where
    end-Stores :
        (steps : List Step) (out : Result IoError Turn × World)
        → Stores env out.1 (end_session env pong_link node_id steps out)
    unfolding end_session
    end-Stores steps (ok go_on, w) =
        (Stores-order env).next w _ _ (run_steps-Stores pong_link node_id steps w)
          ((close-Keeps node_id).run _)
    end-Stores steps (ok leave, w) = (Stores-order env).same w
    end-Stores steps (err e, w) = (Stores-order env).same w

    pub socket-Stores :
        (channel : ℕ) (first : FirstFrame) (steps : List Step) (w : World)
        → Stores env w (handle_node_socket env pong_link node_id channel first steps w)
    unfolding handle_node_socket
    socket-Stores channel first steps w =
        (Stores-order env).next w _ _ ((open-Keeps node_id channel first).run w)
          (end-Stores steps _)
