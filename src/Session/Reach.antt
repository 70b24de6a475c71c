-- ===== src/Session/Reach.antt =====
-- apps/command-server/src/session.rs: the worlds that the loop of a session passes through, and what
-- holds in all of them.
use ruchat.Prelude.{arith, ℕ, String, ◌≡◌, true, false, Option, List}
use ruchat.Prelude.Lists.{All}
use ruchat.Prelude.Result.{Result, ok}
use ruchat.Db.Sound.{IsSoundDb}
use ruchat.Db.Held.{Held, claims_for, apply_op-Held}
use ruchat.Db.Ops.{Op, apply_op}
use ruchat.Db.Preserve.{apply_op-IsSoundDb}
use ruchat.Session.World.{Outside, World, IoError, with_db}
use ruchat.Session.Socket.{Event, go_on, handle_event}
use ruchat.Session.Ensures.{Succeeds}
use ruchat.Session.Single.{watched, IsTracked}
use ruchat.Session.Turns.{IsTimely, event-IsTracked}

module _ (env : Outside) (pong_link : List ℕ → Option String) (node_id : String) where
  -- From one world to another: turns that go on, and between them operations of other parts of the
  -- server, which claim no task for the node. A cancel signal comes when its task is not in progress:
  -- `cancel_task` ended it before the signal was sent.
  pub data Reach (w : World) : World → Type 0 where
    here : Reach w w
    turn :
        {v : World} (event : Event)
        → Reach w v
        → IsTimely env node_id event v
        → (handle_event env pong_link node_id event v).0 ≡ ok go_on
        → Reach w (handle_event env pong_link node_id event v).1
    elsewhere :
        {v : World} (op : Op)
        → Reach w v
        → claims_for node_id op ≡ false
        → Reach w (with_db v (apply_op env.json op v.state.db))

  -- What an action ensures, once it succeeded.
  succeeded :
      {A : Type 0} (Q : A → World → Type 0) (out : Result IoError A × World) (a : A)
      → Succeeds Q out
      → out.0 ≡ ok a
      → Q a out.1
  succeeded Q (r, v) a h e = rw e at h

  elsewhere-IsTracked :
      (op : Op) (w : World)
      → claims_for node_id op ≡ false
      → IsTracked env node_id w
      → IsTracked env node_id (with_db w (apply_op env.json op w.state.db))
  elsewhere-IsTracked op w other h = record {
    sound = apply_op-IsSoundDb op h.sound;
    held = λ r.
        apply_op-Held env.json w.state.db node_id (watched w.in_flight_task) h.sound (h.held r) op
          other;
  }

  Reach-IsTracked : {w v : World} → IsTracked env node_id w → Reach w v → IsTracked env node_id v
  Reach-IsTracked h here = h
  Reach-IsTracked h (turn event steps timely e) =
      succeeded (λ _. IsTracked env node_id) _ go_on
        ((event-IsTracked env node_id pong_link event).run _ (Reach-IsTracked h steps, timely)) e
  Reach-IsTracked h (elsewhere op steps e) = elsewhere-IsTracked op _ e (Reach-IsTracked h steps)

  -- From a sound store and a session that is not registered yet, as long as the other parts of the
  -- server claim no task for the node (so no second session of the node runs) and a cancel signal
  -- comes only for a task that is no longer in progress, the loop, whatever else its events and
  -- those parts do, only reaches worlds in which, if the session is registered, every task in
  -- progress on its node has the id of the task in flight, whose result is not to be ignored: the
  -- node works on at most one task.
  pub single_inflight :
      (w v : World)
      → IsSoundDb env.json w.state.db
      → w.registered ≡ false
      → Reach w v
      → v.registered ≡ true
      → All (Held node_id (watched v.in_flight_task)) v.state.db.tasks
  single_inflight w v sound unregistered steps =
      (Reach-IsTracked (record { sound = sound; held = λ r. absurd (grind arith) }) steps).held
