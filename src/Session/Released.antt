-- ===== src/Session/Released.antt =====
-- What a session leaves behind: a sound store, and no task of its node in progress.
use ruchat.Prelude.{
  ℕ, String, arith, ◌≡◌, refl, Bool, true, false, ◌&&◌, Option, none, List, [], ◌∷◌, if◌then◌else◌,
  Bool-cases, inl, inr,
}
use ruchat.Prelude.Lists.{update, All}
use ruchat.Prelude.Result.{Result, ok, err}
use ruchat.Protocol.Domain.{queued}
use ruchat.Protocol.Codec.{Json}
use ruchat.Db.Rows.{TaskRow}
use ruchat.Db.Tasks.{of_node, in_progress, is_incomplete, requeue, requeue_incomplete_tasks}
use ruchat.Db.Lifecycle.{IsSound, in_progress_lem}
use ruchat.Db.Writes.{in_progress-IsOpen}
use ruchat.Db.Sound.{IsSoundDb}
use ruchat.Db.Events.{record_session_event}
use ruchat.Server.AppState.{remove_session}
use ruchat.Db.Preserve.{apply_ops-Kept}
use ruchat.Session.World.{Outside, World, store, unix_now, IoError}
use ruchat.Session.Socket.{
  FirstFrame, Step, Turn, go_on, leave, open_session, close_session, run_steps, end_session,
  handle_node_socket,
}
use ruchat.Session.Publish.{record_event}
use ruchat.Session.Life.{socket-Stores, open-Keeps, run_steps-Stores}

requeue_stops : (reason : String) (row : TaskRow) → in_progress (requeue reason row) ≡ false
requeue_stops reason row = in_progress_lem queued (requeue reason row) (unfold requeue in refl)

-- A row that is not requeued is not in progress, or not the node's.
left_alone :
    (node_id : String) (row : TaskRow)
    → (in_progress row ≡ true → row.finished_at_unix_secs ≡ none)
    → is_incomplete node_id row ≡ false
    → (of_node node_id row && in_progress row) ≡ false
unfolding is_incomplete
left_alone node_id row h e = elim (Bool-cases (in_progress row)) [
  | inl p ↦ let f = h p in ground arith
  | inr p ↦ ground arith
]

-- The row is no task in progress on the node.
abbrev pub Free : String → TaskRow → Type 0
Free node_id row = (of_node node_id row && in_progress row) ≡ false

module _ (json : Json) (node_id : String) where
  requeue_if-Free :
      (reason : String) (row : TaskRow)
      → IsSound json row
      → Free node_id (if is_incomplete node_id row then requeue reason row else row)
  unfolding requeue
  requeue_if-Free reason row h = elim (Bool-cases (is_incomplete node_id row)) [
    | inl e ↦ rw e (rw (requeue_stops reason row) (and_false (of_node node_id row)))
    | inr e ↦ rw e (left_alone node_id row (λ p. (in_progress-IsOpen h p).1) e)
  ]
    where
      and_false : (b : Bool) → (b && false) ≡ false
      and_false b = ground arith

  pub requeue-Free :
      (reason : String) (rows : List TaskRow)
      → All (IsSound json) rows
      → All (Free node_id) (update (is_incomplete node_id) (requeue reason) rows)
  unfolding update
  requeue-Free reason [] h = tt
  requeue-Free reason (row ∷ rows) h =
      (requeue_if-Free reason row h.0, requeue-Free reason rows h.1)

module _ (env : Outside) (pong_link : List ℕ → Option String) (node_id : String) where
  -- Whatever frames, signals, ticks and operations of other parts happen, and wherever the session
  -- fails, a sound store is sound after it.
  pub handle_node_socket-IsSoundDb :
      (channel : ℕ) (first : FirstFrame) (steps : List Step) (w : World)
      → IsSoundDb env.json w.state.db
      → IsSoundDb env.json (handle_node_socket env pong_link node_id channel first steps w).state.db
  handle_node_socket-IsSoundDb channel first steps w h =
      let s = socket-Stores env pong_link node_id channel first steps w in
      rw (← s.applied) (apply_ops-Kept s.ops w.state.db h)

  run-IsSoundDb :
      (steps : List Step) (w : World)
      → IsSoundDb env.json w.state.db
      → IsSoundDb env.json (run_steps env pong_link node_id steps w).state.db
  run-IsSoundDb steps w h =
      let s = run_steps-Stores env pong_link node_id steps w in
      rw (← s.applied) (apply_ops-Kept s.ops w.state.db h)

  close_session_tasks :
      (w : World)
      → (close_session env node_id w).1.state.db.tasks
        ≡ update (is_incomplete node_id) (requeue "node session closed") w.state.db.tasks
  unfolding close_session record_event store unix_now record_session_event requeue_incomplete_tasks
      remove_session
  close_session_tasks w = refl

  end-Free :
      (steps : List Step) (out : Result IoError Turn × World)
      → IsSoundDb env.json out.1.state.db
      → out.0 ≡ ok go_on
      → All (Free node_id) (end_session env pong_link node_id steps out).state.db.tasks
  unfolding end_session
  end-Free steps (ok go_on, w) h e =
      rw (close_session_tasks (run_steps env pong_link node_id steps w))
        (requeue-Free env.json node_id "node session closed" _ (run-IsSoundDb steps w h).rows)
  end-Free steps (ok leave, w) h e = cc
  end-Free steps (err _, w) h e = cc

  -- A session that was opened on a sound store leaves no task of its node in progress, whatever
  -- happened in it.
  pub handle_node_socket_released :
      (channel : ℕ) (first : FirstFrame) (steps : List Step) (w : World)
      → IsSoundDb env.json w.state.db
      → (open_session env node_id channel first w).0 ≡ ok go_on
      → All
          (Free node_id)
          (handle_node_socket env pong_link node_id channel first steps w).state.db.tasks
  unfolding handle_node_socket
  handle_node_socket_released channel first steps w h e =
      let s = (open-Keeps env node_id channel first).run w in
      end-Free steps (open_session env node_id channel first w)
        (rw (← s.applied) (apply_ops-Kept s.ops w.state.db h)) e
