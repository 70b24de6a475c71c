-- ===== src/Server/Api/Canceling.antt =====
-- apps/command-server/src/http.rs: a cancel through the interface, and the signal that it sends.
use ruchat.Prelude.{
  ℕ, String, ◌≡◌, refl, Bool, true, false, Bool-cases, inl, inr, Option, none, some, ◌++◌, sym, ap,
  ◌∙◌, List, [], ◌∷◌, arith, ==_iff, Option-cases,
}
use ruchat.Prelude.Lists.{find, update, All}
use mathlib.Core.Path.{subst}
use ruchat.Prelude.Updates.{find_holds, All-find}
use ruchat.Prelude.Result.{ok, Result-cases}
use ruchat.Protocol.Domain.{TaskSnapshot}
use ruchat.Protocol.Codec.{Json}
use ruchat.Db.Rows.{Db, TaskRow, CancelTaskOutcome, TaskAudit, has_id}
use ruchat.Db.Text.{task_status_from_str}
use ruchat.Db.Read.{read_task, get_task_inner}
use ruchat.Db.Tasks.{cancel, cancel_task, in_progress, coalesce, is_cancelable}
use ruchat.Db.Held.{cancel-stops}
use ruchat.Server.AppState.{AppState, SessionSignal, send_signal, notify_task_cancel}
use ruchat.Prelude.Maps.{lookup}
use mathlib.Core.List.{append-nil}
use ruchat.Server.Api.Guard.{send-db}
use ruchat.Server.Api.Handlers.{ApiResponse, api_audit, with_store, canceled_answer, cancel_handler}

-- What was written over where the test holds.
All-updated :
    {A : Type 0} (P : A → Type 0) (p : A → Bool) (f : A → A) (xs : List A)
    → ((x : A) → P (f x))
    → All (λ x. p x ≡ true → P x) (update p f xs)
unfolding update
All-updated P p f [] h = tt
All-updated P p f (x ∷ xs) h = elim (Bool-cases (p x)) [
  | inl e ↦ rw e ((λ _. h x), All-updated P p f xs h)
  | inr e ↦ rw e ((λ t. absurd (grind arith)), All-updated P p f xs h)
]

read_task-id :
    (json : Json) (row : TaskRow) (task : TaskSnapshot)
    → read_task json row ≡ ok task
    → task.task_id ≡ row.task_id
unfolding read_task
read_task-id json row task e = ground arith

-- The reason that a cancel stores.
abbrev pub reason_text : Option String → String
reason_text none = "canceled by server"
reason_text (some reason) = reason

-- What goes out when a signal is sent on a channel that may be there.
abbrev pub signals_to : Option ℕ → SessionSignal → List (ℕ × SessionSignal)
signals_to none signal = []
signals_to (some channel) signal = (channel, signal) ∷ []

send-signals :
    (signal : SessionSignal) (state : AppState) (sender : Option ℕ)
    → (send_signal signal state sender).sent_signals
      ≡ state.sent_signals ++ signals_to sender signal
unfolding send_signal
send-signals signal state none = sym (append-nil state.sent_signals)
send-signals signal state (some channel) = refl

read_task-reason :
    (json : Json) (row : TaskRow) (task : TaskSnapshot)
    → read_task json row ≡ ok task
    → task.cancel_reason ≡ row.cancel_reason
unfolding read_task
read_task-reason json row task e = ground arith

module _ (json : Json) (now task_id : ℕ) (reason : Option String) where
  -- The store after the update, and the snapshot that was read from it.
  record Stored (audit : TaskAudit) (db : Db) (task : TaskSnapshot) : Type 0 where
    stored : (cancel_task json now task_id reason audit db).1 ≡ record db {
      tasks =
          update
            (has_id task_id)
            (cancel now (coalesce reason "canceled by server") audit)
            db.tasks;
    }
    reread :
        get_task_inner json (cancel_task json now task_id reason audit db).1 task_id
        ≡ ok (some task)

  canceled-Stored :
      (audit : TaskAudit) (db : Db) (task : TaskSnapshot)
      → (cancel_task json now task_id reason audit db).0 ≡ ok (CancelTaskOutcome.canceled task)
      → Stored audit db task
  unfolding cancel_task
  canceled-Stored audit db task e = elim (Option-cases (find (has_id task_id) db.tasks)) [
    | inl absent ↦ absurd (grind arith)
    | inr (row, found) ↦ elim (Result-cases (task_status_from_str row.status)) [
      | inr (e', unread) ↦ absurd (grind arith)
      | inl (status, spelled) ↦ elim (Bool-cases (is_cancelable status)) [
        | inr closed ↦ absurd (grind arith)
        | inl cancelable ↦ record { stored = ground arith; reread = ground arith }
      ]
    ]
  ]

  reread-id :
      (db : Db) (task : TaskSnapshot)
      → get_task_inner json db task_id ≡ ok (some task)
      → task.task_id ≡ task_id
  unfolding get_task_inner has_id
  reread-id db task e = elim (Option-cases (find (has_id task_id) db.tasks)) [
    | inl absent ↦ absurd (grind arith)
    | inr (row, found) ↦ elim (Result-cases (read_task json row)) [
      | inr (e', unread) ↦ absurd (grind arith)
      | inl (t, reads) ↦
          let id = read_task-id json row t reads in
          let held = (==_iff row.task_id task_id).0 (find_holds (has_id task_id) db.tasks found) in
          grind arith
    ]
  ]

  Reasoned : TaskRow → Type 0
  Reasoned row = has_id task_id row ≡ true → row.cancel_reason ≡ some (reason_text reason)

  cancel-reason :
      (audit : TaskAudit) (row : TaskRow)
      → (cancel now (coalesce reason "canceled by server") audit row).cancel_reason
        ≡ some (reason_text reason)
  unfolding cancel
  cancel-reason audit row = ap (λ t. some t) (by_reason reason)
    where
      by_reason : (given : Option String) → coalesce given "canceled by server" ≡ reason_text given
      by_reason none = refl
      by_reason (some text) = refl

  reread-reason :
      (db : Db) (task : TaskSnapshot)
      → All Reasoned db.tasks
      → get_task_inner json db task_id ≡ ok (some task)
      → task.cancel_reason ≡ some (reason_text reason)
  unfolding get_task_inner Reasoned
  reread-reason db task h e = elim (Option-cases (find (has_id task_id) db.tasks)) [
    | inl absent ↦ absurd (grind arith)
    | inr (row, found) ↦ elim (Result-cases (read_task json row)) [
      | inr (e', unread) ↦ absurd (grind arith)
      | inl (t, reads) ↦
          let held = find_holds (has_id task_id) db.tasks found in
          let stored = All-find Reasoned (has_id task_id) db.tasks h found held in
          let read = read_task-reason json row t reads in
          let same : t ≡ task = grind arith in ap (λ s. s.cancel_reason) (sym same) ∙ read ∙ stored
    ]
  ]

  -- What a cancel leaves behind that is answered with a task.
  abbrev pub Canceled : AppState → TaskSnapshot → AppState → Type 0
  Canceled state task after =
      All (λ row. has_id task_id row ≡ true → in_progress row ≡ false) after.db.tasks
      × (task.task_id ≡ task_id)
      × (task.cancel_reason ≡ some (reason_text reason))
      × (after.sent_signals
          ≡ state.sent_signals
            ++ signals_to (lookup task.node_id state.sessions)
                (SessionSignal.cancel_task task_id (some (reason_text reason))))

  answered-Canceled :
      (state : AppState) (task : TaskSnapshot)
      → (cancel_task json now task_id reason (api_audit state) state.db).0
        ≡ ok (CancelTaskOutcome.canceled task)
      → Canceled state task (
          notify_task_cancel task.node_id task.task_id task.cancel_reason
            (with_store state (cancel_task json now task_id reason (api_audit state) state.db).1))
  unfolding notify_task_cancel Reasoned
  answered-Canceled state task d =
      let done = canceled-Stored (api_audit state) state.db task d in
      let after =
        with_store state (cancel_task json now task_id reason (api_audit state) state.db).1 in
      let id = reread-id _ task done.reread in
      let stopped =
        All-updated (λ row. in_progress row ≡ false) (has_id task_id) _ state.db.tasks
          (cancel-stops now (coalesce reason "canceled by server") (api_audit state)) in
      let reasons =
        All-updated (λ row. row.cancel_reason ≡ some (reason_text reason)) (has_id task_id) _
          state.db.tasks (cancel-reason (api_audit state)) in
      let given = reread-reason after.db task (rw done.stored reasons) done.reread in
      let sent =
        send-signals (SessionSignal.cancel_task task.task_id task.cancel_reason) after
          (lookup task.node_id state.sessions) in
      (
        rw
            (send-db (SessionSignal.cancel_task task.task_id task.cancel_reason) after
              (lookup task.node_id state.sessions))
            (rw done.stored stopped),
        id,
        given,
        sent ∙ rw (id, given) refl,
      )

  -- A cancel through the interface that is answered with a task: it is the task of this id, no row with
  -- the id is in progress any more, the task has the given reason, or a fixed one if none was given, and
  -- the session of the task's node, if it has one, is sent the cancel signal for this id with that
  -- reason; nothing else is sent.
  pub cancel_handler_signals :
      (state : AppState) (snapshot : TaskSnapshot)
      → (cancel_handler json now task_id reason state).0 ≡ ok (ApiResponse.task snapshot)
      → Canceled state snapshot (cancel_handler json now task_id reason state).1
  unfolding cancel_handler canceled_answer
  cancel_handler_signals state snapshot e =
      elim (Result-cases (cancel_task json now task_id reason (api_audit state) state.db).0) [
        | inr (error, failed) ↦ absurd (grind arith)
        | inl (outcome, done) ↦ rw done (by_outcome outcome done (rw done at e))
      ]
    where
      by_outcome :
          (outcome : CancelTaskOutcome)
          → (cancel_task json now task_id reason (api_audit state) state.db).0 ≡ ok outcome
          → let out =
              canceled_answer
                (with_store state
                  (cancel_task json now task_id reason (api_audit state) state.db).1)
                (ok outcome) in
            out.0 ≡ ok (ApiResponse.task snapshot) → Canceled state snapshot out.1
      by_outcome CancelTaskOutcome.not_found d e = absurd (grind arith)
      by_outcome CancelTaskOutcome.not_cancelable d e = absurd (grind arith)
      by_outcome (CancelTaskOutcome.canceled task) d e =
          let same : task ≡ snapshot = grind arith in
          subst
            (λ t. Canceled state t (
              notify_task_cancel task.node_id task.task_id task.cancel_reason (
                with_store state
                  (cancel_task json now task_id reason (api_audit state) state.db).1)))
            same (answered-Canceled state task d)
