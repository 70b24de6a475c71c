-- ===== src/Client/Delivery.antt =====
-- apps/command-client/src/ws.rs and apps/command-server/src/session.rs: a result that the client
-- publishes, at the server.
use ruchat.Db.Ops.{Op}
use ruchat.Db.Preserve.{apply_op-IsSoundDb}
use ruchat.Session.Handlers.{finish-Keeps}
use ruchat.Protocol.Codec.{Json}
use ruchat.Prelude.Result.{Result, ok, err}
use Prim.Native.String.{◌++◌ as str_append, count}
use text.Mathlib.TextLemmas.{length-append as count_append}
use ruchat.Prelude.{
  ℕ, ◌+◌, String, ◌≡◌, refl, sym, ap, ◌∙◌, true, some, false, Bool-cases, inl, inr, arith, str_eq,
  eq_iff, eq_refl, if◌then◌else◌, Bool, ◌==◌,
}
use ruchat.Protocol.Domain.{ExecutionResult, TaskStatus, SubmitTaskResultRequest}
use ruchat.Protocol.Topic.{node_hello_topic, node_control_topic, node_ack_topic, node_result_topic}
use ruchat.Protocol.Wire.{PayloadBody}
use ruchat.Protocol.Conversions.{result_from_pb}
use ruchat.Prelude.Lists.{find}
use ruchat.Db.Rows.{Db, TaskRow, has_id, DbError, SubmitTaskResultOutcome}
use ruchat.Db.Text.{task_status_to_str}
use ruchat.Db.Tasks.{accepts_result, result_status, finish, submit_task_result}
use ruchat.Db.Sound.{IsSoundDb}
use ruchat.Db.Transitions.{is_final}
use ruchat.Db.Submit.{final_kept, submit_task_result_accepted, final_result}
use ruchat.Session.Ops.{Keeps}
use ruchat.Session.World.{
  Outside, World, Action, InFlightTask, unix_now, continue, store_result, with_db, store,
}
use ruchat.Session.Publish.{
  by_topic, decoded_payload, handle_publish, handle_body, handle_binary_message,
  handle_result_topic, accept_result,
}
use ruchat.Client.World.{Machine}
use ruchat.Client.Session.{publish_frame, task_result_to_pb}

unequal : (s t : String) → (s ≡ t → ⊥) → str_eq s t ≡ false
unequal s t h = elim (Bool-cases (str_eq s t)) [ inl e ↦ absurd (h ((eq_iff s t).0 e)) | inr e ↦ e ]

-- The topics of a node differ in their lengths.
topic_count :
    (node_id suffix : String)
    → count (str_append "nodes/" (str_append node_id suffix)) ≡ 6 + (count node_id + count suffix)
topic_count node_id suffix =
    omega (arith, count_append "nodes/" (str_append node_id suffix), count_append node_id suffix)

topics_apart :
    (node_id s t : String)
    → (count s ≡ count t → ⊥)
    → str_eq
        (str_append "nodes/" (str_append node_id s))
        (str_append "nodes/" (str_append node_id t))
      ≡ false
topics_apart node_id s t apart = unequal _ _ (λ e.
    let counts = sym (topic_count node_id s) ∙ ap count e ∙ topic_count node_id t in
    apart (omega (arith, counts)))

-- The server reads the result topic as such.
on_result_topic :
    {A : Type 0} (node_id : String) (hello control ack result other : A)
    → (if str_eq (node_result_topic node_id) (node_hello_topic node_id)
        then hello
        else if str_eq (node_result_topic node_id) (node_control_topic node_id)
        then control
        else if str_eq (node_result_topic node_id) (node_ack_topic node_id)
        then ack
        else if str_eq (node_result_topic node_id) (node_result_topic node_id)
        then result
        else other)
      ≡ result
unfolding node_hello_topic node_control_topic node_ack_topic node_result_topic
on_result_topic node_id hello control ack result other =
    rw (topics_apart node_id "/result" "/hello" (λ e. omega (arith, e))) (
      rw (topics_apart node_id "/result" "/control" (λ e. omega (arith, e))) (
        rw (topics_apart node_id "/result" "/ack" (λ e. omega (arith, e)))
          (rw (eq_refl (str_append "nodes/" (str_append node_id "/result"))) refl)))

-- What a session does next changes the store by its operations only, and a finished row stays.
module _ (server : Outside) (node_id : String) (task_id : ℕ) (row : TaskRow) (status : TaskStatus)
    (spelled : row.status ≡ task_status_to_str status) (final : is_final status ≡ true) where
  kept_after :
      {A : Type 0} (m : Action A) (w : World)
      → Keeps server m
      → IsSoundDb server.json w.state.db
      → find (has_id task_id) w.state.db.tasks ≡ some row
      → find (has_id task_id) (m w).1.state.db.tasks ≡ some row
  kept_after m w keeps sound found =
      let stores = keeps.run w in
      rw (← stores.applied)
        (final_kept server.json task_id row status spelled final stores.ops w.state.db sound found)

-- The row that the store wrote for a result is still there when the session went on.
module _ (server : Outside) (node_id : String) (task_id : ℕ) (row : TaskRow) (status : TaskStatus)
    (spelled : row.status ≡ task_status_to_str status) (final : is_final status ≡ true) where
  stored_after :
      {A B : Type 0} {next : Action B}
      → Keeps server next
      → (w : World) (stored : Result DbError A × Db) (answer : A) → stored.0 ≡ ok answer
      → IsSoundDb server.json stored.1
      → find (has_id task_id) stored.1.tasks ≡ some row
      → find (has_id task_id) (continue (λ _. next) (store_result w stored)).1.state.db.tasks
        ≡ some row
  stored_after keeps w (ok a, db) answer e sound found =
      kept_after server node_id task_id row status spelled final _ (with_db w db) keeps sound found
  stored_after keeps w (err text, db) answer e sound found = absurd (grind arith)

-- What is stored for a result of a task.
abbrev pub Stored : Json → ℕ → ExecutionResult → Db → Type 0
Stored json task_id result db =
    (row : TaskRow) × (find (has_id task_id) db.tasks ≡ some row)
    × (row.status ≡ (if result.success then "succeeded" else "failed"))
    × (row.result_json ≡ some (json.result.encode result))

finished_text :
    (success : Bool)
    → task_status_to_str (result_status success) ≡ (if success then "succeeded" else "failed")
unfolding task_status_to_str
finished_text true = refl
finished_text false = refl

module _ (server : Outside) (client : Machine) (same : client.prost ≡ server.prost) where
  -- The server takes the published bytes as the result for the task in flight.
  taken_as_result :
      (node_id : String) (task_id : ℕ) (result : ExecutionResult) (w : World)
      → let pb = task_result_to_pb task_id result in
        let frame = publish_frame client (node_result_topic node_id) (PayloadBody.task_result pb) in
        handle_binary_message server node_id (client.prost.frame.encode frame) w
        ≡ accept_result server node_id pb w.in_flight_task w
  unfolding handle_binary_message handle_body handle_publish decoded_payload by_topic
      handle_result_topic
  taken_as_result node_id task_id result w = rw same (
      rw (server.prost.frame.decode-encode _) (
        rw (server.prost.payload.decode-encode _)
          (ap {A = Action Unit} (λ m. m w) (on_result_topic node_id _ _ _ _ _))))

  -- The result of the task in flight is stored, and what the session does then keeps it.
  accepted_Stored :
      (node_id : String) (task_id : ℕ) (result : ExecutionResult) (w : World)
      (current : InFlightTask) (row : TaskRow) (status : TaskStatus)
      → IsSoundDb server.json w.state.db
      → current.task_id ≡ task_id
      → current.ignore_result ≡ false
      → find (has_id task_id) w.state.db.tasks ≡ some row
      → row.node_id ≡ node_id
      → row.status ≡ task_status_to_str status
      → accepts_result status ≡ true
      → Stored server.json task_id result
          (accept_result server node_id
            (task_result_to_pb task_id result)
            (some current)
            w).1.state.db
  unfolding accept_result task_result_to_pb unix_now result_from_pb store finish
  accepted_Stored node_id task_id result w current row status sound same_id kept found owned spelled
        accepts =
      let now = server.clock w.readings in
      let request : SubmitTaskResultRequest = record { node_id = node_id; result = result } in
      let (task, updated, _, written) =
        submit_task_result_accepted server.json w.state.db now task_id request row sound found owned
          status spelled accepts in
      let mine : (current.task_id == task_id) ≡ true = grind arith in
      let later =
        stored_after server node_id task_id
          (finish now result.success (server.json.result.encode result) row)
          (result_status result.success) refl (final_result result.success)
          (finish-Keeps server node_id) (record w { readings = w.readings + 1 })
          (submit_task_result server.json now task_id request w.state.db)
          (SubmitTaskResultOutcome.updated task) updated
          (apply_op-IsSoundDb (Op.submit now task_id request) sound) written in
      (
        finish now result.success (server.json.result.encode result) row,
        rw (mine, kept) later,
        finished_text result.success,
        refl,
      )

  -- Where both ends use the same codec, the bytes that the client sends as the result of a task,
  -- received by a session of the server on the same node for which that task is in flight, its result
  -- not to be ignored, on a sound store whose row of the task belongs to the node and is dispatched or
  -- running, leave the store with the task succeeded or failed as the result says and the published
  -- result encoded in its row, whatever the session dispatches next and whether or not the socket
  -- takes it.
  pub published_result_accepted :
      (node_id : String) (task_id : ℕ) (result : ExecutionResult) (w : World)
      (current : InFlightTask) (row : TaskRow) (status : TaskStatus)
      → w.in_flight_task ≡ some current
      → current.task_id ≡ task_id
      → current.ignore_result ≡ false
      → IsSoundDb server.json w.state.db
      → find (has_id task_id) w.state.db.tasks ≡ some row
      → row.node_id ≡ node_id
      → row.status ≡ task_status_to_str status
      → accepts_result status ≡ true
      → let pb = task_result_to_pb task_id result in
        let frame = publish_frame client (node_result_topic node_id) (PayloadBody.task_result pb) in
        Stored server.json task_id result
          (handle_binary_message server node_id (client.prost.frame.encode frame) w).1.state.db
  published_result_accepted node_id task_id result w current row status flying same_id kept sound
        found owned spelled accepts =
      rw
        (taken_as_result node_id task_id result w
          ∙ ap (λ t. accept_result server node_id (task_result_to_pb task_id result) t w) flying)
        (accepted_Stored node_id task_id result w current row status sound same_id kept found owned
          spelled accepts)
