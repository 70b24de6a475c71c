-- ===== src/Db/Release.antt =====
-- How one task of a node enters progress, and how the task in progress leaves it.
use ruchat.Prelude.{
  ℕ, String, ◌≡◌, sym, ap, ◌∙◌, Bool, true, false, ◌==◌, ==_iff, eq_iff, some, inl, inr, arith,
}
use ruchat.Prelude.Lists.{find, All}
use ruchat.Prelude.Updates.{All-map, All-rewrite, All-zip}
use ruchat.Protocol.Domain.{SubmitTaskResultRequest}
use ruchat.Protocol.Codec.{Json}
use ruchat.Db.Rows.{TaskRow, Db, has_id}
use ruchat.Db.Tasks.{
  in_progress, finish, dispatch, submit_task_result, claim_task, retry_task, is_retried, retry,
  of_node,
}
use ruchat.Db.Lifecycle.{IsSound}
use ruchat.Db.Writes.{and_left, and_right, accepts_result_of_row}
use ruchat.Db.Keys.{find_self}
use ruchat.Db.Sound.{IsSoundDb}
use ruchat.Db.Effects.{Claimed, submit_task_result_cases, retry_task_stored}
use ruchat.Db.Submit.{submit_task_result_accepted}
use ruchat.Db.Held.{busy, Held, stopped-Held, finish-stops, retry-stops}

abbrev pub nobody : ℕ → Bool
nobody _ = false

abbrev pub only : ℕ → ℕ → Bool
only task_id id = id == task_id

dispatch-Held :
    (node_id : String) (now task_id : ℕ) (row : TaskRow)
    → has_id task_id row ≡ true
    → Held node_id (only task_id) (dispatch now row)
unfolding dispatch has_id
dispatch-Held node_id now task_id row e t = e

other_task :
    (node_id : String) (task_id : ℕ) (row : TaskRow)
    → Held node_id (only task_id) row
    → has_id task_id row ≡ false
    → Held node_id nobody row
unfolding has_id
other_task node_id task_id row k e t = cc (k t)

pub anyone-Held :
    (node_id : String) (who : ℕ → Bool) (row : TaskRow)
    → Held node_id nobody row
    → Held node_id who row
anyone-Held node_id who row k t = absurd (apart (k t))
  where
    apart : false ≡ true → ⊥
    apart p = cc

module _ (json : Json) (db : Db) (node_id : String) (sound : IsSoundDb json db) where
  -- A claim on a node with no task in progress.
  pub claim-Held-only :
      {now : ℕ} (c : Claimed json db now node_id)
      → All (Held node_id nobody) db.tasks
      → All (Held node_id (only c.task.task_id)) (claim_task json now node_id db).1.tasks
  claim-Held-only {now} c h = rw c.result (
      All-rewrite (Held node_id nobody) (Held node_id (only c.task.task_id)) _ (dispatch now)
        db.tasks (λ row _ e. dispatch-Held node_id now c.task.task_id row e)
        (λ row k _. anyone-Held node_id (only c.task.task_id) row k) h)

  module _ (task_id : ℕ) (h : All (Held node_id (only task_id)) db.tasks) where
    pub retry-released :
        (reason : String)
        → All (Held node_id nobody) (retry_task json task_id node_id reason db).1.tasks
    retry-released reason = rw (retry_task_stored json db task_id node_id reason) (
        All-rewrite (Held node_id (only task_id)) (Held node_id nobody) _ _ db.tasks
          (λ row _ _. stopped-Held node_id nobody (retry reason row) (retry-stops reason row))
          (λ row k e t. not_retried row (k t) t e) h)
      where
        not_retried :
            (row : TaskRow)
            → (row.task_id == task_id) ≡ true
            → busy node_id row ≡ true
            → is_retried task_id node_id row ≡ false
            → false ≡ true
        not_retried row i b e = unfold is_retried has_id in ground arith

    module _ (now : ℕ) (request : SubmitTaskResultRequest) (owned : request.node_id ≡ node_id) where
      -- A row in progress is written to.
      unchanged-stops :
          (row : TaskRow)
          → (submit_task_result json now task_id request db).1 ≡ db
          → find (has_id row.task_id) db.tasks ≡ some row
          → IsSound json row
          → Held node_id (only task_id) row
          → Held node_id nobody row
      unchanged-stops row same found s k b =
          let progress : in_progress row ≡ true =
            and_right (of_node node_id row) (in_progress row) b in
          let id = (==_iff row.task_id task_id).0 (k b) in
          let owner =
            (eq_iff row.node_id node_id).0 (and_left (of_node node_id row) (in_progress row) b)
            ∙ sym owned in
          let found' : find (has_id task_id) db.tasks ≡ some row = rw (← id) found in
          let answer =
            submit_task_result_accepted json db now task_id request row sound found' owner s.status
              s.written (accepts_result_of_row s progress) in
          let again = rw same at answer.3 in
          let result_json = json.result.encode request.result in
          let finished = finish now request.result.success result_json row in
          let unwritten : finished ≡ row = cc in
          let stopped : in_progress finished ≡ false =
            finish-stops now request.result.success result_json row in
          cc (sym progress ∙ sym (ap in_progress unwritten) ∙ stopped)

      pub submit-released :
          All (Held node_id nobody) (submit_task_result json now task_id request db).1.tasks
      submit-released = elim (submit_task_result_cases json db now task_id request) [
        | inr s ↦ rw s.stored (
            All-rewrite (Held node_id (only task_id)) (Held node_id nobody) _ _ db.tasks
              (λ row _ _. stopped-Held node_id nobody _ (finish-stops now _ _ row))
              (λ row k e. other_task node_id task_id row k e) h)
        | inl same ↦ rw same (
            All-map _ (Held node_id nobody) db.tasks
              (λ row k. unchanged-stops row same k.0 k.1.0 k.1.1)
              (All-zip _ _ db.tasks (find_self 0 db.tasks db.task_sequence sound.keys)
                (All-zip (IsSound json) (Held node_id (only task_id)) db.tasks sound.rows h)))
      ]
