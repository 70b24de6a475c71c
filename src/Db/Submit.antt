-- ===== src/Db/Submit.antt =====
-- apps/command-server/src/db.rs, `submit_task_result` and `cancel_task`: a task ends once.
use ruchat.Prelude.{
  ℕ, String, ◌≡◌, refl, ap, ◌∙◌, Bool, true, false, Option, some, List, [], ◌∷◌, sym, inl, inr,
  eq_iff, arith, if◌then◌else◌,
}
use ruchat.Prelude.Lists.{find, update}
use ruchat.Prelude.Updates.{map_option, rewritten, find_holds, find-update, All-find}
use ruchat.Prelude.Result.{ok}
use ruchat.Protocol.Domain.{TaskStatus, SubmitTaskResultRequest, TaskSnapshot}
use ruchat.Protocol.Codec.{Json}
use ruchat.Db.Rows.{SubmitTaskResultOutcome, TaskAudit, TaskRow, Db, has_id}
use ruchat.Db.Text.{task_status_to_str, task_status_from_str}
use ruchat.Db.Read.{get_task_inner, ok_or_else}
use ruchat.Db.Tasks.{
  submit_task_result, finish, cancel_task, accepts_result, is_cancelable, result_status,
  updated_outcome,
}
use ruchat.Db.Lifecycle.{IsSound, task_status-roundtrip, in_progress_lem}
use ruchat.Db.Writes.{finish-IsSound}
use ruchat.Db.Sound.{IsSoundDb}
use ruchat.Db.Ops.{Op, apply_op, apply_ops}
use ruchat.Db.Preserve.{apply_op-IsSoundDb}
use ruchat.Db.Transitions.{is_final}
use ruchat.Db.Transitions.Store.{apply_op-Progress}
use ruchat.Db.Effects.{Submitted, submit_task_result_cases, cancel_task_cases}
use ruchat.Db.Reading.{Shows, read_task_total}

-- The row that an id finds after the write of that row.
find-update_self :
    (task_id : ℕ) (f : TaskRow → TaskRow) (rows : List TaskRow) {row : TaskRow}
    → ((r : TaskRow) → has_id task_id (f r) ≡ has_id task_id r)
    → find (has_id task_id) rows ≡ some row
    → find (has_id task_id) (update (has_id task_id) f rows) ≡ some (f row)
find-update_self task_id f rows {row} keep found =
    find-update (has_id task_id) (has_id task_id) f rows keep
    ∙ ap (map_option (rewritten (has_id task_id) f)) found
    ∙ ap (λ b. some (if b then f row else row)) (find_holds _ rows found)

closed_result : (success : Bool) → accepts_result (result_status success) ≡ true → ⊥
closed_result true e = cc
closed_result false e = cc

closed_cancel : (success : Bool) → is_cancelable (result_status success) ≡ true → ⊥
closed_cancel true e = cc
closed_cancel false e = cc

pub final_result : (success : Bool) → is_final (result_status success) ≡ true
final_result true = refl
final_result false = refl

-- A row in a final status stays as it is through all operations of the store.
module _ (json : Json) (task_id : ℕ) (row : TaskRow) (status : TaskStatus)
    (spelled : row.status ≡ task_status_to_str status) (final : is_final status ≡ true) where
  same_from : (from : TaskStatus) → row.status ≡ task_status_to_str from → is_final from ≡ true
  same_from from e =
      let one = task_status-roundtrip status in
      let two = task_status-roundtrip from in
      let texts : task_status_to_str status ≡ task_status_to_str from = sym spelled ∙ e in
      let same : status ≡ from = cc in rw (← same) final

  pub final_kept :
      (ops : List Op) (db : Db)
      → IsSoundDb json db
      → find (has_id task_id) db.tasks ≡ some row
      → find (has_id task_id) (apply_ops json ops db).tasks ≡ some row
  unfolding apply_ops
  final_kept [] db sound found = found
  final_kept (op ∷ ops) db sound found =
      let (row', found', progress) = apply_op-Progress json db task_id row op sound found in
      let frozen : row' ≡ row =
        progress.final_frozen (same_from progress.from progress.from_written) in
      final_kept ops (apply_op json op db) (apply_op-IsSoundDb op sound)
        (found' ∙ ap (λ r. some r) frozen)

module _ (json : Json) (db : Db) (now task_id : ℕ) (request : SubmitTaskResultRequest) where
  abbrev after : Db
  after = (submit_task_result json now task_id request db).1

  abbrev written : TaskRow → TaskRow
  written = finish now request.result.success (json.result.encode request.result)

  finished_row :
      (s : Submitted json db now task_id request)
      → find (has_id task_id) after.tasks ≡ some (written s.row)
  finished_row s =
      rw s.stored
        (find-update_self task_id written db.tasks (λ r. unfold has_id finish in refl) s.found)

  -- A row that was finished has its status wherever it is found.
  finished_status :
      (row other : TaskRow) (status : TaskStatus)
      → written row ≡ other
      → task_status_from_str other.status ≡ ok status
      → result_status request.result.success ≡ status
  finished_status row other status same spelled =
      let spelled' : task_status_from_str (written row).status ≡ ok status = rw same spelled in
      let roundtrip = task_status-roundtrip (result_status request.result.success) in
      let spelled'' : task_status_from_str
            (task_status_to_str (result_status request.result.success))
          ≡ ok status =
        unfold finish in spelled' in
      cc

  submit_unchanged :
      (final : Db) (row : TaskRow) (later : ℕ) (again : SubmitTaskResultRequest)
      → find (has_id task_id) final.tasks ≡ some (written row)
      → (submit_task_result json later task_id again final).1 ≡ final
  submit_unchanged final row later again kept =
      elim (submit_task_result_cases json final later task_id again) [
        | inl same ↦ same
        | inr t ↦
            let same : written row ≡ t.row = cc (kept, t.found) in
            absurd (
              closed_result request.result.success
                (rw (finished_status row t.row t.status same t.spelled) t.accepted))
      ]

  cancel_unchanged :
      (final : Db) (row : TaskRow) (later : ℕ) (reason : Option String) (audit : TaskAudit)
      → find (has_id task_id) final.tasks ≡ some (written row)
      → (cancel_task json later task_id reason audit final).1 ≡ final
  cancel_unchanged final row later reason audit kept =
      elim (cancel_task_cases json final later task_id reason audit) [
        | inl same ↦ same
        | inr t ↦
            let same : written row ≡ t.row = cc (kept, t.found) in
            absurd (
              closed_cancel request.result.success
                (rw (finished_status row t.row t.status same t.spelled) t.cancelable))
      ]

  -- Once a result was accepted on a sound store, then after any further operations, of whatever kind,
  -- the task's row is the finished one that the result made, and no later result and no cancel for the
  -- task changes the store.
  pub submit_task_result_once :
      (later : ℕ) (again : SubmitTaskResultRequest) (reason : Option String) (audit : TaskAudit)
      (ops : List Op) (s : Submitted json db now task_id request)
      → IsSoundDb json db
      → let final = apply_ops json ops after in
        (find (has_id task_id) final.tasks ≡ some (written s.row))
        × ((submit_task_result json later task_id again final).1 ≡ final)
        × ((cancel_task json later task_id reason audit final).1 ≡ final)
  submit_task_result_once later again reason audit ops s sound =
      let closed = apply_op-IsSoundDb (Op.submit now task_id request) sound in
      let kept =
        final_kept json task_id (written s.row) (result_status request.result.success)
          (unfold finish in refl) (final_result request.result.success) ops after closed
          (finished_row s) in
      let final = apply_ops json ops after in
      (
        kept,
        submit_unchanged final s.row later again kept,
        cancel_unchanged final s.row later reason audit kept,
      )

  abbrev stored : Db
  stored = record db { tasks = update (has_id task_id) written db.tasks }

  accepted_answer :
      (row : TaskRow) (status : TaskStatus)
      → find (has_id task_id) db.tasks ≡ some row
      → row.node_id ≡ request.node_id
      → task_status_from_str row.status ≡ ok status
      → accepts_result status ≡ true
      → submit_task_result json now task_id request db ≡ (
        updated_outcome json
            (ok_or_else "task disappeared after update" (get_task_inner json stored task_id)),
        stored,
      )
  unfolding submit_task_result
  accepted_answer row status found owned read accepted =
      ground (arith, eq_iff row.node_id request.node_id)

  -- On a sound store a result from the task's node for a task in progress is stored, and the answer
  -- shows the finished row.
  pub submit_task_result_accepted :
      (row : TaskRow) (h : IsSoundDb json db)
      → find (has_id task_id) db.tasks ≡ some row
      → row.node_id ≡ request.node_id
      → (status : TaskStatus) → row.status ≡ task_status_to_str status
      → accepts_result status ≡ true
      → (task : TaskSnapshot) × ((submit_task_result json now task_id request db).0
          ≡ ok (SubmitTaskResultOutcome.updated task))
        × Shows json (written row) task
        × (find (has_id task_id) after.tasks ≡ some (written row))
  unfolding get_task_inner
  submit_task_result_accepted row h found owned status spelled accepted =
      let sound = All-find (IsSound json) (has_id task_id) db.tasks h.rows found in
      let read : task_status_from_str row.status ≡ ok status =
        ap task_status_from_str spelled ∙ task_status-roundtrip status in
      let finished =
        finish-IsSound now request.result sound (in_progress_lem status row spelled ∙ accepted) in
      let (task, reads, shows) = read_task_total json (written row) finished in
      let found' =
        find-update_self task_id written db.tasks (λ r. unfold has_id finish in refl) found in
      let answer = accepted_answer row status found owned read accepted in
      (
        task,
        ap (λ p. p.0) answer ∙ rw (found', reads),
        shows,
        ap (λ p. find (has_id task_id) p.1.tasks) answer ∙ found',
      )
