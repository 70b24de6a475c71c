-- ===== src/Db/Claim.antt =====
-- apps/command-server/src/db.rs, `claim_task`: the query for the next task of a node, and what a
-- claim hands out.
use ruchat.Prelude.{
  ℕ, ◌≤◌, String, ◌≡◌, refl, ap, ◌∙◌, true, none, some, List, leb→le, inl, inr, ◌⊎◌, some_of, arith,
  [], ◌∷◌, eq_iff, eq_refl, if◌then◌else◌,
}
use mathlib.Core.Path.{subst}
use ruchat.Prelude.Lists.{find, matching, All}
use ruchat.Prelude.Updates.{All-map, map_option, rewritten, find_holds, find-update, matching-find}
use ruchat.Prelude.Orders.{
  All-select, select-All, All-unselect, IsOrder, All-order_by, All-head, order_by_head,
  order_by-none,
}
use ruchat.Prelude.Result.{ok, err}
use ruchat.Protocol.Domain.{PendingTask}
use ruchat.Protocol.Codec.{Json}
use ruchat.Db.Rows.{DbError, ClaimTaskOutcome, NodeRow, TaskRow, Db, is_node, has_id}
use ruchat.Db.Text.{has_status, task_status_to_str}
use ruchat.Db.Writes.{and_left, and_right}
use ruchat.Db.Read.{read_pending}
use ruchat.Db.Tasks.{claim_task, next_queued, older_task, is_queued_for, dispatch}
use ruchat.Db.Lifecycle.{IsSound}
use ruchat.Db.Keys.{Ascends, find_self}
use ruchat.Db.Sound.{IsSoundDb, HasNode}
use ruchat.Db.Effects.{ClaimCases, claim_task_cases, Claimed}

older_task-IsOrder : IsOrder older_task
unfolding older_task
older_task-IsOrder = record { total = λ a b h. ground arith; trans = λ a b c h k. ground arith }

module _ (node_id : String) where
  -- A row of the node with the status `queued`.
  abbrev pub Waiting : TaskRow → Type 0
  Waiting row = (row.node_id ≡ node_id) × (row.status ≡ "queued")

  waits : (r : TaskRow) → Waiting r → is_queued_for node_id r ≡ true
  unfolding is_queued_for has_status task_status_to_str
  waits r (here, queued) = rw (here, queued) (rw (eq_refl node_id) refl)

  none_Waiting :
      (rows : List TaskRow)
      → All (λ r. is_queued_for node_id r ≡ true → ⊥) rows
      → All (λ r. Waiting r → ⊥) rows
  none_Waiting [] h = tt
  none_Waiting (r ∷ rows) h = (λ w. h.0 (waits r w), none_Waiting rows h.1)

  queued-Waiting : (r : TaskRow) → is_queued_for node_id r ≡ true → Waiting r
  unfolding is_queued_for has_status task_status_to_str
  queued-Waiting r e = (
    (eq_iff r.node_id node_id).0 (and_left _ _ e),
    (eq_iff r.status "queued").0 (and_right _ _ e),
  )

module _ (node_id : String) (db : Db) where
  -- What holds of every row holds of the next one.
  pub next_queued-All :
      (P : TaskRow → Type 0) {row : TaskRow}
      → All P db.tasks
      → next_queued node_id db ≡ some row
      → P row
  unfolding next_queued
  next_queued-All P h e =
      All-head P _ (All-order_by P older_task _ (All-select P (is_queued_for node_id) db.tasks h)) e

  pub next_queued_holds :
      {row : TaskRow} → next_queued node_id db ≡ some row → is_queued_for node_id row ≡ true
  unfolding next_queued
  next_queued_holds e =
      All-head (λ r. is_queued_for node_id r ≡ true) _
        (All-order_by (λ r. is_queued_for node_id r ≡ true) older_task _
          (select-All (is_queued_for node_id) db.tasks))
        e

  pub next_queued_found :
      {row : TaskRow}
      → Ascends 0 db.tasks db.task_sequence
      → next_queued node_id db ≡ some row
      → find (has_id row.task_id) db.tasks ≡ some row
  next_queued_found keys e =
      next_queued-All (λ r. find (has_id r.task_id) db.tasks ≡ some r)
        (find_self 0 db.tasks db.task_sequence keys) e

  pub next_queued_first :
      {row : TaskRow}
      → next_queued node_id db ≡ some row
      → All (λ r. is_queued_for node_id r ≡ true → row.task_id ≤ r.task_id) db.tasks
  unfolding next_queued older_task
  next_queued_first {row} e =
      All-unselect (λ r. row.task_id ≤ r.task_id) (is_queued_for node_id) db.tasks
        (All-map (λ r. older_task row r ≡ true) (λ r. row.task_id ≤ r.task_id) _
          (λ r t. leb→le _ _ t) (order_by_head older_task-IsOrder _ e))

  -- No next task: no task of the node is queued.
  pub next_queued-none :
      next_queued node_id db ≡ none → All (λ r. is_queued_for node_id r ≡ true → ⊥) db.tasks
  unfolding next_queued
  next_queued-none e =
      All-unselect (λ _. ⊥) (is_queued_for node_id) db.tasks
        (order_by-none older_task-IsOrder (λ _. ⊥) _ e)

pub read_pending_id :
    (json : Json) (row : TaskRow) {task : PendingTask}
    → read_pending json row ≡ ok task
    → task.task_id ≡ row.task_id
unfolding read_pending
read_pending_id json row e = ground arith

pub read_pending_args :
    (json : Json) (row : TaskRow) {task : PendingTask}
    → read_pending json row ≡ ok task
    → json.args.decode row.args_json ≡ ok task.args
unfolding read_pending
read_pending_args json row e = ground arith

pub read_pending_sound :
    (json : Json) (row : TaskRow) {e : DbError}
    → IsSound json row
    → read_pending json row ≡ err e
    → ⊥
unfolding read_pending
read_pending_sound json row h e = ground (arith, h.args_read)

pub HasNode-matching :
    (nodes : List NodeRow) (node_id : String)
    → HasNode nodes node_id
    → matching (is_node node_id) nodes ≡ 0
    → ⊥
HasNode-matching nodes node_id h e =
    let (row, found) = some_of (find (is_node node_id) nodes) h in
    matching-find (is_node node_id) nodes found e

module _ (json : Json) (db : Db) (now : ℕ) (node_id : String) where
  -- The one row that a claim rewrites, read back from the store that it leaves.
  Claimed-row :
      (c : Claimed json db now node_id)
      → Ascends 0 db.tasks db.task_sequence
      → find (has_id c.task.task_id) (claim_task json now node_id db).1.tasks
        ≡ some (dispatch now c.row)
  unfolding dispatch
  Claimed-row c keys =
      let id = read_pending_id json c.row c.decoded in
      let found = next_queued_found node_id db keys c.next in
      let found' : find (has_id c.task.task_id) db.tasks ≡ some c.row = rw id found in
      let kept : (r : TaskRow) → has_id c.task.task_id (dispatch now r) ≡ has_id c.task.task_id r =
        λ r. unfold has_id in refl in
      rw c.result (
        find-update (has_id c.task.task_id) (has_id c.task.task_id) (dispatch now) db.tasks kept
        ∙ ap (map_option (rewritten (has_id c.task.task_id) (dispatch now))) found'
        ∙ ap (λ b. some (if b then dispatch now c.row else c.row)) (find_holds _ db.tasks found'))

  abbrev pub Oldest : PendingTask → Type 0
  Oldest task =
      (row : TaskRow) × (find (has_id task.task_id) db.tasks ≡ some row)
      × (is_queued_for node_id row ≡ true)
      × (json.args.decode row.args_json ≡ ok task.args)
      × All (λ r. is_queued_for node_id r ≡ true → task.task_id ≤ r.task_id) db.tasks
      × (find (has_id task.task_id) (claim_task json now node_id db).1.tasks
          ≡ some (dispatch now row))

  -- A successful claim on a sound store hands out the queued task of the node with the smallest id,
  -- with its arguments as stored, and leaves that row dispatched at `now`.
  pub claim_task-Oldest :
      (task : PendingTask)
      → IsSoundDb json db
      → (claim_task json now node_id db).0 ≡ ok (ClaimTaskOutcome.claimed task)
      → Oldest task
  claim_task-Oldest task h e = elim (claim_task_cases json db now node_id) [
    | ClaimCases.unknown _ r ↦ cc (ap (λ p. p.0) r)
    | ClaimCases.unread row x _ _ r ↦ cc (ap (λ p. p.0) r)
    | ClaimCases.idle _ _ r ↦ cc (ap (λ p. p.0) r)
    | ClaimCases.took c ↦
        let same : c.task ≡ task = cc (ap (λ p. p.0) c.result) in
        let id = read_pending_id json c.row c.decoded in
        subst (λ t. Oldest t) same
          (
            c.row,
            rw id (next_queued_found node_id db h.keys c.next),
            next_queued_holds node_id db c.next,
            read_pending_args json c.row c.decoded,
            rw id (next_queued_first node_id db c.next),
            Claimed-row c h.keys,
          )
  ]

  -- On a sound store a claim for a registered node never fails: either no row of the node has the status
  -- `queued`, and no task is taken, or a task is taken whose row belongs to the node and has that
  -- status.
  pub claim_task_total :
      IsSoundDb json db
      → HasNode db.nodes node_id
      → ((claim_task json now node_id db).0 ≡ ok ClaimTaskOutcome.no_task)
          × All (λ r. Waiting node_id r → ⊥) db.tasks
        ⊎ ((task : PendingTask) × (row : TaskRow) × ((claim_task json now node_id db).0
              ≡ ok (ClaimTaskOutcome.claimed task))
            × (find (has_id task.task_id) db.tasks ≡ some row)
            × Waiting node_id row)
  claim_task_total h known = elim (claim_task_cases json db now node_id) [
    | ClaimCases.unknown nobody r ↦ absurd (HasNode-matching db.nodes node_id known nobody)
    | ClaimCases.unread row x next failure r ↦
        let sound = next_queued-All node_id db (IsSound json) h.rows next in
        absurd (read_pending_sound json row sound failure)
    | ClaimCases.idle _ nothing r ↦
        inl (ap (λ p. p.0) r, none_Waiting node_id db.tasks (next_queued-none node_id db nothing))
    | ClaimCases.took c ↦ inr (
      c.task,
      c.row,
      ap (λ p. p.0) c.result,
      rw (read_pending_id json c.row c.decoded) (next_queued_found node_id db h.keys c.next),
      queued-Waiting node_id c.row (next_queued_holds node_id db c.next),
    )
  ]
