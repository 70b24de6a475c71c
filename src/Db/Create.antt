-- ===== src/Db/Create.antt =====
-- apps/command-server/src/db.rs, `create_task`: a task is stored exactly if its command is one that
-- the node has declared, with extra arguments only where the command allows them.
use ruchat.Prelude.{
  ℕ, ◌+◌, ◌≤◌, ◌<◌, ◌≡◌, refl, ◌∙◌, false, not, ◌&&◌, none, some, List, [], ◌∷◌, arith,
}
use ruchat.Prelude.Lists.{find, All}
use ruchat.Prelude.Updates.{find-append_none}
use ruchat.Prelude.Result.{Result, ok}
use ruchat.Protocol.Domain.{CommandDescriptor, CreateTaskRequest, TaskSnapshot}
use ruchat.Protocol.Codec.{Json}
use ruchat.Db.Rows.{DbError, CreateTaskOutcome, TaskAudit, NodeRow, TaskRow, Db, is_node, has_id}
use ruchat.Db.Read.{read_node, get_node_inner, get_task_inner, ok_or_else}
use ruchat.Db.Tasks.{create_task, insert_task, new_task, supports, is_empty, created_outcome}
use ruchat.Db.Keys.{Ascends, Ascends-bounds}
use ruchat.Db.Writes.{new_task-IsSound}
use ruchat.Db.Sound.{IsSoundDb}
use ruchat.Db.Reading.{Shows, read_task_total}

-- The request names a registered node and a command in its catalog, and gives arguments only if the
-- command takes them.
pub record IsAdmitted (json : Json) (db : Db) (request : CreateTaskRequest) : Type 0 where
  pub node : NodeRow
  pub commands : List CommandDescriptor
  pub command : CommandDescriptor
  pub registered : find (is_node request.node_id) db.nodes ≡ some node
  pub catalog : json.commands.decode node.commands_json ≡ ok commands
  pub declared : find (supports request) commands ≡ some command
  pub args_allowed : (not command.allow_extra_args && not (is_empty request.args)) ≡ false

fresh_id :
    (low : ℕ) (rows : List TaskRow) (high : ℕ)
    → Ascends low rows high
    → find (has_id (high + 1)) rows ≡ none
unfolding find has_id
fresh_id low rows high h = each rows (Ascends-bounds low rows high h)
  where
    each :
        (rs : List TaskRow)
        → All (λ r. (low < r.task_id) × (r.task_id ≤ high)) rs
        → find (has_id (high + 1)) rs ≡ none
    each [] k = refl
    each (r ∷ rs) k = ground (arith, k.0.1, each rs k.1)

module _ (json : Json) (db : Db) (now : ℕ) (request : CreateTaskRequest) (audit : TaskAudit) where
  new_task_found :
      Ascends 0 db.tasks db.task_sequence
      → find (has_id (db.task_sequence + 1)) (insert_task json now request audit db).tasks
        ≡ some (new_task json now request audit (db.task_sequence + 1))
  unfolding insert_task new_task find has_id
  new_task_found keys =
      find-append_none _ db.tasks _ (fresh_id 0 db.tasks db.task_sequence keys) ∙ ground arith

  abbrev stored : Db
  stored = insert_task json now request audit db

  abbrev created_answer : Result DbError CreateTaskOutcome × Db
  created_answer = (
    created_outcome json (
        ok_or_else "task disappeared after insert"
          (get_task_inner json stored stored.task_sequence)),
    stored,
  )

  IsAdmitted-created :
      IsAdmitted json db request → create_task json now request audit db ≡ created_answer
  unfolding create_task get_node_inner read_node
  IsAdmitted-created a = ground (arith, a.registered, a.catalog, a.declared, a.args_allowed)

  -- On a sound store an admitted request creates a queued task under the next id of the sequence, and
  -- the answer shows it.
  pub create_task_admitted :
      IsSoundDb json db
      → IsAdmitted json db request
      → (task : TaskSnapshot) × (create_task json now request audit db
          ≡ (ok (CreateTaskOutcome.created task), insert_task json now request audit db))
        × Shows json (new_task json now request audit (db.task_sequence + 1)) task
  unfolding insert_task get_task_inner
  create_task_admitted h a =
      let (task, reads, shows) =
        read_task_total json _ (new_task-IsSound now request audit (db.task_sequence + 1)) in
      (task, IsAdmitted-created a ∙ rw (new_task_found h.keys, reads), shows)
