-- ===== src/Db/Reading.antt =====
-- Reading a sound store never fails, and shows the stored columns.
use ruchat.Prelude.{
  ℕ, ◌%◌, ◌^◌, ◌≡◌, refl, ap, ◌∙◌, Option, none, some, List, [], ◌∷◌, is_some, ◌<◌,
}
use ruchat.Prelude.Lists.{All}
use ruchat.Prelude.Result.{ok}
use ruchat.Protocol.Domain.{
  TaskStatus, queued, dispatched, running, succeeded, failed, canceled, ExecutionResult,
  TaskSnapshot,
}
use ruchat.Protocol.Codec.{Json}
use ruchat.Db.Rows.{TaskRow, Db}
use ruchat.Db.Text.{task_status_to_str, task_status_from_str}
use ruchat.Db.Read.{read_optional, read_result, snapshot, read_task, read_all}
use ruchat.Db.Tasks.{list_tasks}
use ruchat.Db.Lifecycle.{IsSound, Shape, task_status-roundtrip}
use ruchat.Db.Sound.{IsSoundDb}
use ruchat.Db.Keys.{Ascends}
use ruchat.Db.Queue.{order_by-Ascends}

-- What a snapshot shows of a row.
pub record Shows (json : Json) (row : TaskRow) (task : TaskSnapshot) : Type 0 where
  pub task_id : task.task_id ≡ row.task_id
  pub node_id : task.node_id ≡ row.node_id
  pub command_name : task.command_name ≡ row.command_name
  pub args : json.args.decode row.args_json ≡ ok task.args
  pub status : row.status ≡ task_status_to_str task.status
  pub retry_count : task.retry_count ≡ row.retry_count % 2 ^ 32
  pub finished : task.finished_at_unix_secs ≡ row.finished_at_unix_secs
  pub has_result : is_some task.result ≡ is_some row.result_json

module _ (json : Json) where
  ReadsResult : TaskRow → Type 0
  ReadsResult row =
      (result : Option ExecutionResult) × (read_optional (read_result json) row.result_json
        ≡ ok result)
      × (is_some result ≡ is_some row.result_json)

  no_result : (row : TaskRow) → row.result_json ≡ none → ReadsResult row
  unfolding ReadsResult
  no_result row e = (none, rw e, rw e)

  one_result :
      (row : TaskRow) (r : ExecutionResult)
      → row.result_json ≡ some (json.result.encode r)
      → ReadsResult row
  unfolding ReadsResult read_result
  one_result row r e = (some r, rw (e, json.result.decode-encode r), rw e)

  reads_result : (s : TaskStatus) (row : TaskRow) → Shape json s row → ReadsResult row
  reads_result queued row h = no_result row h.5
  reads_result dispatched row h = no_result row h.5
  reads_result running row h = no_result row h.5
  reads_result succeeded row h = one_result row h.5.0 h.5.1
  reads_result failed row h = one_result row h.5.0 h.5.1
  reads_result canceled row h = no_result row h.4

  pub read_task_total :
      (row : TaskRow)
      → IsSound json row
      → (task : TaskSnapshot) × (read_task json row ≡ ok task) × Shows json row task
  unfolding read_task ReadsResult
  read_task_total row h =
      let (result, reads, has) = reads_result h.status row h.shape in
      let status : task_status_from_str row.status ≡ ok h.status =
        ap task_status_from_str h.written ∙ task_status-roundtrip h.status in
      (
        snapshot row h.args result h.status,
        rw (h.args_read, reads, status),
        record {
          task_id = refl;
          node_id = refl;
          command_name = refl;
          args = h.args_read;
          status = h.written;
          retry_count = refl;
          finished = refl;
          has_result = has;
        },
      )

  -- One snapshot for each row, in order.
  abbrev pub ShowsAll : List TaskRow → List TaskSnapshot → Type 0
  ShowsAll [] [] = Unit
  ShowsAll (row ∷ rows) (task ∷ tasks) = Shows json row task × ShowsAll rows tasks
  ShowsAll _ _ = ⊥

  read_all_total :
      (rows : List TaskRow)
      → All (IsSound json) rows
      → (tasks : List TaskSnapshot) × (read_all (read_task json) rows ≡ ok tasks)
        × ShowsAll rows tasks
  unfolding read_all
  read_all_total [] h = ([], refl, tt)
  read_all_total (row ∷ rows) h =
      let (task, reads, shows) = read_task_total row h.0 in
      let (tasks, rest, all) = read_all_total rows h.1 in
      (task ∷ tasks, rw (reads, rest), (shows, all))

  -- The ids of a listing, each greater than the one before.
  abbrev pub Ascending : ℕ → List TaskSnapshot → Type 0
  Ascending low [] = Unit
  Ascending low (task ∷ tasks) = (low < task.task_id) × Ascending task.task_id tasks

  shown-Ascending :
      (low : ℕ) (rows : List TaskRow) (high : ℕ) (tasks : List TaskSnapshot)
      → Ascends low rows high
      → ShowsAll rows tasks
      → Ascending low tasks
  shown-Ascending low [] high [] h s = tt
  shown-Ascending low (row ∷ rows) high (task ∷ tasks) h s =
      (rw s.0.task_id h.0, rw s.0.task_id (shown-Ascending row.task_id rows high tasks h.1 s.1))
  shown-Ascending low [] high (task ∷ tasks) h s = absurd s
  shown-Ascending low (row ∷ rows) high [] h s = absurd s

  -- On a sound store `list_tasks` never fails: it shows the rows of the table, each once and in the order
  -- of the table, which is that of ascending ids.
  pub list_tasks_total :
      (db : Db)
      → IsSoundDb json db
      → (tasks : List TaskSnapshot) × (list_tasks json db ≡ ok tasks)
        × ShowsAll db.tasks tasks
        × Ascending 0 tasks
  unfolding list_tasks
  list_tasks_total db h =
      let (tasks, reads, shows) = read_all_total db.tasks h.rows in
      (
        tasks,
        rw (order_by-Ascends 0 db.tasks db.task_sequence h.keys) reads,
        shows,
        shown-Ascending 0 db.tasks db.task_sequence tasks h.keys shows,
      )
