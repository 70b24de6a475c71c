-- ===== src/Db/Lifecycle.antt =====
-- What holds of every row of the tasks table: the columns that its status fixes, and that it reads
-- back as a snapshot.
use ruchat.Prelude.{
  String, ◌≡◌, refl, sym, ap, ◌∙◌, ◌⊎◌, inl, inr, Bool, true, false, ◌||◌, none, some, List,
  is_some, str_eq,
}
use ruchat.Prelude.Result.{ok}
use ruchat.Protocol.Domain.{
  TaskStatus, queued, dispatched, running, succeeded, failed, canceled, ExecutionResult,
}
use ruchat.Protocol.Codec.{Json}
use ruchat.Db.Rows.{TaskRow}
use ruchat.Db.Text.{task_status_to_str, task_status_from_str, has_status}
use ruchat.Db.Tasks.{in_progress, accepts_result}

abbrev pub same_status : TaskStatus → TaskStatus → Bool
same_status queued queued = true
same_status dispatched dispatched = true
same_status running running = true
same_status succeeded succeeded = true
same_status failed failed = true
same_status canceled canceled = true
same_status _ _ = false

pub task_status-roundtrip : (s : TaskStatus) → task_status_from_str (task_status_to_str s) ≡ ok s
unfolding task_status_from_str task_status_to_str
task_status-roundtrip queued = refl
task_status-roundtrip _ = refl

same_text :
    (s t : TaskStatus) → str_eq (task_status_to_str s) (task_status_to_str t) ≡ same_status t s
unfolding task_status_to_str
same_text queued queued = refl
same_text dispatched dispatched = refl
same_text running running = refl
same_text succeeded succeeded = refl
same_text failed failed = refl
same_text canceled canceled = refl
same_text _ _ = refl

-- A test on the column is a test on the status that it spells.
pub has_status_lem :
    (t s : TaskStatus) (row : TaskRow)
    → row.status ≡ task_status_to_str s
    → has_status t row ≡ same_status t s
unfolding has_status
has_status_lem t s row e = rw e (same_text s t)

pub in_progress_lem :
    (s : TaskStatus) (row : TaskRow)
    → row.status ≡ task_status_to_str s
    → in_progress row ≡ accepts_result s
unfolding in_progress
in_progress_lem s row e =
    rw (has_status_lem dispatched s row e, has_status_lem running s row e) (by_status s)
  where
    by_status :
        (s : TaskStatus) → (same_status dispatched s || same_status running s) ≡ accepts_result s
    by_status queued = refl
    by_status dispatched = refl
    by_status running = refl
    by_status _ = refl

abbrev pub Finished : (json : Json) → Bool → TaskRow → Type 0
Finished json success row =
    (is_some row.dispatched_at_unix_secs ≡ true)
    × (is_some row.acked_at_unix_secs ≡ true)
    × (is_some row.started_at_unix_secs ≡ true)
    × (is_some row.finished_at_unix_secs ≡ true)
    × (row.canceled_at_unix_secs ≡ none)
    × ((r : ExecutionResult) × (row.result_json ≡ some (json.result.encode r))
        × (r.success ≡ success))

-- What a status fixes in the other columns.
abbrev pub Shape : (json : Json) → TaskStatus → TaskRow → Type 0
Shape json queued row =
    (row.dispatched_at_unix_secs ≡ none)
    × (row.acked_at_unix_secs ≡ none)
    × (row.started_at_unix_secs ≡ none)
    × (row.finished_at_unix_secs ≡ none)
    × (row.canceled_at_unix_secs ≡ none)
    × (row.result_json ≡ none)
Shape json dispatched row =
    (is_some row.dispatched_at_unix_secs ≡ true)
    × (row.acked_at_unix_secs ≡ none)
    × (row.started_at_unix_secs ≡ none)
    × (row.finished_at_unix_secs ≡ none)
    × (row.canceled_at_unix_secs ≡ none)
    × (row.result_json ≡ none)
Shape json running row =
    (is_some row.dispatched_at_unix_secs ≡ true)
    × (is_some row.acked_at_unix_secs ≡ true)
    × (is_some row.started_at_unix_secs ≡ true)
    × (row.finished_at_unix_secs ≡ none)
    × (row.canceled_at_unix_secs ≡ none)
    × (row.result_json ≡ none)
Shape json succeeded row = Finished json true row
Shape json failed row = Finished json false row
Shape json canceled row =
    (is_some row.finished_at_unix_secs ≡ true)
    × (row.canceled_at_unix_secs ≡ row.finished_at_unix_secs)
    × (is_some row.cancel_reason ≡ true)
    × (is_some row.canceled_via ≡ true)
    × (row.result_json ≡ none)

-- A row of the tasks table that the program may have written.
pub record IsSound (json : Json) (row : TaskRow) : Type 0 where
  pub status : TaskStatus
  pub written : row.status ≡ task_status_to_str status
  pub shape : Shape json status row
  pub args : List String
  pub args_read : json.args.decode row.args_json ≡ ok args

-- Under WHERE status IN ('dispatched', 'running') the status is one of the two.
pub in_progress_status :
    {json : Json} {row : TaskRow} (h : IsSound json row)
    → in_progress row ≡ true
    → (h.status ≡ dispatched) ⊎ (h.status ≡ running)
in_progress_status {json} {row} h e =
    by_status h.status (sym (in_progress_lem h.status row h.written) ∙ e)
  where
    by_status : (s : TaskStatus) → accepts_result s ≡ true → (s ≡ dispatched) ⊎ (s ≡ running)
    by_status dispatched _ = inl refl
    by_status running _ = inr refl
    by_status _ p = cc

-- The status that the column spells is the row's.
pub status_of_text :
    {json : Json} {row : TaskRow} (h : IsSound json row) (s : TaskStatus)
    → task_status_from_str row.status ≡ ok s
    → h.status ≡ s
status_of_text {json} {row} h s e =
    cc (task_status-roundtrip h.status, ap task_status_from_str h.written)
