-- ===== src/Db/Tests.antt =====
-- The theorems of the store at a small database: one node that declares the command "a", and one
-- queued task for it.
use ruchat.Prelude.{◌≡◌, refl, true, false, none, some, List, [], ◌∷◌, ◌⊎◌, arith}
use ruchat.Prelude.Lists.{find, order_by, select, matching, All}
use ruchat.Prelude.Result.{ok}
use ruchat.Protocol.Domain.{
  CommandDescriptor, CreateTaskRequest, ExecutionResult, SubmitTaskResultRequest, TaskSnapshot,
  PendingTask, dispatched,
}
use ruchat.Samples.JsonSample.{sample_json, finished, to_text, of_text}
use ruchat.Samples.Serial.{count_items, print_items, parse_items}
use ruchat.Db.Read.{read_pending}
use ruchat.Db.Rows.{
  CreateTaskOutcome, ClaimTaskOutcome, SubmitTaskResultOutcome, NodeRow, TaskRow, TaskAudit, Db,
  is_node, has_id,
}
use ruchat.Db.Text.{has_status, task_status_to_str, task_status_from_str}
use ruchat.Db.Tasks.{
  new_task, next_queued, older_task, is_queued_for, claim_task, dispatch, create_task, insert_task,
  supports, list_tasks, submit_task_result, cancel_task, finish,
}
use ruchat.Db.Writes.{new_task-IsSound, dispatch-IsSound}
use ruchat.Db.Sound.{IsSoundDb}
use ruchat.Db.Ops.{Op, apply_op, apply_ops}
use ruchat.Db.Preserve.{apply_op-IsSoundDb}
use ruchat.Db.Claim.{Waiting, Oldest, claim_task-Oldest, claim_task_total}
use ruchat.Db.Reading.{Shows, ShowsAll, Ascending, list_tasks_total}
use ruchat.Db.Create.{IsAdmitted, create_task_admitted}
use ruchat.Db.Submit.{submit_task_result_once, submit_task_result_accepted}
use ruchat.Db.Effects.{Submitted}

abbrev request : CreateTaskRequest
request = record { node_id = "n"; command_name = "a"; args = []; timeout_secs = some 30 }

abbrev audit : TaskAudit
audit = record { source = "api"; actor = some "admin" }

abbrev command : CommandDescriptor
command = record { name = "a"; description = ""; default_args = []; allow_extra_args = false }

abbrev node : NodeRow
node = record {
  node_id = "n";
  hostname = "h";
  platform = "linux";
  poll_interval_secs = 3;
  registered_at_unix_secs = 90;
  last_seen_unix_secs = 95;
  commands_json = sample_json.commands.encode (command ∷ []);
}

abbrev waiting : TaskRow
waiting = new_task sample_json 100 request audit 1

abbrev store : Db
store = record {
  nodes = node ∷ [];
  tasks = waiting ∷ [];
  session_events = [];
  task_sequence = 1;
  event_sequence = 0;
}

store-IsSoundDb : IsSoundDb sample_json store
unfolding new_task find is_node
store-IsSoundDb = record {
  rows = (new_task-IsSound 100 request audit 1, tt);
  keys = omega arith;
  owners = (refl, tt);
  readable = ((command ∷ [], sample_json.commands.decode-encode (command ∷ [])), tt);
}

apply_op-IsSoundDb_example : IsSoundDb sample_json (apply_op sample_json (Op.claim 101 "n") store)
apply_op-IsSoundDb_example = apply_op-IsSoundDb (Op.claim 101 "n") store-IsSoundDb

claim_task_total_example :
    ((claim_task sample_json 101 "n" store).0 ≡ ok ClaimTaskOutcome.no_task)
      × All (λ r. Waiting "n" r → ⊥) store.tasks
    ⊎ ((task : PendingTask) × (row : TaskRow) × ((claim_task sample_json 101 "n" store).0
          ≡ ok (ClaimTaskOutcome.claimed task))
        × (find (has_id task.task_id) store.tasks ≡ some row)
        × Waiting "n" row)
unfolding find is_node
claim_task_total_example = claim_task_total sample_json store 101 "n" store-IsSoundDb refl

abbrev first_task : PendingTask
first_task = record {
  task_id = 1;
  node_id = "n";
  command_name = "a";
  args = [];
  created_at_unix_secs = 100;
  timeout_secs = some 30;
  retry_count = 0;
}

first_claim : (claim_task sample_json 101 "n" store).0 ≡ ok (ClaimTaskOutcome.claimed first_task)
unfolding claim_task next_queued older_task select order_by is_queued_for has_status new_task
    matching is_node read_pending finished to_text of_text count_items print_items parse_items
    task_status_to_str
first_claim = refl

claim_task-Oldest_example : Oldest sample_json store 101 "n" first_task
claim_task-Oldest_example =
    claim_task-Oldest sample_json store 101 "n" first_task store-IsSoundDb first_claim

admitted : IsAdmitted sample_json store request
unfolding find is_node supports
admitted = record {
  node = node;
  commands = command ∷ [];
  command = command;
  registered = refl;
  catalog = sample_json.commands.decode-encode (command ∷ []);
  declared = refl;
  args_allowed = refl;
}

create_task_admitted_example :
    (task : TaskSnapshot) × (create_task sample_json 102 request audit store
      ≡ (ok (CreateTaskOutcome.created task), insert_task sample_json 102 request audit store))
    × Shows sample_json (new_task sample_json 102 request audit 2) task
create_task_admitted_example =
    create_task_admitted sample_json store 102 request audit store-IsSoundDb admitted

-- A command that the node does not declare.
abbrev unknown_request : CreateTaskRequest
unknown_request = record { node_id = "n"; command_name = "rm"; args = []; timeout_secs = none }

list_tasks_total_example :
    (tasks : List TaskSnapshot) × (list_tasks sample_json store ≡ ok tasks)
    × ShowsAll sample_json store.tasks tasks
    × Ascending sample_json 0 tasks
list_tasks_total_example = list_tasks_total sample_json store store-IsSoundDb

-- The store with its task dispatched.
abbrev running_store : Db
running_store = record store { tasks = dispatch 101 waiting ∷ [] }

running_store-IsSoundDb : IsSoundDb sample_json running_store
unfolding new_task find is_node dispatch
running_store-IsSoundDb = record {
  rows = (dispatch-IsSound 101 (new_task-IsSound 100 request audit 1), tt);
  keys = omega arith;
  owners = (refl, tt);
  readable = ((command ∷ [], sample_json.commands.decode-encode (command ∷ [])), tt);
}

abbrev outcome : ExecutionResult
outcome = record {
  success = true;
  exit_code = none;
  stdout = "a";
  stderr = "";
  stdout_truncated = false;
  stderr_truncated = false;
  duration_ms = 7;
  error = none;
}

abbrev report : SubmitTaskResultRequest
report = record { node_id = "n"; result = outcome }

running_found : find (has_id 1) running_store.tasks ≡ some (dispatch 101 waiting)
unfolding new_task find has_id dispatch
running_found = refl

submit_task_result_accepted_example :
    (task : TaskSnapshot) × ((submit_task_result sample_json 105 1 report running_store).0
      ≡ ok (SubmitTaskResultOutcome.updated task))
    × Shows sample_json
        (finish 105 true (sample_json.result.encode outcome) (dispatch 101 waiting))
        task
    × (find (has_id 1) (submit_task_result sample_json 105 1 report running_store).1.tasks
        ≡ some (finish 105 true (sample_json.result.encode outcome) (dispatch 101 waiting)))
submit_task_result_accepted_example =
    submit_task_result_accepted sample_json running_store 105 1 report (dispatch 101 waiting)
      running_store-IsSoundDb running_found (unfold dispatch new_task in refl) dispatched
      (unfold dispatch in refl) refl

accepted_report : Submitted sample_json running_store 105 1 report
unfolding submit_task_result new_task find has_id dispatch task_status_to_str task_status_from_str
accepted_report = record {
  row = dispatch 101 waiting;
  status = dispatched;
  found = refl;
  owned = refl;
  spelled = refl;
  accepted = refl;
  stored = refl;
}

-- What others do between the result and the late ones.
abbrev meanwhile : List Op
meanwhile =
    Op.requeue_incomplete "n" "node reconnected" ∷ Op.claim 106 "n" ∷ Op.retry 1 "n" "late" ∷ []

submit_task_result_once_example :
    let after = (submit_task_result sample_json 105 1 report running_store).1 in
    let final = apply_ops sample_json meanwhile after in
    (find (has_id 1) final.tasks
      ≡ some (
          finish 105 report.result.success
            (sample_json.result.encode report.result)
            accepted_report.row))
    × ((submit_task_result sample_json 107 1 report final).1 ≡ final)
    × ((cancel_task sample_json 107 1 none audit final).1 ≡ final)
submit_task_result_once_example =
    submit_task_result_once sample_json running_store 105 1 report 107 report none audit meanwhile
      accepted_report running_store-IsSoundDb
