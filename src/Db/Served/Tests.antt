-- ===== src/Db/Served/Tests.antt =====
-- The theorems on the queue at a node with two queued tasks.
use ruchat.Prelude.{◌≡◌, refl, none, some, List, [], ◌∷◌, arith}
use ruchat.Prelude.Lists.{find}
use ruchat.Protocol.Domain.{CreateTaskRequest}
use ruchat.Samples.JsonSample.{sample_json}
use ruchat.Db.Rows.{Db, NodeRow, TaskAudit, is_node}
use ruchat.Db.Text.{has_status, task_status_to_str}
use ruchat.Db.Tasks.{new_task, is_queued_for}
use ruchat.Db.Writes.{new_task-IsSound}
use ruchat.Db.Sound.{IsSoundDb}
use ruchat.Db.Ops.{Op}
use ruchat.Db.Queue.{queue}
use ruchat.Db.Served.{Serves, Waits, claims, HandedOut, claim_task-head, handed_out}

abbrev request : CreateTaskRequest
request = record { node_id = "n"; command_name = "a"; args = []; timeout_secs = some 30 }

abbrev audit : TaskAudit
audit = record { source = "api"; actor = some "admin" }

abbrev node : NodeRow
node = record {
  node_id = "n";
  hostname = "h";
  platform = "linux";
  poll_interval_secs = 3;
  registered_at_unix_secs = 90;
  last_seen_unix_secs = 95;
  commands_json = "[]";
}

abbrev store : Db
store = record {
  nodes = node ∷ [];
  tasks = new_task sample_json 100 request audit 1 ∷ new_task sample_json 101 request audit 2 ∷ [];
  session_events = [];
  task_sequence = 2;
  event_sequence = 0;
}

store-IsSoundDb : IsSoundDb sample_json store
unfolding new_task find is_node
store-IsSoundDb = record {
  rows = (new_task-IsSound 100 request audit 1, (new_task-IsSound 101 request audit 2, tt));
  keys = (omega arith, (omega arith, omega arith));
  owners = (refl, (refl, tt));
  readable = (([], sample_json.commands_empty), tt);
}

in_order : queue "n" store.tasks ≡ 1 ∷ 2 ∷ []
unfolding queue is_queued_for has_status task_status_to_str new_task
in_order = refl

claim_task-head_example : Serves sample_json "n" 103 store store-IsSoundDb 1 (2 ∷ [])
claim_task-head_example =
    claim_task-head sample_json "n" 103 store store-IsSoundDb 1 (2 ∷ []) in_order

-- Two claims, and a cancel of another task between them.
abbrev ops : List Op
ops = Op.claim 103 "n" ∷ Op.cancel 104 1 none audit ∷ Op.claim 105 "n" ∷ []

second : Waits 2 1 (queue "n" store.tasks)
second = record { before = 1 ∷ []; after = []; split = in_order; few = omega arith }

two_claims : claims "n" ops ≡ 2
unfolding claims
two_claims = refl

handed_out_example : HandedOut sample_json "n" 2 store ops
handed_out_example =
    handed_out sample_json "n" 2 1 store ops store-IsSoundDb second
      ((refl, refl), ((refl, refl), ((refl, refl), tt))) (omega (arith, two_claims))
