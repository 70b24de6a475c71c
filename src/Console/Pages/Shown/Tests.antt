-- ===== src/Console/Pages/Shown/Tests.antt =====
-- The pages of a store with a node, a task and an event.
use ruchat.Prelude.{String, ◌≡◌, refl, Option, none, some, [], ◌∷◌}
use ruchat.Protocol.Domain.{CreateTaskRequest}
use ruchat.Samples.JsonSample.{sample_json}
use ruchat.Db.Rows.{Db, EventRow, TaskAudit}
use ruchat.Db.Tasks.{new_task}
use ruchat.Server.AppState.{AppState}
use ruchat.Prelude.Lists.{select}
use ruchat.Prelude.Text.{join}
use ruchat.Session.Frames.{decimal, decimal_digits, digit}
use ruchat.Console.Escape.{codes}
use ruchat.Console.Pages.Markup.{markup}
use ruchat.Console.Pages.Filters.{render_session_events_summary}

abbrev request : CreateTaskRequest
request = record { node_id = "n"; command_name = "a"; args = []; timeout_secs = some 30 }

abbrev audit : TaskAudit
audit = record { source = "console"; actor = some "admin" }

abbrev opened : EventRow
opened = record {
  event_id = 1;
  node_id = "n";
  event_kind = "session_opened";
  message = "connected";
  created_at_unix_secs = 99;
}

abbrev store : Db
store = record {
  nodes =
      record {
        node_id = "n";
        hostname = "h";
        platform = "linux";
        poll_interval_secs = 3;
        registered_at_unix_secs = 90;
        last_seen_unix_secs = 95;
        commands_json = "[]";
      }
      ∷ [];
  tasks = new_task sample_json 100 request audit 1 ∷ [];
  session_events = opened ∷ [];
  task_sequence = 1;
  event_sequence = 1;
}

abbrev server : AppState
server = record {
  db = store;
  heartbeat_interval_secs = 30;
  auth = record { shared_token = some "secret"; node_tokens = [] };
  admin_username = "admin";
  admin_password = "pw";
  admin_session_ttl_secs = 3600;
  admin_sessions = ("t", 100) ∷ [];
  admin_session_counter = 2;
  public_ws_base = none;
  sessions = ("n", 4) ∷ [];
  sent_signals = [];
}

abbrev cookies : Option String
cookies = some "ru_admin_session=t"

-- The summary of the session events has the markup of the node id that a link asks for.
injected : markup (codes (render_session_events_summary (some "<b>") none 0)) ≡ 60 ∷ 62 ∷ []
unfolding render_session_events_summary markup codes select join decimal decimal_digits digit
injected = refl
