-- ===== src/Db/Events.antt =====
-- apps/command-server/src/db.rs: the session_events table.
use ruchat.Prelude.{
  ℕ, ◌+◌, String, Bool, true, Option, none, some, List, [], ◌∷◌, ◌++◌, ◌&&◌, str_eq, leb,
}
use ruchat.Prelude.Lists.{select, order_by}
use ruchat.Prelude.Result.{Result, ok}
use ruchat.Protocol.Domain.{SessionEventKind, SessionEvent}
use ruchat.Db.Rows.{DbError, EventRow, Db}
use ruchat.Db.Text.{session_event_kind_to_str}
use ruchat.Db.Read.{read_session_event, read_all, limit_rows}

unfoldable pub record_session_event :
    ℕ → String → SessionEventKind → String → Db → Result DbError SessionEvent × Db
record_session_event now node_id kind message db =
    let event_id = db.event_sequence + 1 in
    let row : EventRow = record {
      event_id = event_id;
      node_id = node_id;
      event_kind = session_event_kind_to_str kind;
      message = message;
      created_at_unix_secs = now;
    } in
    (
      ok (record {
        event_id = event_id;
        node_id = node_id;
        kind = kind;
        message = message;
        created_at_unix_secs = now;
      }),
      record db { session_events = db.session_events ++ row ∷ []; event_sequence = event_id },
    )

-- ORDER BY event_id DESC
unfoldable pub newer_event : EventRow → EventRow → Bool
newer_event a b = leb b.event_id a.event_id

-- ?1 IS NULL OR column = ?1
unfoldable pub matches_filter : Option String → String → Bool
matches_filter none column = true
matches_filter (some wanted) column = str_eq column wanted

unfoldable pub event_filter : Option String → Option SessionEventKind → EventRow → Bool
event_filter node_id none row = matches_filter node_id row.node_id
event_filter node_id (some kind) row =
    matches_filter node_id row.node_id
    && matches_filter (some (session_event_kind_to_str kind)) row.event_kind

unfoldable pub list_session_events_for_node : String → ℕ → Db → Result DbError (List SessionEvent)
list_session_events_for_node node_id limit db = read_all read_session_event (
    limit_rows limit
      (order_by newer_event (select (λ row. str_eq row.node_id node_id) db.session_events)))

unfoldable pub list_session_events :
    Option String → Option SessionEventKind → ℕ → Db → Result DbError (List SessionEvent)
list_session_events node_id kind limit db =
    read_all read_session_event (
      limit_rows limit
        (order_by newer_event (select (event_filter node_id kind) db.session_events)))
