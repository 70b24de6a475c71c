-- ===== src/Console/Pages/Shown/Lists.antt =====
-- apps/command-server/src/db.rs: on a sound store no listing fails.
use ruchat.Prelude.{ℕ, String, ◌≡◌, refl, Bool, Bool-cases, inl, inr, Option, List, [], ◌∷◌}
use ruchat.Prelude.Lists.{All, select}
use ruchat.Prelude.Orders.{All-order_by}
use ruchat.Prelude.Result.{Result, ok}
use ruchat.Protocol.Domain.{SessionEventKind}
use ruchat.Protocol.Codec.{Json}
use ruchat.Db.Rows.{Db, DbError, NodeRow, TaskRow, EventRow}
use ruchat.Db.Text.{session_event_kind_from_str}
use ruchat.Db.Read.{read_all, read_task, read_node, read_session_event}
use ruchat.Db.Nodes.{list_nodes, node_before}
use ruchat.Db.Tasks.{list_recent_tasks, list_tasks_for_node, newer_task, of_node}
use ruchat.Db.Events.{list_session_events, list_session_events_for_node, newer_event, event_filter}
use ruchat.Db.Listings.{All-limit_rows}
use ruchat.Db.Lifecycle.{IsSound}
use ruchat.Db.Sound.{IsSoundDb, Readable}
use ruchat.Db.Reading.{read_task_total}

abbrev pub Reads : {A : Type 0} → Result DbError A → Type 0
Reads {A} r = (a : A) × (r ≡ ok a)

-- The kind of an event is one of the five.
abbrev pub HasKind : EventRow → Type 0
HasKind row = Reads (session_event_kind_from_str row.event_kind)

read_all-Reads :
    {R A : Type 0} (read : R → Result DbError A) (rows : List R)
    → All (λ row. Reads (read row)) rows
    → Reads (read_all read rows)
unfolding read_all
read_all-Reads read [] h = ([], refl)
read_all-Reads read (row ∷ rows) ((item, e), h) =
    let (items, f) = read_all-Reads read rows h in (item ∷ items, rw (e, f) refl)

All-selected :
    {A : Type 0} (P : A → Type 0) (p : A → Bool) (xs : List A) → All P xs → All P (select p xs)
unfolding select
All-selected P p [] h = tt
All-selected P p (x ∷ xs) h = elim (Bool-cases (p x)) [
  | inl e ↦ rw e (h.0, All-selected P p xs h.1)
  | inr e ↦ rw e (All-selected P p xs h.1)
]

All-weaker :
    {A : Type 0} (P Q : A → Type 0) → ((a : A) → P a → Q a) → (xs : List A) → All P xs → All Q xs
All-weaker P Q f [] h = tt
All-weaker P Q f (x ∷ xs) h = (f x h.0, All-weaker P Q f xs h.1)

module _ (json : Json) (db : Db) (sound : IsSoundDb json db)
    (kinds : All HasKind db.session_events) where
  tasks_read : All (λ row. Reads (read_task json row)) db.tasks
  tasks_read =
      All-weaker (IsSound json) (λ row. Reads (read_task json row))
        (λ row h. let (task, e, _) = read_task_total json row h in (task, e)) db.tasks sound.rows

  node-Reads : (row : NodeRow) → Readable json row → Reads (read_node json row)
  unfolding read_node
  node-Reads row (commands, e) = rw e (_, refl)

  event-Reads : (row : EventRow) → HasKind row → Reads (read_session_event row)
  unfolding read_session_event
  event-Reads row (kind, e) = rw e (_, refl)

  pub nodes_read : All (λ row. Reads (read_node json row)) db.nodes
  nodes_read =
      All-weaker (Readable json) (λ row. Reads (read_node json row)) node-Reads db.nodes
        sound.readable

  events_read : All (λ row. Reads (read_session_event row)) db.session_events
  events_read =
      All-weaker HasKind (λ row. Reads (read_session_event row)) event-Reads db.session_events kinds

  pub event_list :
      (node_id : Option String) (kind : Option SessionEventKind) (limit : ℕ)
      → Reads (list_session_events node_id kind limit db)
  unfolding list_session_events
  event_list node_id kind limit =
      let ReadsRow : EventRow → Type 0 = λ row. Reads (read_session_event row) in
      let chosen =
        All-selected ReadsRow (event_filter node_id kind) db.session_events events_read in
      read_all-Reads read_session_event _
        (All-limit_rows ReadsRow limit _ (All-order_by ReadsRow newer_event _ chosen))

  pub node_event_list :
      (node_id : String) (limit : ℕ) → Reads (list_session_events_for_node node_id limit db)
  unfolding list_session_events_for_node
  node_event_list node_id limit =
      let ReadsRow : EventRow → Type 0 = λ row. Reads (read_session_event row) in
      let chosen = All-selected ReadsRow _ db.session_events events_read in
      read_all-Reads read_session_event _
        (All-limit_rows ReadsRow limit _ (All-order_by ReadsRow newer_event _ chosen))

  pub recent_list : (limit : ℕ) → Reads (list_recent_tasks json limit db)
  unfolding list_recent_tasks
  recent_list limit =
      let ReadsRow : TaskRow → Type 0 = λ row. Reads (read_task json row) in
      read_all-Reads (read_task json) _
        (All-limit_rows ReadsRow limit _ (All-order_by ReadsRow newer_task db.tasks tasks_read))

  pub node_task_list :
      (node_id : String) (limit : ℕ) → Reads (list_tasks_for_node json node_id limit db)
  unfolding list_tasks_for_node
  node_task_list node_id limit =
      let ReadsRow : TaskRow → Type 0 = λ row. Reads (read_task json row) in
      let chosen = All-selected ReadsRow (of_node node_id) db.tasks tasks_read in
      read_all-Reads (read_task json) _
        (All-limit_rows ReadsRow limit _ (All-order_by ReadsRow newer_task _ chosen))

  pub node_list : Reads (list_nodes json db)
  unfolding list_nodes
  node_list =
      read_all-Reads (read_node json) _
        (All-order_by (λ row. Reads (read_node json row)) node_before db.nodes nodes_read)
