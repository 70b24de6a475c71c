-- ===== src/Db/Sound.antt =====
-- The invariant of the store: sound task rows with ascending keys, whose nodes are there, and nodes
-- whose commands read back.
use ruchat.Prelude.{String, ◌≡◌, refl, Bool, true, List, [], ◌∷◌, arith, is_some, if◌then◌else◌}
use ruchat.Prelude.Lists.{find, update, All}
use ruchat.Prelude.Updates.{All-update, map_option, rewritten, find-update}
use ruchat.Prelude.Result.{ok}
use ruchat.Protocol.Domain.{CommandDescriptor}
use ruchat.Protocol.Codec.{Json}
use ruchat.Db.Rows.{NodeRow, TaskRow, Db, is_node}
use ruchat.Db.Lifecycle.{IsSound}
use ruchat.Db.Keys.{Ascends, Ascends-update, KeepsId}

-- FOREIGN KEY(node_id) REFERENCES nodes(node_id)
abbrev pub HasNode : List NodeRow → String → Type 0
HasNode nodes node_id = is_some (find (is_node node_id) nodes) ≡ true

abbrev pub Readable : Json → NodeRow → Type 0
Readable json row =
    (commands : List CommandDescriptor) × (json.commands.decode row.commands_json ≡ ok commands)

pub record IsSoundDb (json : Json) (db : Db) : Type 0 where
  pub rows : All (IsSound json) db.tasks
  pub keys : Ascends 0 db.tasks db.task_sequence
  pub owners : All (λ row. HasNode db.nodes row.node_id) db.tasks
  pub readable : All (Readable json) db.nodes

-- A write of the nodes table that loses no node.
abbrev pub KeepsNodes : List NodeRow → List NodeRow → Type 0
KeepsNodes nodes nodes' = (node_id : String) → HasNode nodes node_id → HasNode nodes' node_id

owners_mono :
    (nodes nodes' : List NodeRow) (rows : List TaskRow)
    → KeepsNodes nodes nodes'
    → All (λ row. HasNode nodes row.node_id) rows
    → All (λ row. HasNode nodes' row.node_id) rows
owners_mono nodes nodes' [] keep h = tt
owners_mono nodes nodes' (row ∷ rows) keep h =
    (keep row.node_id h.0, owners_mono nodes nodes' rows keep h.1)

pub update-KeepsNodes :
    (p : NodeRow → Bool) (f : NodeRow → NodeRow) (nodes : List NodeRow)
    → ((row : NodeRow) → (f row).node_id ≡ row.node_id)
    → KeepsNodes nodes (update p f nodes)
unfolding is_node
update-KeepsNodes p f nodes keep node_id h =
    rw (find-update (is_node node_id) p f nodes (λ row. rw (keep row)))
      (is_some-map (find (is_node node_id) nodes) h)
  where
    is_some-map : (o : _) → is_some o ≡ true → is_some (map_option (rewritten p f) o) ≡ true
    is_some-map o e = ground arith

module _ {json : Json} where
  -- A write of the nodes table.
  pub set_nodes-IsSoundDb :
      {db : Db} (nodes : List NodeRow)
      → IsSoundDb json db
      → KeepsNodes db.nodes nodes
      → All (Readable json) nodes
      → IsSoundDb json (record db { nodes = nodes })
  set_nodes-IsSoundDb {db} nodes h keep readable = record {
    rows = h.rows;
    keys = h.keys;
    owners = owners_mono db.nodes nodes db.tasks keep h.owners;
    readable = readable;
  }

  -- A write of the tasks table that keeps ids and owners, and under its guard leaves sound rows.
  pub update-IsSoundDb :
      {db : Db} (p : TaskRow → Bool) (f : TaskRow → TaskRow)
      → IsSoundDb json db
      → KeepsId f
      → ((row : TaskRow) → (f row).node_id ≡ row.node_id)
      → All (λ row. p row ≡ true → IsSound json (f row)) db.tasks
      → IsSoundDb json (record db { tasks = update p f db.tasks })
  unfolding update
  update-IsSoundDb {db} p f h id node step = record {
    rows = each db.tasks step h.rows;
    keys = Ascends-update p f 0 db.tasks db.task_sequence id h.keys;
    owners =
        All-update (λ row. HasNode db.nodes row.node_id) p f db.tasks (λ row o _. rw (node row) o)
          h.owners;
    readable = h.readable;
  }
    where
      each :
          (rows : List TaskRow)
          → All (λ row. p row ≡ true → IsSound json (f row)) rows
          → All (IsSound json) rows
          → All (IsSound json) (update p f rows)
      each [] s k = tt
      each (row ∷ rows) s k = (one (p row) refl, each rows s.1 k.1)
        where
          one : (b : Bool) → p row ≡ b → IsSound json (if b then f row else row)
          one true e = s.0 e
          one b e = k.0
