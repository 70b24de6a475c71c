-- ===== src/Db/Nodes.antt =====
-- apps/command-server/src/db.rs: the nodes table. `now` is the result of the operation's one call of
-- `unix_now`.
use Prim.Native.Nat.{Ordering}
use Prim.Native.String.{compare as str_compare}
use ruchat.Prelude.{
  ℕ, String, Bool, true, false, Option, none, some, List, [], ◌∷◌, ◌++◌, ◌==◌, if◌then◌else◌,
}
use ruchat.Prelude.Lists.{find, update, matching, order_by}
use ruchat.Prelude.Result.{Result, ok}
use ruchat.Protocol.Domain.{CommandDescriptor, NodeRegistration, NodeSnapshot}
use ruchat.Protocol.Codec.{Json}
use ruchat.Db.Rows.{DbError, NodeRow, Db, is_node}
use ruchat.Db.Read.{read_node, read_all, get_node_inner, ok_or_else}

-- The order of `ORDER BY node_id`: SQLite compares the bytes of two texts.
unfoldable pub node_before : NodeRow → NodeRow → Bool
node_before a b = elim (str_compare a.node_id b.node_id) [ Ordering.gt ↦ false | _ ↦ true ]

-- INSERT … ON CONFLICT(node_id) DO UPDATE: an existing row keeps its key and its registration time.
unfoldable pub overwrite : NodeRow → NodeRow → NodeRow
overwrite excluded row = record row {
  hostname = excluded.hostname;
  platform = excluded.platform;
  poll_interval_secs = excluded.poll_interval_secs;
  last_seen_unix_secs = excluded.last_seen_unix_secs;
  commands_json = excluded.commands_json;
}

unfoldable pub upsert_node : NodeRow → List NodeRow → List NodeRow
upsert_node row rows =
    if matching (is_node row.node_id) rows == 0
    then rows ++ row ∷ []
    else update (is_node row.node_id) (overwrite row) rows

module _ (json : Json) where
  -- A registration with no commands keeps those that the store has.
  unfoldable pub registered_commands : List CommandDescriptor → Option NodeRow → String
  registered_commands [] none = "[]"
  registered_commands [] (some row) = row.commands_json
  registered_commands (c ∷ cs) existing = json.commands.encode (c ∷ cs)

  registered_at : ℕ → Option NodeRow → ℕ
  registered_at now none = now
  registered_at now (some row) = row.registered_at_unix_secs

  unfoldable pub registration_row : ℕ → NodeRegistration → Db → NodeRow
  unfolding registered_commands registered_at
  registration_row now registration db =
      let existing = find (is_node registration.node_id) db.nodes in
      record {
        node_id = registration.node_id;
        hostname = registration.hostname;
        platform = registration.platform;
        poll_interval_secs = registration.poll_interval_secs;
        registered_at_unix_secs = registered_at now existing;
        last_seen_unix_secs = now;
        commands_json = registered_commands registration.commands existing;
      }

  unfoldable pub register_node : ℕ → NodeRegistration → Db → Result DbError NodeSnapshot × Db
  register_node now registration db =
      let stored = record db {
        nodes = upsert_node (registration_row now registration db) db.nodes;
      } in
      (
        ok_or_else "node disappeared after upsert"
            (get_node_inner json stored registration.node_id),
        stored,
      )

  unfoldable pub list_nodes : Db → Result DbError (List NodeSnapshot)
  list_nodes db = read_all (read_node json) (order_by node_before db.nodes)

  unfoldable pub get_node : Db → String → Result DbError (Option NodeSnapshot)
  get_node db node_id = get_node_inner json db node_id

  abbrev pub set_commands : ℕ → String → NodeRow → NodeRow
  set_commands now commands_json row = record row {
    commands_json = commands_json;
    last_seen_unix_secs = now;
  }

  unfoldable pub update_node_commands :
      ℕ → String → List CommandDescriptor → Db → Result DbError (Option NodeSnapshot) × Db
  update_node_commands now node_id commands db =
      let stored = record db {
        nodes =
            update (is_node node_id) (set_commands now (json.commands.encode commands)) db.nodes;
      } in
      if matching (is_node node_id) db.nodes == 0
      then (ok none, stored)
      else (get_node_inner json stored node_id, stored)
