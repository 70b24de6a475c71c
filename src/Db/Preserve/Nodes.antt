-- ===== src/Db/Preserve/Nodes.antt =====
-- Every operation of the nodes table keeps the invariant.
use ruchat.Prelude.{
  ℕ, String, ◌≡◌, refl, Option, none, some, List, [], ◌∷◌, ◌==◌, inl, inr, Bool-cases, some_of,
  snd_if,
}
use ruchat.Prelude.Lists.{find, matching, All}
use ruchat.Prelude.Updates.{All-append, All-update, All-find, find-append}
use ruchat.Prelude.Result.{ok}
use ruchat.Protocol.Domain.{NodeRegistration, CommandDescriptor}
use ruchat.Protocol.Codec.{Json}
use ruchat.Db.Rows.{NodeRow, Db, is_node}
use ruchat.Db.Nodes.{
  register_node, registration_row, registered_commands, upsert_node, overwrite, set_commands,
  update_node_commands,
}
use ruchat.Db.Sound.{IsSoundDb, Readable, KeepsNodes, update-KeepsNodes, set_nodes-IsSoundDb}

-- The row that a registration writes has readable commands.
registered_commands-Readable :
    (json : Json) (commands : List CommandDescriptor) (existing : Option NodeRow)
    → ((row : NodeRow) → existing ≡ some row → Readable json row)
    → (cs : List CommandDescriptor) × (json.commands.decode
          (registered_commands json commands existing)
        ≡ ok cs)
unfolding registered_commands
registered_commands-Readable json [] none old = ([], json.commands_empty)
registered_commands-Readable json [] (some row) old = old row refl
registered_commands-Readable json (c ∷ cs) existing old =
    (c ∷ cs, json.commands.decode-encode (c ∷ cs))

upsert-KeepsNodes :
    (nodes : List NodeRow) (row : NodeRow) → KeepsNodes nodes (upsert_node row nodes)
unfolding upsert_node overwrite
upsert-KeepsNodes nodes row node_id h =
    elim (Bool-cases (matching (is_node row.node_id) nodes == 0)) [
      | inl fresh ↦
          let (found, e) = some_of (find (is_node node_id) nodes) h in
          rw (fresh, find-append (is_node node_id) nodes (row ∷ []) e)
      | inr old ↦
          rw old
            (update-KeepsNodes (is_node row.node_id) (overwrite row) nodes (λ r. refl) node_id h)
    ]

upsert-Readable :
    (json : Json) (nodes : List NodeRow) (row : NodeRow)
    → Readable json row
    → All (Readable json) nodes
    → All (Readable json) (upsert_node row nodes)
unfolding upsert_node overwrite
upsert-Readable json nodes row r h = elim (Bool-cases (matching (is_node row.node_id) nodes == 0)) [
  | inl fresh ↦ rw fresh (All-append (Readable json) nodes (row ∷ []) h (r, tt))
  | inr old ↦
      rw old (All-update (Readable json) (is_node row.node_id) (overwrite row) nodes (λ x _ _. r) h)
]

module _ {json : Json} {db : Db} where
  pub register-IsSoundDb :
      (now : ℕ) (registration : NodeRegistration)
      → IsSoundDb json db
      → IsSoundDb json (register_node json now registration db).1
  unfolding register_node registration_row
  register-IsSoundDb now registration h =
      set_nodes-IsSoundDb _ h
        (upsert-KeepsNodes db.nodes (registration_row json now registration db))
        (upsert-Readable json db.nodes (registration_row json now registration db)
          (registered_commands-Readable json registration.commands
            (find (is_node registration.node_id) db.nodes)
            (λ row e.
              All-find (Readable json) (is_node registration.node_id) db.nodes h.readable e))
          h.readable)

  pub update_commands-IsSoundDb :
      (now : ℕ) (node_id : String) (commands : List CommandDescriptor)
      → IsSoundDb json db
      → IsSoundDb json (update_node_commands json now node_id commands db).1
  unfolding update_node_commands
  update_commands-IsSoundDb now node_id commands h =
      rw (snd_if (matching (is_node node_id) db.nodes == 0)) (
        set_nodes-IsSoundDb _ h
          (update-KeepsNodes (is_node node_id)
            (set_commands json now (json.commands.encode commands)) db.nodes (λ row. refl))
          (All-update (Readable json) (is_node node_id)
            (set_commands json now (json.commands.encode commands)) db.nodes
            (λ row _ _. (commands, json.commands.decode-encode commands)) h.readable))
