-- ===== src/Db/Listings.antt =====
-- apps/command-server/src/db.rs: what the listing of a node's tasks shows.
use ruchat.Prelude.{
  ℕ, zero, suc, String, ◌≡◌, Bool, true, Bool-cases, inl, inr, List, [], ◌∷◌, arith, eq_iff, ltb,
  ◌^◌,
}
use ruchat.Prelude.Lists.{All, take, select, insert_by, order_by}
use ruchat.Prelude.Result.{Result, ok, err, Result-cases, ◌>>=◌}
use ruchat.Protocol.Domain.{TaskSnapshot}
use ruchat.Protocol.Codec.{Json}
use ruchat.Db.Rows.{Db, DbError, TaskRow}
use ruchat.Db.Read.{read_all, limit_rows, read_task}
use ruchat.Db.Tasks.{of_node, newer_task, list_tasks_for_node}

module _ {A : Type 0} (P : A → Type 0) where
  All-select : (p : A → Bool) (xs : List A) → ((x : A) → p x ≡ true → P x) → All P (select p xs)
  unfolding select
  All-select p [] h = tt
  All-select p (x ∷ xs) h = elim (Bool-cases (p x)) [
    | inl e ↦ rw e (h x e, All-select p xs h)
    | inr e ↦ rw e (All-select p xs h)
  ]

  All-insert_by :
      (le : A → A → Bool) (x : A) (xs : List A) → P x → All P xs → All P (insert_by le x xs)
  unfolding insert_by
  All-insert_by le x [] h k = (h, tt)
  All-insert_by le x (y ∷ ys) h k = elim (Bool-cases (le x y)) [
    | inl e ↦ rw e (h, k)
    | inr e ↦ rw e (k.0, All-insert_by le x ys h k.1)
  ]

  All-order_by : (le : A → A → Bool) (xs : List A) → All P xs → All P (order_by le xs)
  unfolding order_by
  All-order_by le [] h = tt
  All-order_by le (x ∷ xs) h = All-insert_by le x (order_by le xs) h.0 (All-order_by le xs h.1)

  All-take : (n : ℕ) (xs : List A) → All P xs → All P (take n xs)
  All-take zero xs h = tt
  All-take (suc n) [] h = tt
  All-take (suc n) (x ∷ xs) h = (h.0, All-take n xs h.1)

  pub All-limit_rows : (n : ℕ) (xs : List A) → All P xs → All P (limit_rows n xs)
  unfolding limit_rows
  All-limit_rows n xs h = elim (Bool-cases (ltb n (2 ^ 63))) [
    | inl e ↦ rw e (All-take n xs h)
    | inr e ↦ rw e h
  ]

-- What a successful result satisfies.
abbrev OkWith : {A : Type 0} → (A → Type 0) → Result DbError A → Type 0
OkWith P (ok a) = P a
OkWith P (err e) = Unit

-- What was read from rows with a property.
module _ {R A : Type 0} (P : R → Type 0) (Q : A → Type 0) (read : R → Result DbError A)
    (reads : (r : R) → P r → OkWith Q (read r)) where
  read_all-OkWith : (rows : List R) → All P rows → OkWith (All Q) (read_all read rows)
  unfolding read_all
  read_all-OkWith [] h = tt
  read_all-OkWith (row ∷ rows) h =
      both (read row) (reads row h.0) (read_all read rows) (read_all-OkWith rows h.1)
    where
      both :
          (r : Result DbError A)
          → OkWith Q r
          → (rest : Result DbError (List A)) → OkWith (All Q) rest
          → OkWith (All Q) (r >>= λ item. rest >>= λ items. ok (item ∷ items))
      both (ok a) q (ok items) h = (q, h)
      both (ok a) q (err e) h = tt
      both (err e) q rest h = tt

module _ (json : Json) (node_id : String) where
  abbrev OfNode : TaskRow → Type 0
  OfNode row = row.node_id ≡ node_id

  read_task-node :
      (row : TaskRow) → OfNode row → OkWith (λ task. task.node_id ≡ node_id) (read_task json row)
  unfolding read_task
  read_task-node row h = elim (Result-cases (read_task json row)) [
    | inr (e, fails) ↦ rw fails tt
    | inl (task, reads) ↦ rw reads (ground arith)
  ]

  -- The listing of a node's tasks shows tasks of this node only, whatever other tasks the table has.
  pub list_tasks_for_node-OfNode :
      (limit : ℕ) (db : Db) (tasks : List TaskSnapshot)
      → list_tasks_for_node json node_id limit db ≡ ok tasks
      → All (λ task. task.node_id ≡ node_id) tasks
  unfolding list_tasks_for_node
  list_tasks_for_node-OfNode limit db tasks e =
      let rows = All-limit_rows OfNode limit _ (
        All-order_by OfNode newer_task _ (
          All-select OfNode (of_node node_id) db.tasks
            (λ row t. (eq_iff row.node_id node_id).0 t))) in
      let read =
        read_all-OkWith OfNode (λ task. task.node_id ≡ node_id) (read_task json) read_task-node _
          rows in
      rw e at read
