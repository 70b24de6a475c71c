-- ===== src/Db/Queue.antt =====
-- apps/command-server/src/db.rs: the queued tasks of a node as a queue: what a claim takes is its head,
-- and a new task joins at its end.
use ruchat.Prelude.{
  ℕ, ◌≤◌, ◌<◌, String, ◌≡◌, refl, sym, ap, ◌∙◌, Bool, false, Bool-cases, inl, inr, some, List, [],
  ◌∷◌, ◌++◌, ◌==◌, ==_refl, arith, if◌then◌else◌,
}
use ruchat.Prelude.Lists.{select, update, insert_by, order_by, head?}
use ruchat.Db.Rows.{Db, TaskRow, has_id}
use ruchat.Db.Tasks.{is_queued_for, older_task, next_queued}
use ruchat.Db.Keys.{Ascends}

-- The ids of the queued tasks of a node, in the order of the table.
unfoldable pub queue : String → List TaskRow → List ℕ
queue node_id [] = []
queue node_id (row ∷ rows) =
    let rest = queue node_id rows in if is_queued_for node_id row then row.task_id ∷ rest else rest

-- Without one id.
unfoldable pub without : ℕ → List ℕ → List ℕ
without id [] = []
without id (x ∷ xs) = let rest = without id xs in if x == id then rest else x ∷ rest

-- Ids in ascending order, above a bound.
abbrev pub Above : ℕ → List ℕ → Type 0
Above low [] = Unit
Above low (x ∷ xs) = (low < x) × Above x xs

Above-weaken : (low high : ℕ) (xs : List ℕ) → low ≤ high → Above high xs → Above low xs
Above-weaken low high [] h k = tt
Above-weaken low high (x ∷ xs) h k = (omega (arith, k.0), k.1)

pub queue-Above :
    (node_id : String) (low : ℕ) (rows : List TaskRow) (high : ℕ)
    → Ascends low rows high
    → Above low (queue node_id rows)
unfolding queue
queue-Above node_id low [] high h = tt
queue-Above node_id low (row ∷ rows) high h = elim (Bool-cases (is_queued_for node_id row)) [
  | inl e ↦ rw e (h.0, queue-Above node_id row.task_id rows high h.1)
  | inr e ↦ rw e (
      Above-weaken low row.task_id _ (omega (arith, h.0))
        (queue-Above node_id row.task_id rows high h.1))
]

without-Above : (id low : ℕ) (xs : List ℕ) → id ≤ low → Above low xs → without id xs ≡ xs
unfolding without
without-Above id low [] h k = refl
without-Above id low (x ∷ xs) h k =
    ground (arith, k.0, without-Above id x xs (omega (arith, k.0)) k.1)

pub without_head : (id : ℕ) (xs : List ℕ) → Above id xs → without id (id ∷ xs) ≡ xs
unfolding without
without_head id xs h = ground (arith, without-Above id id xs (omega arith) h, ==_refl id)

-- The first queued task.
first-select :
    (node_id : String) (rows : List TaskRow) {row : TaskRow}
    → head? (select (is_queued_for node_id) rows) ≡ some row
    → (rest : List ℕ) × (queue node_id rows ≡ row.task_id ∷ rest)
unfolding select queue
first-select node_id [] e = cc
first-select node_id (x ∷ rows) {row} e = elim (Bool-cases (is_queued_for node_id x)) [
  | inl t ↦
      let same : x ≡ row = cc (rw t at e) in
      (queue node_id rows, rw t (ap (λ (r : TaskRow). r.task_id ∷ queue node_id rows) same))
  | inr t ↦ rw t (first-select node_id rows (rw t at e))
]

-- A write to the row of one id that leaves it queued for nobody takes the id out of every queue.
pub queue-update :
    (node_id : String) (task_id : ℕ) (f : TaskRow → TaskRow) (rows : List TaskRow)
    → ((row : TaskRow) → is_queued_for node_id (f row) ≡ false)
    → queue node_id (update (has_id task_id) f rows) ≡ without task_id (queue node_id rows)
unfolding queue update without has_id
queue-update node_id task_id f [] leaves = refl
queue-update node_id task_id f (row ∷ rows) leaves =
    let rest = queue-update node_id task_id f rows leaves in
    elim (Bool-cases (row.task_id == task_id)) [
      | inl same ↦
          rw (same, leaves row)
            (elim (Bool-cases (is_queued_for node_id row)) [
              | inl e ↦ rw e (rw same rest)
              | inr e ↦ rw e rest
            ])
      | inr other ↦ rw other (elim (Bool-cases (is_queued_for node_id row)) [
        | inl e ↦ rw e (rw other (ap (λ r. row.task_id ∷ r) rest))
        | inr e ↦ rw e rest
      ])
    ]

pub queue-append :
    (node_id : String) (rows more : List TaskRow)
    → queue node_id (rows ++ more) ≡ queue node_id rows ++ queue node_id more
unfolding queue
queue-append node_id [] more = refl
queue-append node_id (row ∷ rows) more = ground (arith, queue-append node_id rows more)

-- Rows in ascending order stand in the order of the query already.
insert_first :
    (row : TaskRow) (rows : List TaskRow) (high : ℕ)
    → Ascends row.task_id rows high
    → insert_by older_task row rows ≡ row ∷ rows
unfolding insert_by older_task
insert_first row [] high h = refl
insert_first row (r ∷ rows) high h = ground (arith, h.0)

pub order_by-Ascends :
    (low : ℕ) (rows : List TaskRow) (high : ℕ)
    → Ascends low rows high
    → order_by older_task rows ≡ rows
unfolding order_by
order_by-Ascends low [] high h = refl
order_by-Ascends low (row ∷ rows) high h =
    rw (order_by-Ascends row.task_id rows high h.1) (insert_first row rows high h.1)

Ascends-weaken :
    (low low' : ℕ) (rows : List TaskRow) (high : ℕ)
    → low ≤ low'
    → Ascends low' rows high
    → Ascends low rows high
Ascends-weaken low low' [] high h k = omega (arith, k)
Ascends-weaken low low' (row ∷ rows) high h k = (omega (arith, k.0), k.1)

Ascends-select :
    (p : TaskRow → Bool) (low : ℕ) (rows : List TaskRow) (high : ℕ)
    → Ascends low rows high
    → Ascends low (select p rows) high
unfolding select
Ascends-select p low [] high h = h
Ascends-select p low (row ∷ rows) high h = elim (Bool-cases (p row)) [
  | inl e ↦ rw e (h.0, Ascends-select p row.task_id rows high h.1)
  | inr e ↦ rw e (
      Ascends-weaken low row.task_id _ high (omega (arith, h.0))
        (Ascends-select p row.task_id rows high h.1))
]

module _ (node_id : String) (db : Db) (keys : Ascends 0 db.tasks db.task_sequence) where
  next_queued-select : next_queued node_id db ≡ head? (select (is_queued_for node_id) db.tasks)
  unfolding next_queued
  next_queued-select = ap head? (
      order_by-Ascends 0 (select (is_queued_for node_id) db.tasks) db.task_sequence
        (Ascends-select (is_queued_for node_id) 0 db.tasks db.task_sequence keys))

  -- The next queued row is the head of the queue.
  pub next_queued-queue :
      {row : TaskRow}
      → next_queued node_id db ≡ some row
      → (rest : List ℕ) × (queue node_id db.tasks ≡ row.task_id ∷ rest)
  next_queued-queue e = first-select node_id db.tasks (sym next_queued-select ∙ e)
