-- ===== src/Db/Keys.antt =====
-- The primary key of the tasks table: ids ascend from row to row and end at the sequence, so a row
-- is found by its id, and the sequence's successor is free.
use ruchat.Prelude.{
  ℕ, ◌+◌, ◌≤◌, ◌<◌, ◌≡◌, Bool, true, some, List, [], ◌∷◌, ◌++◌, inl, inr, Bool-cases, arith,
}
use ruchat.Prelude.Lists.{find, update, All}
use ruchat.Prelude.Updates.{rewritten}
use ruchat.Db.Rows.{TaskRow, has_id}

abbrev pub Ascends : ℕ → List TaskRow → ℕ → Type 0
Ascends low [] high = low ≤ high
Ascends low (row ∷ rows) high = (low < row.task_id) × Ascends row.task_id rows high

pub Ascends-append :
    (low : ℕ) (rows : List TaskRow) (high : ℕ) (row : TaskRow)
    → Ascends low rows high
    → row.task_id ≡ high + 1
    → Ascends low (rows ++ row ∷ []) (high + 1)
Ascends-append low [] high row h e = (omega arith, omega arith)
Ascends-append low (r ∷ rows) high row h e = (h.0, Ascends-append r.task_id rows high row h.1 e)

pub has_id_eq : (task_id : ℕ) (row : TaskRow) → has_id task_id row ≡ true → row.task_id ≡ task_id
unfolding has_id
has_id_eq task_id row h = ground arith

-- A write that leaves the id alone.
abbrev pub KeepsId : (TaskRow → TaskRow) → Type 0
KeepsId f = (row : TaskRow) → (f row).task_id ≡ row.task_id

pub rewritten-id :
    (p : TaskRow → Bool) (f : TaskRow → TaskRow) (row : TaskRow)
    → KeepsId f
    → (rewritten p f row).task_id ≡ row.task_id
rewritten-id p f row keep = elim (Bool-cases (p row)) [ inl e ↦ rw e (keep row) | inr e ↦ rw e ]

pub Ascends-update :
    (p : TaskRow → Bool) (f : TaskRow → TaskRow) (low : ℕ) (rows : List TaskRow) (high : ℕ)
    → KeepsId f
    → Ascends low rows high
    → Ascends low (update p f rows) high
unfolding update
Ascends-update p f low [] high keep h = h
Ascends-update p f low (row ∷ rows) high keep h =
    rw (rewritten-id p f row keep) (h.0, Ascends-update p f row.task_id rows high keep h.1)

pub Ascends-le : (low : ℕ) (rows : List TaskRow) (high : ℕ) → Ascends low rows high → low ≤ high
Ascends-le low [] high h = h
Ascends-le low (row ∷ rows) high h = omega (arith, Ascends-le row.task_id rows high h.1)

-- Every id lies between the bounds.
pub Ascends-bounds :
    (low : ℕ) (rows : List TaskRow) (high : ℕ)
    → Ascends low rows high
    → All (λ row. (low < row.task_id) × (row.task_id ≤ high)) rows
Ascends-bounds low [] high h = tt
Ascends-bounds low (row ∷ rows) high h = (
  (h.0, Ascends-le row.task_id rows high h.1),
  weaken rows (Ascends-bounds row.task_id rows high h.1),
)
  where
    weaken :
        (rows : List TaskRow)
        → All (λ r. (row.task_id < r.task_id) × (r.task_id ≤ high)) rows
        → All (λ r. (low < r.task_id) × (r.task_id ≤ high)) rows
    weaken [] k = tt
    weaken (r ∷ rs) k = ((omega arith, k.0.1), weaken rs k.1)

-- Each row is the one that its id finds.
pub find_self :
    (low : ℕ) (rows : List TaskRow) (high : ℕ)
    → Ascends low rows high
    → All (λ row. find (has_id row.task_id) rows ≡ some row) rows
unfolding find has_id
find_self low [] high h = tt
find_self low (row ∷ rows) high h = (
  ground arith,
  later rows (Ascends-bounds row.task_id rows high h.1) (find_self row.task_id rows high h.1),
)
  where
    later :
        (rs : List TaskRow)
        → All (λ r. (row.task_id < r.task_id) × (r.task_id ≤ high)) rs
        → All (λ r. find (has_id r.task_id) rows ≡ some r) rs
        → All (λ r. find (has_id r.task_id) (row ∷ rows) ≡ some r) rs
    later [] k f = tt
    later (r ∷ rs) k f = (ground (arith, k.0.0, f.0), later rs k.1 f.1)

-- No other row has the id of a row that was found.
pub has_id_unique :
    (low : ℕ) (rows : List TaskRow) (high task_id : ℕ) (row : TaskRow)
    → Ascends low rows high
    → find (has_id task_id) rows ≡ some row
    → All (λ r. has_id task_id r ≡ true → r ≡ row) rows
has_id_unique low rows high task_id row h e = each rows (find_self low rows high h)
  where
    each :
        (rs : List TaskRow)
        → All (λ r. find (has_id r.task_id) rows ≡ some r) rs
        → All (λ r. has_id task_id r ≡ true → r ≡ row) rs
    each [] f = tt
    each (r ∷ rs) f = ((λ t. cc (has_id_eq task_id r t, f.0)), each rs f.1)
