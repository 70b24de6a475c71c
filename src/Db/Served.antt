-- ===== src/Db/Served.antt =====
-- apps/command-server/src/db.rs: `claim_task` and the queue of its node, claim by claim.
mod Tests
use ruchat.Prelude.{
  ℕ, zero, suc, ◌+◌, ◌≤◌, ◌<◌, String, ◌≡◌, ◌≢◌, refl, sym, ap, ◌∙◌, Bool, true, false, not,
  Bool-cases, inl, inr, ◌⊎◌, Option, none, some, List, [], ◌∷◌, ◌++◌, ◌==◌, arith, if◌then◌else◌,
  str_eq, eq_iff,
}
use mathlib.Core.Path.{subst}
use mathlib.Core.List.{append_assoc}
use ruchat.Prelude.Lists.{All, length, find, update}
use ruchat.Prelude.Result.{Result, ok, err}
use ruchat.Protocol.Domain.{PendingTask}
use ruchat.Protocol.Codec.{Json}
use ruchat.Db.Rows.{Db, DbError, TaskRow, has_id, is_node, ClaimTaskOutcome}
use ruchat.Db.Tasks.{is_queued_for, dispatch, claim_task, next_queued}
use ruchat.Db.Lifecycle.{IsSound}
use ruchat.Db.Sound.{IsSoundDb, HasNode}
use ruchat.Db.Ops.{Op, apply_op, apply_ops}
use ruchat.Db.Preserve.{apply_op-IsSoundDb}
use ruchat.Db.Effects.{Claimed, ClaimCases, claim_task_cases}
use ruchat.Db.Claim.{
  read_pending_id, read_pending_sound, HasNode-matching, next_queued-All, next_queued-none,
}
use ruchat.Db.Held.{queued_owner}
use ruchat.Db.Queue.{
  queue, without, queue-update, queue-Above, without_head, next_queued-queue, Above,
}
use ruchat.Db.Fifo.{dispatch-unqueued, Left, ends, returns_to, is_claim, apply_op-Left}

-- A queue with an entry comes from a row that is queued.
queue-row :
    (node_id : String) (P : TaskRow → Type 0) (rows : List TaskRow) {x : ℕ} {rest : List ℕ}
    → All P rows
    → queue node_id rows ≡ x ∷ rest
    → (row : TaskRow) × P row × (is_queued_for node_id row ≡ true)
unfolding queue
queue-row node_id P [] h e = cc
queue-row node_id P (row ∷ rows) h e = elim (Bool-cases (is_queued_for node_id row)) [
  | inl t ↦ (row, h.0, t)
  | inr t ↦ queue-row node_id P rows h.1 (rw t at e)
]

unqueued-none :
    (node_id : String) (rows : List TaskRow)
    → All (λ r. is_queued_for node_id r ≡ true → ⊥) rows
    → queue node_id rows ≡ []
unfolding queue
unqueued-none node_id [] h = refl
unqueued-none node_id (row ∷ rows) h = elim (Bool-cases (is_queued_for node_id row)) [
  | inl t ↦ absurd (h.0 t)
  | inr t ↦ rw t (unqueued-none node_id rows h.1)
]

same_head : {x y : ℕ} {xs ys : List ℕ} → x ∷ xs ≡ y ∷ ys → (x ≡ y) × (xs ≡ ys)
same_head e = (cc e, cc e)

module _ (json : Json) (node_id : String) (now : ℕ) (db : Db) (sound : IsSoundDb json db) where
  abbrev pub Serves : ℕ → List ℕ → Type 0
  Serves id rest =
      (task : PendingTask) × ((claim_task json now node_id db).0
        ≡ ok (ClaimTaskOutcome.claimed task))
      × (task.task_id ≡ id)
      × (queue node_id (claim_task json now node_id db).1.tasks ≡ rest)

  took-Serves :
      (c : Claimed json db now node_id) {id : ℕ} {rest : List ℕ}
      → queue node_id db.tasks ≡ id ∷ rest
      → Serves id rest
  took-Serves c {id} {rest} e =
      let (others, stands) = next_queued-queue node_id db sound.keys c.next in
      let heads = same_head (sym e ∙ stands) in
      let above : Above 0 (id ∷ rest) =
        rw e at (queue-Above node_id 0 db.tasks db.task_sequence sound.keys) in
      let taken : c.task.task_id ≡ id = read_pending_id json c.row c.decoded ∙ sym heads.0 in
      (
        c.task,
        ap (λ p. p.0) c.result,
        taken,
        rw c.result (
            queue-update node_id c.task.task_id (dispatch now) db.tasks
              (dispatch-unqueued node_id now)
            ∙ rw (taken, e) (without_head id rest above.1)),
      )

  -- On a sound store a claim for a node takes the head of the node's queue, which is then what was
  -- behind it.
  pub claim_task-head :
      (id : ℕ) (rest : List ℕ) → queue node_id db.tasks ≡ id ∷ rest → Serves id rest
  claim_task-head id rest e = elim (claim_task_cases json db now node_id) [
    | ClaimCases.unknown nobody r ↦
        let (row, owner, t) =
          queue-row node_id (λ row. HasNode db.nodes row.node_id) db.tasks sound.owners e in
        let known : HasNode db.nodes node_id = rw (queued_owner node_id row t) at owner in
        absurd (HasNode-matching db.nodes node_id known nobody)
    | ClaimCases.unread row x next failure r ↦ absurd (
        read_pending_sound json row (next_queued-All node_id db (IsSound json) sound.rows next)
          failure)
    | ClaimCases.idle _ nothing r ↦
        let empty = unqueued-none node_id db.tasks (next_queued-none node_id db nothing) in
        absurd (never (sym e ∙ empty))
    | ClaimCases.took c ↦ took-Serves c e
  ]
    where
      never : id ∷ rest ≡ [] → ⊥
      never p = cc

-- An entry of a queue with at most `n` entries before it.
pub record Waits (id n : ℕ) (entries : List ℕ) : Type 0 where
  pub before : List ℕ
  pub after : List ℕ
  pub split : entries ≡ before ++ id ∷ after
  pub few : length before ≤ n

length-without : (x : ℕ) (xs : List ℕ) → length (without x xs) ≤ length xs
unfolding without
length-without x [] = omega arith
length-without x (y ∷ ys) = ground (arith, length-without x ys)

without-append : (x : ℕ) (xs ys : List ℕ) → without x (xs ++ ys) ≡ without x xs ++ without x ys
unfolding without
without-append x [] ys = refl
without-append x (y ∷ xs) ys = ground (arith, without-append x xs ys)

without_other : (x id : ℕ) (xs : List ℕ) → x ≢ id → without x (id ∷ xs) ≡ id ∷ without x xs
unfolding without
without_other x id xs apart = ground arith

Left-Waits :
    (id n : ℕ) {before after : List ℕ} → Left id before after → Waits id n before → Waits id n after
Left-Waits id n (Left.same e) w = record {
  before = w.before;
  after = w.after;
  split = e ∙ w.split;
  few = w.few;
}
Left-Waits id n (Left.joined more e) w = record {
  before = w.before;
  after = w.after ++ more;
  split = e ∙ ap (λ q. q ++ more) w.split ∙ append_assoc w.before (id ∷ w.after) more;
  few = w.few;
}
Left-Waits id n (Left.lost x apart e) w = record {
  before = without x w.before;
  after = without x w.after;
  split =
      e
      ∙ ap (without x) w.split
      ∙ without-append x w.before (id ∷ w.after)
      ∙ ap (λ q. without x w.before ++ q) (without_other x id w.after apart);
  few = omega (arith, length-without x w.before, w.few);
}

-- The queue is not empty: its head is the entry, or the entry moves up when the head leaves.
data Head (id n : ℕ) (entries : List ℕ) : Type 0 where
  first : (rest : List ℕ) → entries ≡ id ∷ rest → Head id n entries
  behind :
      (x m : ℕ) (rest : List ℕ)
      → entries ≡ x ∷ rest
      → n ≡ suc m
      → Waits id m rest
      → Head id n entries

Waits-Head : (id n : ℕ) {entries : List ℕ} → Waits id n entries → Head id n entries
Waits-Head id n {entries} w = on n w.before w.split w.few
  where
    on :
        (n : ℕ) (before : List ℕ)
        → entries ≡ before ++ id ∷ w.after
        → length before ≤ n
        → Head id n entries
    on n [] e few = first w.after e
    on zero (x ∷ before) e few = absurd (omega (arith, few))
    on (suc m) (x ∷ before) e few =
        behind x m (before ++ id ∷ w.after) e refl
          (record { before = before; after = w.after; split = refl; few = omega (arith, few) })

-- How many claims for the node are among some operations.
unfoldable pub claims : String → List Op → ℕ
claims node_id [] = 0
claims node_id (op ∷ ops) =
    let rest = claims node_id ops in if is_claim node_id op then suc rest else rest

module _ (json : Json) (node_id : String) (id : ℕ) where
  -- An operation that neither ends the task nor returns others to the queue.
  abbrev pub Ordinary : Op → Type 0
  Ordinary op = (ends id op ≡ false) × (returns_to node_id op ≡ false)

  -- One of the claims hands the task out.
  pub record HandedOut (db : Db) (ops : List Op) : Type 0 where
    pub earlier : List Op
    pub later : List Op
    pub now : ℕ
    pub task : PendingTask
    pub split : ops ≡ earlier ++ Op.claim now node_id ∷ later
    pub answer :
        (claim_task json now node_id (apply_ops json earlier db)).0
        ≡ ok (ClaimTaskOutcome.claimed task)
    pub right : task.task_id ≡ id

  later-HandedOut :
      (op : Op) (db : Db) (ops : List Op)
      → HandedOut (apply_op json op db) ops
      → HandedOut db (op ∷ ops)
  unfolding apply_ops
  later-HandedOut op db ops h = record {
    earlier = op ∷ h.earlier;
    later = h.later;
    now = h.now;
    task = h.task;
    split = ap (λ rest. op ∷ rest) h.split;
    answer = h.answer;
    right = h.right;
  }

  claims-of : (op : Op) → is_claim node_id op ≡ true → (now : ℕ) × (op ≡ Op.claim now node_id)
  claims-of (Op.claim now other) e = (now, ap (λ o. Op.claim now o) ((eq_iff other node_id).0 e))
  claims-of (Op.register _ _) e = cc
  claims-of (Op.update_commands _ _ _) e = cc
  claims-of (Op.create _ _ _) e = cc
  claims-of (Op.record_event _ _ _ _) e = cc
  claims-of (Op.requeue_incomplete _ _) e = cc
  claims-of (Op.acknowledge _ _ _) e = cc
  claims-of (Op.retry _ _ _) e = cc
  claims-of (Op.submit _ _ _) e = cc
  claims-of (Op.cancel _ _ _ _) e = cc

  -- A claim hands the task out, or brings it forward.
  at_claim :
      (n now : ℕ) (db : Db) (ops : List Op)
      → IsSoundDb json db
      → Waits id n (queue node_id db.tasks)
      → ((m : ℕ)
          → n ≡ suc m
          → Waits id m (queue node_id (claim_task json now node_id db).1.tasks)
          → HandedOut (claim_task json now node_id db).1 ops)
      → HandedOut db (Op.claim now node_id ∷ ops)
  unfolding apply_ops
  at_claim n now db ops sound w next = elim (Waits-Head id n w) [
    | first rest e ↦
        let (task, answer, right, left) = claim_task-head json node_id now db sound id rest e in
        record {
          earlier = [];
          later = ops;
          now = now;
          task = task;
          split = refl;
          answer = answer;
          right = right;
        }
    | behind x m rest e fewer waits ↦
        let (task, answer, right, left) = claim_task-head json node_id now db sound x rest e in
        later-HandedOut (Op.claim now node_id) db ops (next m fewer (rw left waits))
  ]

  claims-claim :
      (op : Op) (ops : List Op)
      → is_claim node_id op ≡ true
      → claims node_id (op ∷ ops) ≡ suc (claims node_id ops)
  unfolding claims
  claims-claim op ops e = rw e refl

  claims-other :
      (op : Op) (ops : List Op)
      → is_claim node_id op ≡ false
      → claims node_id (op ∷ ops) ≡ claims node_id ops
  unfolding claims
  claims-other op ops e = rw e refl

  -- A task that waits in the queue of its node behind at most `n` others is handed out by one of the claims
  -- for the node, among any operations with more than `n` of these claims, none of which ends the task
  -- itself or returns others to this queue, when the store is sound at first.
  pub handed_out :
      (n : ℕ) (db : Db) (ops : List Op)
      → IsSoundDb json db
      → Waits id n (queue node_id db.tasks)
      → All Ordinary ops
      → n < claims node_id ops
      → HandedOut db ops
  handed_out n db [] sound w ordinary enough = absurd (none_left enough)
    where
      none_left : n < claims node_id [] → ⊥
      none_left h = unfold claims in omega (arith, h)
  handed_out n db (op ∷ ops) sound w ordinary enough = elim (Bool-cases (is_claim node_id op)) [
    | inl t ↦
        let (now, e) = claims-of op t in
        let more = claims-claim op ops t in
        subst (λ o. HandedOut db (o ∷ ops)) (sym e)
          (at_claim n now db ops sound w (λ m fewer waits.
            handed_out m (claim_task json now node_id db).1 ops
              (apply_op-IsSoundDb (Op.claim now node_id) sound) waits ordinary.1
              (omega (arith, enough, more, fewer))))
    | inr t ↦
        let more = claims-other op ops t in
        later-HandedOut op db ops (
          handed_out n (apply_op json op db) ops (apply_op-IsSoundDb op sound)
            (Left-Waits id n (apply_op-Left json node_id id db op sound t ordinary.0.1 ordinary.0.0)
              w)
            ordinary.1 (omega (arith, enough, more)))
  ]
