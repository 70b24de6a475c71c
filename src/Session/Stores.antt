-- ===== src/Session/Stores.antt =====
-- What every handler of a session keeps: a relation between the worlds before and after, which is
-- checked action by action. Here: the shared store changes by its own operations only.
use ruchat.Prelude.{◌≡◌, refl, sym, ap, ◌∙◌, Bool, true, false, List, [], ◌∷◌, ◌++◌, if◌then◌else◌}
use ruchat.Prelude.Result.{Result, ok, err}
use ruchat.Db.Rows.{DbError, Db}
use ruchat.Db.Ops.{Op, apply_op, apply_ops}
use ruchat.Session.World.{
  Outside, World, Action, IoError, continue, ◌>>=◌, attempt, store_result, store,
}

pub record IsPreorder (R : World → World → Type 0) : Type 0 where
  pub same : (w : World) → R w w
  pub next : (w w' w'' : World) → R w w' → R w' w'' → R w w''

-- An action goes from every world to a related one, whether it succeeds or fails.
pub record Runs (R : World → World → Type 0) {A : Type 0} (m : Action A) : Type 0 where
  pub run : (w : World) → R w (m w).1

module _ {R : World → World → Type 0} (order : IsPreorder R) where
  continue-Runs :
      {A B : Type 0} (f : A → Action B) (w : World) (out : Result IoError A × World)
      → R w out.1
      → ((a : A) → Runs R (f a))
      → R w (continue f out).1
  continue-Runs f w (ok a, w') h k = order.next w w' (f a w').1 h ((k a).run w')
  continue-Runs f w (err e, w') h k = h

  pub bind-Runs :
      {A B : Type 0} {m : Action A} {f : A → Action B}
      → Runs R m
      → ((a : A) → Runs R (f a))
      → Runs R (m >>= f)
  bind-Runs {m} {f} h k = record { run = λ w. continue-Runs f w (m w) (h.run w) k }

module _ {R : World → World → Type 0} where
  pub if-Runs :
      {A : Type 0} (b : Bool) {m n : Action A} → Runs R m → Runs R n → Runs R (if b then m else n)
  if-Runs true h k = h
  if-Runs false h k = k

  pub attempt-Runs : {A : Type 0} {m : Action A} → Runs R m → Runs R (attempt m)
  attempt-Runs {m} h = record { run = λ w. h.run w }

-- The store after is the store before with some operations applied.
pub record Stores (env : Outside) (w w' : World) : Type 0 where
  pub ops : List Op
  pub applied : apply_ops env.json ops w.state.db ≡ w'.state.db

module _ (env : Outside) where
  apply_ops-append :
      (ops ops' : List Op) (db : Db)
      → apply_ops env.json (ops ++ ops') db ≡ apply_ops env.json ops' (apply_ops env.json ops db)
  unfolding apply_ops
  apply_ops-append [] ops' db = refl
  apply_ops-append (op ∷ ops) ops' db = apply_ops-append ops ops' (apply_op env.json op db)

  untouched : (w w' : World) → w.state.db ≡ w'.state.db → Stores env w w'
  unfolding apply_ops
  untouched w w' e = record { ops = []; applied = e }

  pub Stores-order : IsPreorder (Stores env)
  Stores-order = record {
    same = λ w. untouched w w refl;
    next = λ w w' w'' h h'. record {
      ops = h.ops ++ h'.ops;
      applied =
          apply_ops-append h.ops h'.ops w.state.db
          ∙ ap (apply_ops env.json h'.ops) h.applied
          ∙ h'.applied;
    };
  }

  -- An action that leaves the store alone.
  pub untouched-Runs :
      {A : Type 0} {m : Action A}
      → ((w : World) → (m w).1.state.db ≡ w.state.db)
      → Runs (Stores env) m
  untouched-Runs {m} e = record { run = λ w. untouched w (m w).1 (sym (e w)) }

  store_out :
      {A : Type 0} (w : World) (out : Result DbError A × Db)
      → (store_result w out).1.state.db ≡ out.1
  store_out w (ok a, db) = refl
  store_out w (err x, db) = refl

  pub store-Runs :
      {A : Type 0} (run : Db → Result DbError A × Db) (op : Op)
      → ((db : Db) → (run db).1 ≡ apply_op env.json op db)
      → Runs (Stores env) (store run)
  unfolding store apply_ops
  store-Runs run op e = record {
    run =
        λ w. record { ops = op ∷ []; applied = sym (store_out w (run w.state.db) ∙ e w.state.db) };
  }
