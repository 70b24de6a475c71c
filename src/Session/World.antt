-- ===== src/Session/World.antt =====
-- apps/command-server/src/session.rs: what a session reads and writes, and its handlers as actions
-- that may fail with an io::Error. What was written before a failure stays written.
use ruchat.Prelude.{ℕ, ◌+◌, String, Bool, Option, List}
use ruchat.Prelude.Result.{Result, ok, err}
use ruchat.Protocol.Codec.{Json, Prost}
use ruchat.Db.Rows.{Db, DbError}
use ruchat.Server.AppState.{AppState}

pub record InFlightTask : Type 0 where
  pub task_id : ℕ
  pub timeout_secs : Option ℕ
  pub dispatched_at_unix_secs : ℕ
  pub cancel_requested : Bool
  pub ignore_result : Bool

-- The kinds of io::Error that the handlers make: `other` is what `to_io_error` makes of a store error.
pub data IoError : Type 0 where
  invalid_data : String → IoError
  broken_pipe : String → IoError
  other : DbError → IoError

-- What the session does not decide: the encoders, the clock (its n-th reading), and whether the
-- socket takes the next frame after those it took, or else the text of its error.
pub record Outside : Type 0 where
  pub json : Json
  pub prost : Prost
  pub clock : ℕ → ℕ
  pub link : List (List ℕ) → List ℕ → Option String

-- The shared state, the local variables of `handle_node_socket`, the frames that the socket took
-- (oldest first), and how often the clock was read.
pub record World : Type 0 where
  pub state : AppState
  pub subscriptions : List String
  pub registered : Bool
  pub in_flight_task : Option InFlightTask
  pub sent : List (List ℕ)
  pub readings : ℕ

abbrev pub Action : Type 0 → Type 0
Action A = World → Result IoError A × World

abbrev pub continue :
    {A B : Type 0} → (A → Action B) → Result IoError A × World → Result IoError B × World
continue f (ok a, w) = f a w
continue f (err e, w) = (err e, w)

infixl 5 ◌>>=◌ ◌>>◌
abbrev pub ◌>>=◌ : {A B : Type 0} → Action A → (A → Action B) → Action B
◌>>=◌ m f w = continue f (m w)

abbrev pub ◌>>◌ : {A B : Type 0} → Action A → Action B → Action B
m >> n = m >>= λ _. n

abbrev pub return : {A : Type 0} → A → Action A
return a w = (ok a, w)

abbrev pub done : Action Unit
done w = (ok tt, w)

abbrev pub throw : {A : Type 0} → IoError → Action A
throw e w = (err e, w)

abbrev pub get_world : Action World
get_world w = (ok w, w)

abbrev pub modify : (World → World) → Action Unit
modify f w = (ok tt, f w)

-- `let _ = …`
abbrev pub forget : {A : Type 0} → Result IoError A × World → Result IoError (Unit {0}) × World
forget (r, w) = (ok tt, w)

abbrev pub attempt : {A : Type 0} → Action A → Action Unit
attempt m w = forget (m w)

abbrev pub with_db : World → Db → World
with_db w db = record w { state = record w.state { db = db } }

module _ (env : Outside) where
  unfoldable pub unix_now : Action ℕ
  unix_now w = (ok (env.clock w.readings), record w { readings = w.readings + 1 })

abbrev pub store_result : {A : Type 0} → World → Result DbError A × Db → Result IoError A × World
store_result w (ok a, db) = (ok a, with_db w db)
store_result w (err e, db) = (err (other e), with_db w db)

-- `state.db.….map_err(to_io_error)`
unfoldable pub store : {A : Type 0} → (Db → Result DbError A × Db) → Action A
store run w = store_result w (run w.state.db)
