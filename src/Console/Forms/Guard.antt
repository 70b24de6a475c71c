-- ===== src/Console/Forms/Guard.antt =====
-- apps/command-server/src/console.rs: what a form may change, and where it leads.
use Prim.Native.String.{String}
use text.Mathlib.TextBridge.{IsPrefix}
use ruchat.Prelude.{ℕ, ◌≡◌, refl, Bool, true, false, Option, none, some, arith}
use ruchat.Prelude.Result.{Result, ok, err}
use ruchat.Protocol.Codec.{Json}
use ruchat.Db.Rows.{TaskAudit, DbError, CreateTaskOutcome, CancelTaskOutcome}
use ruchat.Db.Tasks.{create_task, cancel_task}
use ruchat.Db.Ops.{Op}
use ruchat.Server.AppState.{AppState, has_valid_admin_session, notify_node, notify_task_cancel}
use ruchat.Server.Api.Handlers.{with_store}
use ruchat.Server.Cookies.{extract_admin_session_token}
use ruchat.Server.Api.Guard.{SameButAdmins, session-SameButAdmins, valid_same, send-db, run_op}
use ruchat.Console.Forms.{
  TaskForm, CancelTaskForm, FormResponse, parse_timeout, console_audit, request_of, after_session,
  require_console_session, create_task_answer, cancel_task_answer, create_with, cancel_with,
  create_task_submit, cancel_task_submit,
}

-- The two forms.
pub data Form : Type 0 where
  create_form : TaskForm → Form
  cancel_form : ℕ → CancelTaskForm → Form

abbrev pub submit : Json → ℕ → ℕ → Option String → Form → AppState → FormResponse × AppState
submit json checked_at now headers (Form.create_form form) state =
    create_task_submit json checked_at now headers form state
submit json checked_at now headers (Form.cancel_form task_id form) state =
    cancel_task_submit json checked_at now headers task_id form state

-- The administrator of the state, at the console.
abbrev by_admin : AppState → TaskAudit
by_admin state = record { source = "console"; actor = some state.admin_username }

abbrev create_op : ℕ → TaskForm → AppState → Option (Option ℕ) → Option Op
create_op now form state none = none
create_op now form state (some timeout) =
    some (Op.create now (request_of form timeout) (by_admin state))

-- The operation of the store that a form stands for; none for a timeout that is no number.
abbrev pub form_op : ℕ → Form → AppState → Option Op
form_op now (Form.create_form form) state =
    create_op now form state (parse_timeout form.timeout_secs)
form_op now (Form.cancel_form task_id form) state =
    some (Op.cancel now task_id (some "canceled from console") (by_admin state))

create_answer-db :
    (form : TaskForm) (state : AppState) (outcome : Result DbError CreateTaskOutcome)
    → (create_task_answer form state outcome).1.db ≡ state.db
unfolding create_task_answer notify_node
create_answer-db form state (err e) = refl
create_answer-db form state (ok CreateTaskOutcome.node_not_found) = refl
create_answer-db form state (ok CreateTaskOutcome.unsupported_command) = refl
create_answer-db form state (ok CreateTaskOutcome.extra_args_not_allowed) = refl
create_answer-db form state (ok (CreateTaskOutcome.created task)) = send-db _ state _

cancel_answer-db :
    (form : CancelTaskForm) (state : AppState) (outcome : Result DbError CancelTaskOutcome)
    → (cancel_task_answer form state outcome).1.db ≡ state.db
unfolding cancel_task_answer notify_task_cancel
cancel_answer-db form state (err e) = refl
cancel_answer-db form state (ok CancelTaskOutcome.not_found) = refl
cancel_answer-db form state (ok CancelTaskOutcome.not_cancelable) = refl
cancel_answer-db form state (ok (CancelTaskOutcome.canceled task)) = send-db _ state _

create_with-db :
    (json : Json) (now : ℕ) (form : TaskForm) (state : AppState) (timeout : Option (Option ℕ))
    → (create_with json now form timeout state).1.db
      ≡ run_op json (create_op now form state timeout) state.db
unfolding create_with
create_with-db json now form state none = refl
create_with-db json now form state (some timeout) =
    let out = create_task json now (request_of form timeout) (console_audit state) state.db in
    create_answer-db form (with_store state out.1) out.0

cancel_with-db :
    (json : Json) (now task_id : ℕ) (form : CancelTaskForm) (state : AppState)
    → (cancel_with json now task_id form state).1.db
      ≡ run_op json (form_op now (Form.cancel_form task_id form) state) state.db
unfolding cancel_with
cancel_with-db json now task_id form state =
    let out =
      cancel_task json now task_id (some "canceled from console") (console_audit state) state.db in
    cancel_answer-db form (with_store state out.1) out.0

after_refused :
    (handler : AppState → FormResponse × AppState) (checked : Bool × AppState)
    → checked.0 ≡ false
    → after_session handler checked ≡ (FormResponse.redirect_to "/console/login", checked.1)
after_refused handler (true, state) e = absurd (grind arith)
after_refused handler (false, state) e = refl

module _ (json : Json) (checked_at now : ℕ) (headers : Option String) (state : AppState) where
  refuses :
      (handler : AppState → FormResponse × AppState)
      → let checked =
          has_valid_admin_session checked_at (extract_admin_session_token headers) state in
        checked.0 ≡ false
        → let out = require_console_session checked_at headers handler state in
          (out.0 ≡ FormResponse.redirect_to "/console/login") × SameButAdmins state out.1
  unfolding require_console_session
  refuses handler invalid =
      let token = extract_admin_session_token headers in
      rw (after_refused handler (has_valid_admin_session checked_at token state) invalid)
        (refl, session-SameButAdmins checked_at token state)

  admits :
      (has_valid_admin_session checked_at (extract_admin_session_token headers) state).0 ≡ true
      → has_valid_admin_session checked_at (extract_admin_session_token headers) state
        ≡ (true, state)
  admits = valid_same checked_at (extract_admin_session_token headers) state

  -- Without a valid admin session a form leads to the login page, and neither the store, nor the
  -- sessions of nodes, nor the signals to them change; with one, the store is what the operation that
  -- the form stands for makes of it.
  pub submit_guarded :
      (form : Form)
      → let checked =
          has_valid_admin_session checked_at (extract_admin_session_token headers) state in
        let out = submit json checked_at now headers form state in
        (checked.0 ≡ false
          → (out.0 ≡ FormResponse.redirect_to "/console/login") × SameButAdmins state out.1)
        × (checked.0 ≡ true → out.1.db ≡ run_op json (form_op now form state) state.db)
  unfolding create_task_submit cancel_task_submit require_console_session
  submit_guarded (Form.create_form form) = (
    refuses (create_with json now form (parse_timeout form.timeout_secs)),
    λ yes. rw (admits yes) (create_with-db json now form state (parse_timeout form.timeout_secs)),
  )
  submit_guarded (Form.cancel_form task_id form) = (
    refuses (cancel_with json now task_id form),
    λ yes. rw (admits yes) (cancel_with-db json now task_id form state),
  )

abbrev pub Inside : String → Type 0
Inside target = IsPrefix "/console/" target

-- The target of a redirect stands under `/console/`.
abbrev pub Leads : FormResponse → Type 0
Leads (FormResponse.redirect_to target) = Inside target
Leads _ = Unit
