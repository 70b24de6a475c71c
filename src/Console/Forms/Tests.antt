-- ===== src/Console/Forms/Tests.antt =====
-- The theorems on the forms of the console at a task that the administrator cancels.
use ruchat.Prelude.Lists.{select}
use ruchat.Prelude.{String, ◌≡◌, refl, arith, true, false, Option, none, some, [], ◌∷◌}
use ruchat.Prelude.Text.{trim, trim_start, trim_end, split, lines, parse_u64, parse_digits}
use ruchat.Session.Frames.{decimal}
use ruchat.Samples.JsonSample.{sample_json}
use ruchat.Db.Ops.{empty_db}
use ruchat.Server.AppState.{AppState, has_valid_admin_session}
use ruchat.Server.Cookies.{extract_admin_session_token}
use ruchat.Server.Api.Guard.{SameButAdmins, run_op}
use ruchat.Console.Forms.{TaskForm, FormResponse, parse_args_text, parse_timeout, default_return_to}
use ruchat.Console.Forms.Numbers.{parse_timeout-decimal}
use ruchat.Console.Forms.Guard.{Form, submit, form_op, submit_guarded}

abbrev server : AppState
server = record {
  db = empty_db;
  heartbeat_interval_secs = 30;
  auth = record { shared_token = some "secret"; node_tokens = [] };
  admin_username = "admin";
  admin_password = "pw";
  admin_session_ttl_secs = 3600;
  admin_sessions = ("t", 100) ∷ [];
  admin_session_counter = 2;
  public_ws_base = none;
  sessions = ("n", 4) ∷ [];
  sent_signals = [];
}

abbrev form : TaskForm
form = record {
  node_id = "n";
  command_name = "echo";
  args_text = " a \n\n b c\r\nd";
  timeout_secs = " 30 ";
  return_to = "https://elsewhere/";
}

reads_args : parse_args_text form.args_text ≡ "a" ∷ "b c" ∷ "d" ∷ []
unfolding parse_args_text lines trim trim_start trim_end split select
reads_args = refl

reads_timeout : parse_timeout form.timeout_secs ≡ some (some 30)
unfolding parse_timeout trim trim_start trim_end parse_u64 parse_digits
reads_timeout = refl

stays : default_return_to form.return_to "/console/tasks" ≡ "/console/tasks"
unfolding default_return_to trim trim_start trim_end
stays = refl

abbrev cookies : Option String
cookies = some "a=b; ru_admin_session=t"

submit_guarded_example :
    let checked = has_valid_admin_session 200 (extract_admin_session_token cookies) server in
    let out = submit sample_json 200 201 cookies (Form.create_form form) server in
    (checked.0 ≡ false
      → (out.0 ≡ FormResponse.redirect_to "/console/login") × SameButAdmins server out.1)
    × (checked.0 ≡ true
        → out.1.db ≡ run_op sample_json (form_op 201 (Form.create_form form) server) server.db)
submit_guarded_example = submit_guarded sample_json 200 201 cookies server (Form.create_form form)

parse_timeout-decimal_example : parse_timeout (decimal 86400) ≡ some (some 86400)
parse_timeout-decimal_example = parse_timeout-decimal 86400 (omega arith)
