-- ===== src/Console/Tests.antt =====
-- The theorems of the console at `a<b>'c'`, and at a login that the administrator makes.
use ruchat.Prelude.{ℕ, ◌-◌, ◌≡◌, true, false, not, ltb, none, some, List, [], ◌∷◌}
use ruchat.Prelude.Lists.{All}
use ruchat.Db.Ops.{empty_db}
use ruchat.Server.Cookies.{extract_admin_session_token}
use ruchat.Server.AppState.{AppState, verify_admin_credentials, has_valid_admin_session}
use ruchat.Console.Escape.{escape_html, escaped, is_markup, escape_html-escaped, escape_html-plain}
use ruchat.Console.Login.{
  cookie_after, leads_to, LoginResponse, login_submit, logout, login_submit_lem,
}

abbrev markup : List ℕ
markup = 97 ∷ 60 ∷ 98 ∷ 62 ∷ 39 ∷ 99 ∷ 39 ∷ []

escape_html-escaped_example : escape_html markup ≡ escaped markup
escape_html-escaped_example = escape_html-escaped markup

escape_html-plain_example : All (λ d. is_markup d ≡ false) (escape_html markup)
escape_html-plain_example = escape_html-plain markup

abbrev server : AppState
server = record {
  db = empty_db;
  heartbeat_interval_secs = 30;
  auth = record { shared_token = some "secret"; node_tokens = [] };
  admin_username = "admin";
  admin_password = "pw";
  admin_session_ttl_secs = 3600;
  admin_sessions = [];
  admin_session_counter = 1;
  public_ws_base = none;
  sessions = [];
  sent_signals = [];
}

login_submit_lem_example :
    let out = login_submit 100 101 "admin" "pw" server in
    let token = extract_admin_session_token (cookie_after out.0) in
    (verify_admin_credentials "admin" "pw" server ≡ true
      → (leads_to out.0 ≡ some "/console/nodes")
        × ((has_valid_admin_session 200 token out.1).0
            ≡ not (ltb server.admin_session_ttl_secs (200 - 101)))
        × ((has_valid_admin_session 300 token (logout token out.1).1).0 ≡ false))
    × (verify_admin_credentials "admin" "pw" server ≡ false
        → out ≡ (LoginResponse.login_page "invalid username or password", server))
login_submit_lem_example = login_submit_lem 100 101 200 300 "admin" "pw" server
