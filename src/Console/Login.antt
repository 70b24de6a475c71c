-- ===== src/Console/Login.antt =====
-- apps/command-server/src/console.rs: the login and the logout.
use Prim.Native.String.{◌++◌ as str_append}
use text.Mathlib.TextLemmas.{append_assoc}
use ruchat.Prelude.{
  ℕ, ◌-◌, String, ◌≡◌, refl, ap, ◌∙◌, true, false, not, ltb, Option, none, some, if◌then◌else◌,
}
use ruchat.Session.Frames.{decimal}
use ruchat.Server.Cookies.{extract_admin_session_token}
use ruchat.Server.Cookies.Tokens.{kept_cookie, kept_cookie-token}
use ruchat.Server.AppState.{
  new_admin_token, AppState, verify_admin_credentials, create_admin_session, remove_admin_session,
  has_valid_admin_session,
}
use ruchat.Server.AdminSessions.{admin_session_lifetime}

unfoldable pub build_session_cookie : String → ℕ → String
build_session_cookie token ttl_secs =
    str_append "ru_admin_session=" (
      str_append token (str_append "; HttpOnly; Path=/; SameSite=Lax; Max-Age=" (decimal ttl_secs)))

-- What the two answer: the login page with its error, or a redirect that sets a cookie.
pub data LoginResponse : Type 0 where
  login_page : String → LoginResponse
  redirect : String → String → LoginResponse

-- `named_at` and `now` are the readings of the clock for the token and for its entry.
unfoldable pub login_submit : ℕ → ℕ → String → String → AppState → LoginResponse × AppState
login_submit named_at now username password state =
    let created = create_admin_session named_at now state in
    if verify_admin_credentials username password state
    then (
      LoginResponse.redirect "/console/nodes"
          (build_session_cookie created.0 state.admin_session_ttl_secs),
      created.1,
    )
    else (LoginResponse.login_page "invalid username or password", state)

-- `token` is the cookie of the request.
unfoldable pub logout : Option String → AppState → LoginResponse × AppState
logout none state = (
  LoginResponse.redirect "/console/login"
      "ru_admin_session=deleted; HttpOnly; Path=/; SameSite=Lax; Max-Age=0",
  state,
)
logout (some token) state = (
  LoginResponse.redirect "/console/login"
      "ru_admin_session=deleted; HttpOnly; Path=/; SameSite=Lax; Max-Age=0",
  remove_admin_session token state,
)

-- What the browser sends as its cookie after an answer.
abbrev pub cookie_after : LoginResponse → Option String
cookie_after (LoginResponse.login_page error) = none
cookie_after (LoginResponse.redirect target set_cookie) = some (kept_cookie set_cookie)

abbrev pub leads_to : LoginResponse → Option String
leads_to (LoginResponse.login_page error) = none
leads_to (LoginResponse.redirect target set_cookie) = some target

-- The token that the server reads after a login.
cookie_of_login :
    (now counter ttl : ℕ)
    → extract_admin_session_token
        (some (kept_cookie (build_session_cookie (new_admin_token now counter) ttl)))
      ≡ some (new_admin_token now counter)
unfolding build_session_cookie
cookie_of_login now counter ttl =
    let token = new_admin_token now counter in
    let attributes : String = " HttpOnly; Path=/; SameSite=Lax; Max-Age=" in
    ap
      (λ rest.
        extract_admin_session_token
          (some (kept_cookie (str_append "ru_admin_session=" (str_append token rest)))))
      (append_assoc ";" attributes (decimal ttl))
    ∙ kept_cookie-token now counter (str_append attributes (decimal ttl))

-- After a login with the right name and password, which leads to the nodes, the cookie that the browser
-- then sends admits its bearer as long as the time to live has not passed, and no longer, and after a
-- logout with it not at all; any other login changes nothing and sets no cookie.
pub login_submit_lem :
    (named_at now checked later : ℕ) (username password : String) (state : AppState)
    → let out = login_submit named_at now username password state in
      let token = extract_admin_session_token (cookie_after out.0) in
      (verify_admin_credentials username password state ≡ true
        → (leads_to out.0 ≡ some "/console/nodes")
          × ((has_valid_admin_session checked token out.1).0
              ≡ not (ltb state.admin_session_ttl_secs (checked - now)))
          × ((has_valid_admin_session later token (logout token out.1).1).0 ≡ false))
      × (verify_admin_credentials username password state ≡ false
          → out ≡ (LoginResponse.login_page "invalid username or password", state))
unfolding login_submit create_admin_session logout
login_submit_lem named_at now checked later username password state =
    let life = admin_session_lifetime now checked later _ _ in
    let cookie =
      cookie_of_login named_at state.admin_session_counter state.admin_session_ttl_secs in
    ((λ e. rw e (rw cookie (refl, life.0, life.2))), λ e. rw e refl)
