-- ===== src/Server/Config/Starting.antt =====
-- apps/command-server/src/main.rs, config.rs and auth.rs: whom a server admits that has just started.
use ruchat.Prelude.{
  ℕ, String, ◌≡◌, refl, sym, ap, ◌∙◌, false, ◌&&◌, Bool-cases, inl, inr, ◌⊎◌, Option, none, some,
  [], str_eq, eq_iff, is_none,
}
use ruchat.Prelude.Maps.{Map, lookup}
use ruchat.Prelude.Result.{Result, ok, err, Result-cases}
use ruchat.Db.Rows.{Db}
use ruchat.Db.Tasks.{is_empty}
use ruchat.Server.Auth.{new_auth, or_else, check_token, verify_node_token}
use ruchat.Server.AppState.{AppState, has_valid_admin_session, check_admin_session}
use ruchat.Server.Config.{Environment, read_node_tokens, from_env, start, new_state, var_or}

nobody_in :
    (now : ℕ) (state : AppState)
    → state.admin_sessions ≡ []
    → (cookie : Option String) → (has_valid_admin_session now cookie state).0 ≡ false
unfolding has_valid_admin_session check_admin_session lookup
nobody_in now state nobody none = refl
nobody_in now state nobody (some token) = rw nobody refl

module _ (from_str : String → Result String (Map String)) (open_db : String → Result String Db)
    (var : Environment) where
  -- The token of a node that the environment names: its own one, or the shared one if it has none.
  pub record Named (node_id token : String) : Type 0 where
    pub tokens : Map String
    pub read : read_node_tokens from_str (var "RU_SERVER_NODE_TOKENS_JSON") ≡ ok tokens
    pub own :
        (lookup node_id tokens ≡ some token)
        ⊎ ((lookup node_id tokens ≡ none) × (var "RU_SERVER_SHARED_TOKEN" ≡ some token))

  -- How a start that succeeds goes.
  record Started (state : AppState) : Type 0 where
    tokens : Map String
    read : read_node_tokens from_str (var "RU_SERVER_NODE_TOKENS_JSON") ≡ ok tokens
    auth : state.auth ≡ record { shared_token = var "RU_SERVER_SHARED_TOKEN"; node_tokens = tokens }
    nobody : state.admin_sessions ≡ []

  Started-new :
      (tokens : Map String) (state made : AppState)
      → read_node_tokens from_str (var "RU_SERVER_NODE_TOKENS_JSON") ≡ ok tokens
      → made.auth ≡ record { shared_token = var "RU_SERVER_SHARED_TOKEN"; node_tokens = tokens }
      → made.admin_sessions ≡ []
      → ◌≡◌ {A = Result String AppState} (ok made) (ok state)
      → Started state
  Started-new tokens state made read auth nobody e =
      let same : made ≡ state = cc in
      record {
        tokens = tokens;
        read = read;
        auth = ap (λ s. s.auth) (sym same) ∙ auth;
        nobody = ap (λ s. s.admin_sessions) (sym same) ∙ nobody;
      }

  failed :
      {text : String} {state : AppState}
      → ◌≡◌ {A = Result String AppState} (err text) (ok state)
      → ⊥
  failed e = cc

  start-Started : (state : AppState) → start from_str open_db var ≡ ok state → Started state
  unfolding start from_env new_auth new_state
  start-Started state e =
      elim (Result-cases (read_node_tokens from_str (var "RU_SERVER_NODE_TOKENS_JSON"))) [
        | inl (tokens, read) ↦
            elim (Bool-cases (is_none (var "RU_SERVER_SHARED_TOKEN") && is_empty tokens)) [
              | inl t ↦ absurd (failed (rw (read, t) at e))
              | inr t ↦
                  elim (Result-cases
                    (open_db (var_or "command-plane.db" (var "RU_SERVER_DB_PATH")))) [
                      | inl (db, opened) ↦
                          Started-new tokens state _ read refl refl (rw (read, t, opened) at e)
                      | inr (text, opened) ↦ absurd (failed (rw (read, t, opened) at e))
                    ]
            ]
        | inr (text, read) ↦ absurd (failed (rw read at e))
      ]

  accepted :
      (token expected : String) → check_token token (some expected) ≡ ok tt → expected ≡ token
  unfolding check_token
  accepted token expected e = elim (Bool-cases (str_eq expected token)) [
    | inl t ↦ (eq_iff expected token).0 t
    | inr t ↦ absurd (never (rw t at e))
  ]
    where
      never : ◌≡◌ {A = Result String (Unit {0})} (err "invalid node token") (ok tt) → ⊥
      never p = cc

  admitted :
      (token : String) (own shared : Option String)
      → check_token token (or_else own shared) ≡ ok tt
      → (own ≡ some token) ⊎ ((own ≡ none) × (shared ≡ some token))
  admitted token none none e = absurd (unfold check_token in never e)
    where
      never : ◌≡◌ {A = Result String (Unit {0})} (err "server auth is not configured") (ok tt) → ⊥
      never p = cc
  admitted token none (some expected) e = inr (refl, ap (λ t. some t) (accepted token expected e))
  admitted token (some expected) shared e = inl (ap (λ t. some t) (accepted token expected e))

  -- A server that starts admits a node only with the token that the environment names for it, its own
  -- one or else the shared one, and nobody as the administrator before a login.
  pub start_admits :
      (state : AppState) (node_id token : String)
      → start from_str open_db var ≡ ok state
      → verify_node_token state.auth node_id token ≡ ok tt
      → Named node_id token
        × ((now : ℕ) (cookie : Option String)
            → (has_valid_admin_session now cookie state).0 ≡ false)
  unfolding verify_node_token
  start_admits state node_id token started admits =
      let s = start-Started state started in
      (
        record {
          tokens = s.tokens;
          read = s.read;
          own =
              admitted token (lookup node_id s.tokens) (var "RU_SERVER_SHARED_TOKEN")
                (rw s.auth at admits);
        },
        λ now cookie. nobody_in now state s.nobody cookie,
      )
