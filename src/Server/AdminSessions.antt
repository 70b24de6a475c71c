-- ===== src/Server/AdminSessions.antt =====
-- apps/command-server/src/app_state.rs: how long an admin session is valid.
use ruchat.Prelude.{
  ℕ, ◌-◌, String, ◌≡◌, refl, false, not, Bool-cases, inl, inr, none, some, [], ◌∷◌, arith, ltb,
  eq_refl,
}
use ruchat.Prelude.Maps.{Map, lookup, insert, remove}
use ruchat.Server.AppState.{
  AppState, insert_admin_session, remove_admin_session, check_admin_session,
  has_valid_admin_session,
}

module _ {A : Type 0} where
  lookup-insert :
      (key : String) (value : A) (map : Map A) → lookup key (insert key value map) ≡ some value
  unfolding lookup insert
  lookup-insert key value [] = ground (arith, eq_refl key)
  lookup-insert key value ((k, a) ∷ entries) =
      ground (arith, lookup-insert key value entries, eq_refl key)

  lookup-remove : (key : String) (map : Map A) → lookup key (remove key map) ≡ none
  unfolding lookup remove
  lookup-remove key [] = refl
  lookup-remove key ((k, a) ∷ entries) = ground (arith, lookup-remove key entries)

-- A session that was created at some time is valid at any later check, and only there, as long as its
-- time to live has not passed; the check drops it otherwise, and then, as after a logout, it is valid at
-- no time.
pub admin_session_lifetime :
    (created checked later : ℕ) (token : String) (state : AppState)
    → let opened = insert_admin_session created token state in
      let out = has_valid_admin_session checked (some token) opened in
      (out.0 ≡ not (ltb state.admin_session_ttl_secs (checked - created)))
      × (out.0 ≡ false → (has_valid_admin_session later (some token) out.1).0 ≡ false)
      × ((has_valid_admin_session later (some token) (remove_admin_session token opened)).0 ≡ false)
unfolding insert_admin_session remove_admin_session has_valid_admin_session check_admin_session
admin_session_lifetime created checked later token state =
    let present = lookup-insert token created state.admin_sessions in
    let gone = lookup-remove token (insert token created state.admin_sessions) in
    (
      rw present (ground arith),
      elim (Bool-cases (ltb state.admin_session_ttl_secs (checked - created))) [
        | inl old ↦ rw present (rw old (λ e. rw gone refl))
        | inr fresh ↦ rw present (rw fresh (λ e. absurd (grind arith)))
      ],
      rw gone refl,
    )
