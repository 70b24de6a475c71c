-- ===== src/Session/Handshake.antt =====
-- apps/command-server/src/session.rs and auth.rs: who gets a session.
use ruchat.Prelude.{
  ℕ, String, arith, ap, ◌↔◌, eq_refl, ◌≡◌, refl, str_eq, eq_iff, Option, none, some, List,
  Bool-cases, inl, inr,
}
use ruchat.Prelude.Maps.{lookup}
use ruchat.Prelude.Result.{Result, ok, err}
use ruchat.Protocol.Wire.{FrameBody, PbMqttFrame, PbMqttConnect}
use ruchat.Protocol.Domain.{SessionEventKind}
use ruchat.Session.Frames.{send_mqtt_frame}
use ruchat.Session.Publish.{record_event}
use ruchat.Server.Auth.{AuthConfig, or_else, check_token, verify_node_token}
use ruchat.Session.World.{Outside, World}
use ruchat.Session.Socket.{
  FirstFrame, Received, go_on, connect_of, receive_connect, refuse, admit, check_connect,
  open_session,
}

-- The token that a node must present: its own, or else the shared one.
abbrev pub IsExpected : AuthConfig → String → String → Type 0
IsExpected auth node_id token =
    or_else (lookup node_id auth.node_tokens) auth.shared_token ≡ some token

check_token_ok :
    (token : String) (expected : Option String)
    → check_token token expected ≡ ok tt
    → expected ≡ some token
unfolding check_token
check_token_ok token none h = cc
check_token_ok token (some e) h = elim (Bool-cases (str_eq e token)) [
  | inl t ↦ ap some ((eq_iff e token).0 t)
  | inr t ↦ ground arith
]

-- A node's token is verified exactly if it is the expected one.
pub verify_node_token_exact :
    (auth : AuthConfig) (node_id token : String)
    → (verify_node_token auth node_id token ≡ ok tt) ↔ IsExpected auth node_id token
unfolding verify_node_token
verify_node_token_exact auth node_id token =
    (check_token_ok token _, λ e. rw e (unfold check_token in rw (eq_refl token) refl))

module _ (env : Outside) where
  -- The first frame is a binary message that decodes to a connect frame.
  abbrev pub Connects : FirstFrame → PbMqttConnect → Type 0
  Connects first connect =
      (bytes : List ℕ) × (first ≡ FirstFrame.received (Received.binary bytes))
      × (env.prost.frame.decode bytes ≡ ok (record { body = some (FrameBody.connect connect) }))

  connect_of_ok :
      (decoded : Result String PbMqttFrame) (connect : PbMqttConnect)
      → connect_of env decoded ≡ ok connect
      → decoded ≡ ok (record { body = some (FrameBody.connect connect) })
  unfolding connect_of
  connect_of_ok (err e) connect h = cc
  connect_of_ok (ok frame) connect h = ground arith

  receive_connect_ok :
      (first : FirstFrame) (connect : PbMqttConnect)
      → receive_connect env first ≡ ok connect
      → Connects first connect
  unfolding receive_connect
  receive_connect_ok (FirstFrame.received (Received.binary bytes)) connect h =
      (bytes, refl, connect_of_ok _ connect h)
  receive_connect_ok (FirstFrame.received _) connect h = cc
  receive_connect_ok _ connect h = cc

  refuse_leaves :
      (node_id : String) (kind : SessionEventKind) (reason : String) (w : World)
      → ¬ ((refuse env node_id kind reason w).0 ≡ ok go_on)
  unfolding refuse record_event send_mqtt_frame
  refuse_leaves node_id kind reason w h = cc

  admit_ok :
      (node_id : String) (channel : ℕ) (verified : Result String (Unit {0})) (w : World)
      → (admit env node_id channel verified w).0 ≡ ok go_on
      → verified ≡ ok tt
  unfolding admit
  admit_ok node_id channel (ok tt) w h = refl
  admit_ok node_id channel (err reason) w h = absurd (refuse_leaves node_id _ reason w h)

  check_connect_ok :
      (node_id : String) (channel : ℕ) (received : Result String PbMqttConnect) (w : World)
      → (check_connect env node_id channel received w).0 ≡ ok go_on
      → (connect : PbMqttConnect) × (received ≡ ok connect)
        × (connect.client_id ≡ node_id)
        × (verify_node_token w.state.auth node_id connect.auth_token ≡ ok tt)
  unfolding check_connect
  check_connect_ok node_id channel (err error) w h = absurd (refuse_leaves node_id _ error w h)
  check_connect_ok node_id channel (ok connect) w h =
      elim (Bool-cases (str_eq connect.client_id node_id)) [
        | inl e ↦ (
          connect,
          refl,
          (eq_iff connect.client_id node_id).0 e,
          admit_ok node_id channel _ w (rw e at h),
        )
        | inr e ↦ absurd (refuse_leaves node_id _ _ w (rw e at h))
      ]

  -- A session is opened only for a node whose first frame is a connect frame that names the node of
  -- the path and carries the expected token: the node's own, or else the shared one.
  pub open_session_admits :
      (node_id : String) (channel : ℕ) (first : FirstFrame) (w : World)
      → (open_session env node_id channel first w).0 ≡ ok go_on
      → (connect : PbMqttConnect) × Connects first connect
        × (connect.client_id ≡ node_id)
        × IsExpected w.state.auth node_id connect.auth_token
  unfolding open_session
  open_session_admits node_id channel first w h =
      let (connect, received, same, verified) = check_connect_ok node_id channel _ w h in
      (
        connect,
        receive_connect_ok first connect received,
        same,
        (verify_node_token_exact w.state.auth node_id connect.auth_token).0 verified,
      )
