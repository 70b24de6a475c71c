-- ===== src/Session/Tests.antt =====
-- The theorems of the session at one node that connects with the shared token while a task of an
-- earlier session is still in progress.
use ruchat.Prelude.{ℕ, String, ◌≡◌, refl, true, false, Option, none, some, List, [], ◌∷◌}
use ruchat.Prelude.Lists.{All}
use ruchat.Prelude.Maps.{lookup}
use ruchat.Prelude.Result.{ok}
use ruchat.Protocol.Domain.{NodeRegistration, CreateTaskRequest}
use ruchat.Protocol.Wire.{PbMqttConnect, PbMqttFrame, FrameBody}
use ruchat.Samples.JsonSample.{sample_json}
use ruchat.Samples.ProstSample.{sample_prost}
use ruchat.Db.Ops.{Op, empty_db, apply_ops}
use ruchat.Db.Sound.{IsSoundDb}
use ruchat.Db.Preserve.{apply_ops-IsSoundDb}
use ruchat.Server.Auth.{check_token, verify_node_token}
use ruchat.Server.AppState.{SessionSignal}
use ruchat.Session.World.{Outside, World}
use ruchat.Session.Frames.{send_mqtt_frame}
use ruchat.Session.Publish.{record_event}
use ruchat.Session.Socket.{
  Event, Step, FirstFrame, Received, go_on, turn, elsewhere, connect_of, receive_connect, accepted,
  admit, check_connect, open_session, handle_node_socket,
}
use ruchat.Session.Released.{Free, handle_node_socket-IsSoundDb, handle_node_socket_released}
use ruchat.Session.Handshake.{Connects, IsExpected, open_session_admits}

abbrev sample_env : Outside
sample_env = record {
  json = sample_json;
  prost = sample_prost;
  clock = λ n. 200;
  link = λ sent bytes. none;
}

abbrev pong_link : List ℕ → Option String
pong_link payload = none

abbrev registration : NodeRegistration
registration = record {
  node_id = "n";
  hostname = "h";
  platform = "linux";
  poll_interval_secs = 3;
  commands =
      record { name = "a"; description = ""; default_args = []; allow_extra_args = false } ∷ [];
}

abbrev request : CreateTaskRequest
request = record { node_id = "n"; command_name = "a"; args = []; timeout_secs = some 30 }

abbrev history : List Op
history =
    Op.register 90 registration
    ∷ Op.create 95 request (record { source = "api"; actor = none })
    ∷ Op.claim 100 "n"
    ∷ []

abbrev start : World
start = record {
  state = record {
    db = apply_ops sample_json history empty_db;
    heartbeat_interval_secs = 30;
    auth = record { shared_token = some "secret"; node_tokens = [] };
    admin_username = "admin";
    admin_password = "pw";
    admin_session_ttl_secs = 3600;
    admin_sessions = [];
    admin_session_counter = 1;
    public_ws_base = none;
    sessions = [];
    sent_signals = [];
  };
  subscriptions = [];
  registered = false;
  in_flight_task = none;
  sent = [];
  readings = 0;
}

abbrev connect : PbMqttConnect
connect = record { client_id = "n"; clean_session = true; auth_token = "secret" }

abbrev connect_frame : PbMqttFrame
connect_frame = record { body = some (FrameBody.connect connect) }

abbrev first : FirstFrame
first = FirstFrame.received (Received.binary (sample_prost.frame.encode connect_frame))

-- A tick, a request for a task before the hello, a cancel by another part, and the end.
abbrev steps : List Step
steps =
    turn Event.tick
    ∷ turn (Event.signal SessionSignal.try_dispatch)
    ∷ elsewhere (Op.cancel 210 1 none (record { source = "api"; actor = none }))
    ∷ turn Event.ended
    ∷ []

start-IsSoundDb : IsSoundDb sample_json start.state.db
start-IsSoundDb = apply_ops-IsSoundDb history

opened : (open_session sample_env "n" 7 first start).0 ≡ ok go_on
unfolding open_session receive_connect connect_of check_connect admit accepted verify_node_token
    check_token lookup send_mqtt_frame record_event
opened = rw (sample_prost.frame.decode-encode connect_frame) refl

handle_node_socket-IsSoundDb_example :
    IsSoundDb sample_json (handle_node_socket sample_env pong_link "n" 7 first steps start).state.db
handle_node_socket-IsSoundDb_example =
    handle_node_socket-IsSoundDb sample_env pong_link "n" 7 first steps start start-IsSoundDb

handle_node_socket_released_example :
    All (Free "n") (handle_node_socket sample_env pong_link "n" 7 first steps start).state.db.tasks
handle_node_socket_released_example =
    handle_node_socket_released sample_env pong_link "n" 7 first steps start start-IsSoundDb opened

open_session_admits_example :
    (c : PbMqttConnect) × Connects sample_env first c
    × (c.client_id ≡ "n")
    × IsExpected start.state.auth "n" c.auth_token
open_session_admits_example = open_session_admits sample_env "n" 7 first start opened
