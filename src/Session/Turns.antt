-- ===== src/Session/Turns.antt =====
-- A session turn by turn: a registered session has at most one task in progress on its node, the one
-- that it tracks, whatever frames, signals and ticks it handles, and whatever the rest of the server
-- does between two turns.
use ruchat.Prelude.{ℕ, String, str_eq, Option, none, some, List}
use ruchat.Prelude.Maps.{contains}
use ruchat.Prelude.Result.{Result, ok, err}
use ruchat.Protocol.Topic.{node_hello_topic, node_control_topic, node_ack_topic, node_result_topic}
use ruchat.Protocol.Wire.{
  PayloadBody, FrameBody, PbMqttFrame, PbMqttSubscribe, PbNodePayloadEnvelope,
}
use ruchat.Server.AppState.{SessionSignal}
use ruchat.Session.World.{Outside, World, Action, return, ◌>>◌}
use ruchat.Session.Frames.{publish_session_info}
use ruchat.Session.Publish.{
  by_topic, decoded_payload, handle_publish, add_topics, answer_subscribe, accept_subscribe,
  handle_body, decoded_frame, handle_binary_message,
}
use ruchat.Session.Socket.{
  Event, Received, Turn, go_on, handle_tick, handle_received, handle_event, pong_result,
}
use ruchat.Session.Ensures.{Succeeds, Ensures, bind-Ensures, if-Ensures}
use ruchat.Session.Single.{send-IsTracked, now-IsTracked, try_dispatch-IsTracked}
use ruchat.Session.Tracking.{
  Tracked, Stopped, done-IsTracked, timeout-IsTracked, cancel_signal-IsTracked,
}
use ruchat.Session.Inflight.{
  Kept, hello_topic-Kept, control_topic-Kept, ack_topic-Kept, result_topic-Kept,
}

module _ (env : Outside) (node_id : String) where
  topic-Kept :
      (topic : String) (body : Option PayloadBody)
      → Kept env node_id (by_topic env node_id topic body)
  unfolding by_topic
  topic-Kept topic body =
      if-Ensures (str_eq topic (node_hello_topic node_id)) (hello_topic-Kept env node_id body) (
        if-Ensures (str_eq topic (node_control_topic node_id)) (control_topic-Kept env node_id body)
          (if-Ensures (str_eq topic (node_ack_topic node_id)) (ack_topic-Kept env node_id body) (
            if-Ensures (str_eq topic (node_result_topic node_id))
              (result_topic-Kept env node_id body) (done-IsTracked env node_id))))

  payload-Kept :
      (topic : String) (decoded : Result String PbNodePayloadEnvelope)
      → Kept env node_id (decoded_payload env node_id topic decoded)
  unfolding decoded_payload
  payload-Kept topic (err text) = record { run = λ w h. tt }
  payload-Kept topic (ok payload) = topic-Kept topic payload.body

  session_info-Kept : (interval : ℕ) → Kept env node_id (publish_session_info env node_id interval)
  unfolding publish_session_info
  session_info-Kept interval =
      bind-Ensures (λ _. Tracked env node_id) (now-IsTracked env node_id)
        λ opened.
          bind-Ensures (λ _. Tracked env node_id) (now-IsTracked env node_id)
            λ now. send-IsTracked env node_id _

  answer_subscribe-Kept : (w : World) → Kept env node_id (answer_subscribe env node_id w)
  unfolding answer_subscribe
  answer_subscribe-Kept w =
      bind-Ensures (λ _. Tracked env node_id) (send-IsTracked env node_id _)
        λ _.
          bind-Ensures (λ _. Tracked env node_id)
            (if-Ensures (contains (node_control_topic node_id) w.subscriptions)
              (session_info-Kept _) (done-IsTracked env node_id))
            λ _. try_dispatch-IsTracked env node_id

  subscribe-Kept :
      (subscribe : PbMqttSubscribe) → Kept env node_id (accept_subscribe env node_id subscribe)
  unfolding accept_subscribe add_topics
  subscribe-Kept subscribe = record {
    run = λ w h.
        (answer_subscribe-Kept (add_topics subscribe.topics w)).run (add_topics subscribe.topics w)
          (record { sound = h.sound; held = h.held });
  }

  body-Kept : (body : Option FrameBody) → Kept env node_id (handle_body env node_id body)
  unfolding handle_body handle_publish
  body-Kept (some (FrameBody.subscribe subscribe)) = subscribe-Kept subscribe
  body-Kept (some (FrameBody.publish publish)) = payload-Kept publish.topic _
  body-Kept (some (FrameBody.ping_req request)) = send-IsTracked env node_id _
  body-Kept _ = done-IsTracked env node_id

  frame-Kept :
      (decoded : Result String PbMqttFrame) → Kept env node_id (decoded_frame env node_id decoded)
  unfolding decoded_frame
  frame-Kept (err text) = record { run = λ w h. tt }
  frame-Kept (ok frame) = body-Kept frame.body

  then_go_on :
      {P : World → Type 0} {m : Action Unit}
      → Ensures P m (λ _. Tracked env node_id)
      → Ensures P (m >> return go_on) (λ _. Tracked env node_id)
  then_go_on h = bind-Ensures (λ _. Tracked env node_id) h (λ _. record { run = λ w k. k })

  tick-Kept : Kept env node_id (handle_tick env node_id)
  unfolding handle_tick
  tick-Kept =
      bind-Ensures (λ _. Tracked env node_id) (timeout-IsTracked env node_id)
        λ _.
          bind-Ensures (λ _. Tracked env node_id) (now-IsTracked env node_id)
            λ now. send-IsTracked env node_id _

  -- What a cancel signal is sent for: the task is not in progress.
  abbrev pub IsTimely : Event → World → Type 0
  IsTimely (Event.signal (SessionSignal.cancel_task task_id reason)) w =
      Stopped env node_id task_id w
  IsTimely _ w = Unit

  module _ (pong_link : List ℕ → Option String) where
    received-Kept :
        (item : Received) → Kept env node_id (handle_received env pong_link node_id item)
    unfolding handle_received handle_binary_message
    received-Kept (Received.binary bytes) = record {
      run = λ w h. (then_go_on (frame-Kept (env.prost.frame.decode bytes))).run w h;
    }
    received-Kept (Received.ping payload) = record {
      run = λ w h. pong_or_not w h (pong_link payload);
    }
      where
        pong_or_not :
            (w : World)
            → Tracked env node_id w
            → (answer : Option String)
            → Succeeds {A = Turn} (λ _. Tracked env node_id) (pong_result w answer)
        pong_or_not w h none = h
        pong_or_not w h (some error) = tt
    received-Kept Received.pong = record { run = λ w h. h }
    received-Kept _ = record { run = λ w h. h }

    pub event-IsTracked :
        (event : Event)
        → Ensures
            (λ w. Tracked env node_id w × IsTimely event w)
            (handle_event env pong_link node_id event)
            (λ _. Tracked env node_id)
    unfolding handle_event
    event-IsTracked Event.tick = record { run = λ w h. (then_go_on tick-Kept).run w h.0 }
    event-IsTracked (Event.signal SessionSignal.try_dispatch) = record {
      run = λ w h. (then_go_on (try_dispatch-IsTracked env node_id)).run w h.0;
    }
    event-IsTracked (Event.signal (SessionSignal.cancel_task task_id reason)) =
        then_go_on (cancel_signal-IsTracked env node_id task_id reason)
    event-IsTracked (Event.message item) = record { run = λ w h. (received-Kept item).run w h.0 }
    event-IsTracked Event.no_sender = record { run = λ w h. h.0 }
    event-IsTracked Event.ended = record { run = λ w h. h.0 }
