-- ===== src/Lib.antt =====
-- The control plane of a fleet of nodes: a server that keeps tasks in a SQLite store and hands them
-- out over a websocket, and the messages that it exchanges with the clients on the nodes.
--
-- How the parts interact. An HTTP handler creates or cancels a task in the store and signals the
-- session of the task's node. The session claims the oldest queued task of its node and sends it as
-- an assignment; the node acknowledges it and later sends the result, and both are written to the
-- store. A task that is in progress when the session ends, when the node registers again or when its
-- time is up goes back to the queue.
--
-- Which file models which part.
-- - Prelude: what the modules share: tests on numbers, lists with the SQL clauses as functions
--   (Lists), lemmas on them (Updates, Orders), maps with text keys (Maps), results (Result), the
--   methods of str (Text) and lemmas on trim (Trimming).
-- - Protocol: crates/command-protocol/src. Domain is domain.rs, Wire is pb.rs and mqtt.rs, Topic is
--   topic.rs, Conversions is conversions.rs. Codec states what is relied on from prost and
--   serde_json, which codec.rs and db.rs call.
-- - Db: apps/command-server/src/db.rs. Rows has the outcomes and the tables, Text the enums as column
--   texts, Read the row readers and the queries by key, Nodes, Tasks and Events the operations on the
--   three tables, Ops the type of all writing operations and apply_op, which runs one. Lifecycle,
--   Keys and Sound define a sound store; Effects says what an operation does in terms of its row;
--   Preserve, Transitions, Claim, Create, Submit and Reading have the theorems.
--   Listings is about the listing of a node's tasks, Held and Release say which tasks of a node are in
--   progress after an operation. Queue is the queue of a node as a list of ids, Fifo says what each
--   operation does to it, Served follows one task through it.
-- - Server: apps/command-server/src/auth.rs and app_state.rs; AdminSessions is about the admin
--   sessions of the latter, Cookies is its extract_cookie, with RoundTrip
--   for its theorem and Tokens for the cookie that build_session_cookie makes. Config is
--   config.rs and the start of main.rs, with Starting for its theorem. Api has the shared parts of
--   http.rs, and Api.Handlers its handlers and its router; Api.Guard, Api.Limits and Api.Canceling
--   have the theorems.
-- - Console: apps/command-server/src/console.rs. Escape is escape_html, Login login_submit and logout,
--   Forms create_task_submit and cancel_task_submit with their helpers; Forms.Guard and Forms.Numbers
--   have the theorems. Pages has the pages: Texts the labels and summaries, Html their concatenation,
--   Tasks, Nodes, Workspace, NodePage, Runtime and Filters the render functions, Handlers the handlers.
--   Markup and Blank define what is compared in Safe; Bounds and Shown have further theorems.
-- - Session: apps/command-server/src/session.rs. World has the shared state with the local variables
--   of handle_node_socket, and actions on them that may fail; Frames the functions that send,
--   Dispatch try_dispatch_next_task, respond_to_task_pull, handle_cancel_signal and
--   handle_in_flight_timeout, Publish handle_binary_message and handle_publish, Socket
--   receive_connect and handle_node_socket. Stores, Ops, Handlers and Life relate the store before
--   and after; Ensures states what holds after an action that succeeded, and Single, Tracking,
--   Inflight and Turns follow the task in flight through the handlers. Reach, Released and Handshake
--   have the theorems.
-- - Client: apps/command-client/src. Config is config.rs, Executor executor.rs; World, Session and Run
--   are ws.rs: the state and its actions, the handlers, and run_ws_session with its loop. Capture,
--   Starting, Orderly (with OneChild) and Delivery have the theorems.
-- - Samples: a concrete instance of the encoders, for the examples. Modules called Tests,
--   Reaches and Deliveries run the theorems on small data.
--
-- How the code is read.
-- - A SQL statement is a function on the list of rows of its table; a transaction that is dropped
--   gives back the store it began with. SQLite errors, a poisoned lock, and ids beyond 2^63 - 1 are
--   left out, and so are open and the migration of old schemas, which are SQL text.
-- - Columns that are cast from u64 to i64 and back are natural numbers. retry_count is read modulo
--   2^32 and the attempt of an assignment wraps at 2^32. A LIMIT of 2^63 or more is no limit, as a
--   negative bound is for SQLite.
-- - A store operation takes the clock reading of its call of unix_now as an argument. A session reads
--   an arbitrary clock, reading by reading.
-- - The socket is a function that takes or refuses a frame, given the frames sent before. A
--   subscription set keeps the order of insertion, where a HashSet promises none.
-- - The loop of a session takes the events that tokio::select! picks, in any order, interleaved with
--   store operations of other parts between two turns. Interleavings inside one turn are left out.
--   There is no fuel: the loop recurses on the list of what happens.
-- - A sound store (IsSoundDb) has task rows whose columns fit their status and read back, ids that
--   ascend up to the sequence, a node for each task, and nodes whose commands read back.
-- - The client's children, sockets and clock answer as arbitrary functions of what was done before;
--   what the operating system answers at an event comes with the event.
-- - A handler of the HTTP interface takes the cookie of the admin session, the header `host`, and the
--   path, query and body after axum read them.
--
-- - A page is the list of its code points, and so is each part of it; the texts in it are strings.
--   The markup of a part is the list of the characters in it that open or close an element or an
--   attribute. White space, lines and numbers in a form are those of Rust's str (Prelude.Text), and a
--   cookie header is the text that HeaderValue::to_str gives.
-- - The environment of the server is a function from names to values; serde_json's reading of the
--   node tokens and the opening of the database are arguments of start.
--
-- Not modelled: in console.rs the scripts and the style sheet, which are JavaScript and CSS in strings,
-- console_html, which puts the style sheet and the navigation around a body, console_index and
-- login_page, and the fixed tables of the page of the protocol; binding and serving in main.rs, and ws.rs, which passes an upgraded connection to the
-- session; the start-up of the client, with the HTTP request of its bootstrap (main.rs, bootstrap.rs).
pub mod Prelude
pub mod Protocol
pub mod Db
pub mod Samples
pub mod Console
pub mod Server
pub mod Session
pub mod Client
