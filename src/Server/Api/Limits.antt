-- ===== src/Server/Api/Limits.antt =====
-- apps/command-server/src/http.rs: how long the listings are that a limit bounds.
use ruchat.Prelude.{
  ℕ, zero, suc, ◌≤◌, ◌≡◌, refl, ap, ◌∙◌, Bool, true, false, inl, inr, none, some, List, [], ◌∷◌,
  arith,
}
use ruchat.Prelude.Lists.{length, take}
use ruchat.Prelude.Result.{Result, ok, Result-cases}
use ruchat.Protocol.Codec.{Json}
use ruchat.Db.Rows.{DbError}
use ruchat.Db.Read.{read_all, limit_rows, read_task, read_session_event}
use ruchat.Db.Tasks.{list_tasks_for_node, list_recent_tasks}
use ruchat.Db.Events.{list_session_events, list_session_events_for_node}
use ruchat.Server.AppState.{AppState}
use ruchat.Server.Api.{clamp, unwrap_or, internal_error, map_ok, parse_session_event_kind}
use ruchat.Server.Api.Handlers.{ApiRequest, ApiResponse, handle}

-- The number of items that an answer lists.
abbrev pub listed : ApiResponse → ℕ
listed (ApiResponse.events items) = length items
listed (ApiResponse.tasks items) = length items
listed (ApiResponse.nodes items) = length items
listed _ = 1

length-take_le : {A : Type 0} (n : ℕ) (xs : List A) → length (take n xs) ≤ n
length-take_le zero xs = omega arith
length-take_le (suc n) [] = omega arith
length-take_le (suc n) (x ∷ xs) = omega (arith, length-take_le n xs)

limit_rows_le : {A : Type 0} (n : ℕ) (xs : List A) → n ≤ 100 → length (limit_rows n xs) ≤ 100
unfolding limit_rows
limit_rows_le n xs h = ground (arith, length-take_le n xs)

clamp_le : (n : ℕ) → clamp 1 100 n ≤ 100
clamp_le n = ground arith

-- A result that succeeded with two lists succeeded with one.
same_length :
    {A : Type 0} {xs items : List A} (r : Result DbError (List A))
    → r ≡ ok xs
    → r ≡ ok items
    → length items ≡ length xs
same_length r e k = grind arith

read_all-length :
    {R A : Type 0} (read : R → Result DbError A) (rows : List R) (items : List A)
    → read_all read rows ≡ ok items
    → length items ≡ length rows
unfolding read_all
read_all-length read [] items e = ground arith
read_all-length read (row ∷ rows) items e = elim (Result-cases (read row)) [
  | inr (error, failed) ↦ absurd (grind arith)
  | inl (item, reads) ↦ elim (Result-cases (read_all read rows)) [
    | inr (error, failed) ↦ absurd (grind arith)
    | inl (rest, more) ↦
        let shorter = read_all-length read rows rest more in
        same_length {xs = item ∷ rest} (read_all read (row ∷ rows)) (rw (reads, more) refl) e
        ∙ ap suc shorter
  ]
]

module _ (json : Json) (now : ℕ) where
  short_answer :
      {R A : Type 0} (respond_with : List A → ApiResponse)
      → ((items : List A) → listed (respond_with items) ≡ length items)
      → (read : R → Result DbError A) (rows : List R) → length rows ≤ 100
      → (response : ApiResponse)
      → map_ok respond_with (internal_error (read_all read rows)) ≡ ok response
      → listed response ≤ 100
  short_answer respond_with counts read rows h response e =
      elim (Result-cases (read_all read rows)) [
        | inr (error, failed) ↦ absurd (grind arith)
        | inl (items, reads) ↦
            let shorter = read_all-length read rows items reads in
            let answer = counts items in grind arith
      ]

  -- The requests whose listing has a limit, given or not.
  abbrev pub is_limited : ApiRequest → Bool
  is_limited (ApiRequest.show_session_events _ _ _) = true
  is_limited (ApiRequest.show_node_tasks _ _) = true
  is_limited (ApiRequest.show_node_session_events _ _) = true
  is_limited (ApiRequest.show_tasks (some _)) = true
  is_limited _ = false

  -- Whatever limit a query asks for, also 0 or a huge one, a listing of events, of a node's tasks, or of
  -- recent tasks has at most a hundred items.
  pub handle_limited :
      (request : ApiRequest) (state : AppState) (response : ApiResponse)
      → is_limited request ≡ true
      → (handle json now request state).0 ≡ ok response
      → listed response ≤ 100
  unfolding handle list_session_events list_session_events_for_node list_tasks_for_node
      list_recent_tasks
  handle_limited (ApiRequest.show_session_events limit node_id kind) state response l e =
      elim (Result-cases (parse_session_event_kind kind)) [
        | inr (error, failed) ↦ absurd (grind arith)
        | inl (parsed, known) ↦
            short_answer ApiResponse.events (λ items. refl) read_session_event _
              (limit_rows_le _ _ (clamp_le (unwrap_or 20 limit))) response (rw known at e)
      ]
  handle_limited (ApiRequest.show_node_tasks node_id limit) state response l e =
      short_answer ApiResponse.tasks (λ items. refl) (read_task json) _
        (limit_rows_le _ _ (clamp_le (unwrap_or 20 limit))) response e
  handle_limited (ApiRequest.show_node_session_events node_id limit) state response l e =
      short_answer ApiResponse.events (λ items. refl) read_session_event _
        (limit_rows_le _ _ (clamp_le (unwrap_or 20 limit))) response e
  handle_limited (ApiRequest.show_tasks (some limit)) state response l e =
      short_answer ApiResponse.tasks (λ items. refl) (read_task json) _
        (limit_rows_le _ _ (clamp_le limit)) response e
  handle_limited ApiRequest.health state response l e = absurd (grind arith)
  handle_limited (ApiRequest.bootstrap_node _ _) state response l e = absurd (grind arith)
  handle_limited ApiRequest.show_protocol state response l e = absurd (grind arith)
  handle_limited ApiRequest.show_nodes state response l e = absurd (grind arith)
  handle_limited (ApiRequest.show_node _) state response l e = absurd (grind arith)
  handle_limited (ApiRequest.create _) state response l e = absurd (grind arith)
  handle_limited (ApiRequest.show_tasks none) state response l e = absurd (grind arith)
  handle_limited (ApiRequest.show_task _) state response l e = absurd (grind arith)
  handle_limited (ApiRequest.cancel _ _) state response l e = absurd (grind arith)
