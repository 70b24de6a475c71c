-- ===== src/Console/Pages/Filters.antt =====
-- apps/command-server/src/console.rs: the filters and the summary of the page of the session events.
use ruchat.Prelude.{ℕ, String, Option, none, some, List, [], ◌∷◌, ◌++◌, if◌then◌else◌}
use ruchat.Prelude.Text.{is_empty, trim, join}
use ruchat.Protocol.Domain.{SessionEventKind}
use ruchat.Session.Frames.{decimal}
use ruchat.Server.Api.{map_items}
use ruchat.Console.Escape.{codes, escape_html}
use ruchat.Console.Pages.Texts.{concat_text, session_event_kind_label}
use ruchat.Prelude.Result.{Result, ok, err}
use ruchat.Prelude.{str_eq}
use ruchat.Protocol.Domain.{
  connect_rejected, auth_failed, session_opened, node_registered, session_closed,
}
use ruchat.Console.Pages.Html.{concat}

unfoldable pub normalize_query_value : String → Option String
normalize_query_value value = if is_empty (trim value) then none else some (trim value)

unfoldable pub parse_session_event_kind_value : String → Result String (Option SessionEventKind)
parse_session_event_kind_value value = parsed (trim value)
  where
    parsed : String → Result String (Option SessionEventKind)
    parsed kind =
        if str_eq kind ""
        then ok none
        else if str_eq kind "connect_rejected"
        then ok (some connect_rejected)
        else if str_eq kind "auth_failed"
        then ok (some auth_failed)
        else if str_eq kind "session_opened"
        then ok (some session_opened)
        else if str_eq kind "node_registered"
        then ok (some node_registered)
        else if str_eq kind "session_closed"
        then ok (some session_closed)
        else err (concat_text ("unknown session event kind: " ∷ kind ∷ []))

node_filter : Option String → List String
node_filter none = []
node_filter (some node_id) = concat_text ("node=" ∷ node_id ∷ []) ∷ []

kind_filter : Option SessionEventKind → List String
kind_filter none = []
kind_filter (some kind) = concat_text ("kind=" ∷ session_event_kind_label kind ∷ []) ∷ []

summary_text : List String → ℕ → String
summary_text [] count = concat_text (
    "Recent connection lifecycle events across all nodes. "
    ∷ decimal count
    ∷ " shown. Auto refresh 3s."
    ∷ [])
summary_text (filter ∷ filters) count = concat_text (
    "Recent connection lifecycle events. "
    ∷ join " | " (filter ∷ filters)
    ∷ ". "
    ∷ decimal count
    ∷ " shown. Auto refresh 3s."
    ∷ [])

unfoldable pub render_session_events_summary : Option String → Option SessionEventKind → ℕ → String
unfolding node_filter kind_filter summary_text
render_session_events_summary node_id kind count =
    summary_text (node_filter node_id ++ kind_filter kind) count

option_of : String → String × String → List ℕ
option_of selected (value, label) = concat (
    codes "<option value=\""
    ∷ escape_html (codes value)
    ∷ codes "\""
    ∷ codes (if str_eq value selected then " selected" else "")
    ∷ codes ">"
    ∷ escape_html (codes label)
    ∷ codes "</option>"
    ∷ [])

unfoldable pub render_session_event_kind_options : String → List ℕ
unfolding option_of
render_session_event_kind_options selected = concat (
    map_items (option_of (trim selected)) (
      ("", "all")
      ∷ ("connect_rejected", "connect_rejected")
      ∷ ("auth_failed", "auth_failed")
      ∷ ("session_opened", "session_opened")
      ∷ ("node_registered", "node_registered")
      ∷ ("session_closed", "session_closed")
      ∷ []))
