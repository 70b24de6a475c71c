-- ===== src/Console/Pages/Nodes.antt =====
-- apps/command-server/src/console.rs: the rows of the table of nodes, and the page of an error.
use ruchat.Prelude.{ℕ, String, Bool, true, false, Option, none, some, List, [], ◌∷◌}
use ruchat.Prelude.Lists.{length, select}
use ruchat.Protocol.Domain.{NodeSnapshot}
use ruchat.Session.Frames.{decimal}
use ruchat.Server.Api.{map_items}
use ruchat.Console.Escape.{codes, escape_html}
use ruchat.Console.Pages.Texts.{concat_text}
use ruchat.Console.Pages.Html.{concat}

unfoldable pub online_count : List NodeSnapshot → ℕ
online_count nodes = length (select (λ node. node.online) nodes)

unfoldable pub render_nodes_summary : List NodeSnapshot → String
render_nodes_summary nodes = concat_text (
    "Registered clients and the commands they reported. "
    ∷ decimal (online_count nodes)
    ∷ "/"
    ∷ decimal (length nodes)
    ∷ " currently online. Auto refresh 3s."
    ∷ [])

status_chip : Bool → List ℕ
status_chip true = codes "<span class=\"status-chip active\">online</span>"
status_chip false = codes "<span class=\"status-chip idle\">offline</span>"

unfoldable pub render_node_row : NodeSnapshot → List ℕ
unfolding status_chip
render_node_row node = concat (
    codes "<tr><td><a href=\"/console/nodes/"
    ∷ escape_html (codes node.node_id)
    ∷ codes "\">"
    ∷ escape_html (codes node.node_id)
    ∷ codes "</a></td><td>"
    ∷ status_chip node.online
    ∷ codes "</td><td>"
    ∷ escape_html (codes node.hostname)
    ∷ codes "</td><td>"
    ∷ escape_html (codes node.platform)
    ∷ codes "</td><td>"
    ∷ codes (decimal (length node.commands))
    ∷ codes "</td><td>"
    ∷ codes (decimal node.last_seen_unix_secs)
    ∷ codes "</td></tr>"
    ∷ [])

unfoldable pub render_nodes_rows : List NodeSnapshot → List ℕ
render_nodes_rows [] = codes "<tr><td colspan=\"6\">no nodes registered</td></tr>"
render_nodes_rows (node ∷ nodes) = concat (map_items render_node_row (node ∷ nodes))

-- The body of the page of `error_page`.
unfoldable pub error_page_body : String → List ℕ → List ℕ
error_page_body message back_href = concat (
    codes "<section><h1>Request Failed</h1><p class=\"error\">"
    ∷ escape_html (codes message)
    ∷ codes "</p><p><a href=\""
    ∷ escape_html back_href
    ∷ codes "\">Back</a></p></section>"
    ∷ [])

error_html : Option String → List ℕ
error_html none = []
error_html (some text) =
    concat (codes "<p class=\"error\">" ∷ escape_html (codes text) ∷ codes "</p>" ∷ [])

-- The body of the page of `login_response`.
unfoldable pub login_body : Option String → List ℕ
unfolding error_html
login_body message = concat (
    codes
      "<section class=\"login-shell\"><h1>Admin Login</h1><p>Sign in to view nodes and dispatch commands.</p>"
    ∷ error_html message
    ∷ codes
        "<form method=\"post\" action=\"/console/login\"><label>Username<input name=\"username\" autocomplete=\"username\"></label><label>Password<input type=\"password\" name=\"password\" autocomplete=\"current-password\"></label><button type=\"submit\">Login</button></form></section>"
    ∷ [])
