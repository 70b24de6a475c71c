-- ===== src/Console/Pages/Safe/Nodes.antt =====
-- apps/command-server/src/console.rs: the markup of the parts that show nodes, session events and
-- errors.
use ruchat.Prelude.{ℕ, suc, ◌≡◌, refl, ap, String, Bool, true, false, List, [], ◌∷◌}
use ruchat.Prelude.Lists.{length}
use ruchat.Protocol.Domain.{NodeSnapshot, SessionEvent, CommandDescriptor}
use ruchat.Server.Api.{map_items}
use ruchat.Console.Pages.Markup.{markup, markup-escape_html, markup-concat, markup-items}
use ruchat.Console.Pages.Blank.{blank_node, blank_event, blank_command}
use ruchat.Console.Pages.Nodes.{render_node_row, render_nodes_rows, error_page_body}
use ruchat.Console.Pages.Workspace.{
  capability_chip, capability_chips, render_runtime_summary, render_protocol_summary,
  render_session_event, render_session_events, render_command_option, render_command_meta_panel,
}

pub length-map_items :
    {A B : Type 0} (f : A → B) (xs : List A) → length (map_items f xs) ≡ length xs
length-map_items f [] = refl
length-map_items f (x ∷ xs) = ap (λ n. suc n) (length-map_items f xs)

node_row-blank :
    (node : NodeSnapshot)
    → markup (render_node_row node) ≡ markup (render_node_row (blank_node node))
unfolding render_node_row
node_row-blank node =
    simp (markup-concat, markup-escape_html, length-map_items blank_command node.commands)

-- Whatever the names, hosts and platforms of the nodes are, the table of the nodes has the markup that
-- it has where all of them are empty.
pub render_nodes_rows-blank :
    (nodes : List NodeSnapshot)
    → markup (render_nodes_rows nodes) ≡ markup (render_nodes_rows (map_items blank_node nodes))
unfolding render_nodes_rows
render_nodes_rows-blank [] = refl
render_nodes_rows-blank (node ∷ nodes) =
    markup-items render_node_row render_node_row blank_node node_row-blank (node ∷ nodes)

-- The page of an error has the same markup for all messages and ways back.
pub error_page_body-markup :
    (message other : String) (back elsewhere : List ℕ)
    → markup (error_page_body message back) ≡ markup (error_page_body other elsewhere)
unfolding error_page_body
error_page_body-markup message other back elsewhere = simp (markup-concat, markup-escape_html)

session_event-blank :
    (include_node_id : Bool) (event : SessionEvent)
    → markup (render_session_event include_node_id event)
      ≡ markup (render_session_event include_node_id (blank_event event))
unfolding render_session_event
session_event-blank true event = simp (markup-concat, markup-escape_html)
session_event-blank false event = simp (markup-concat, markup-escape_html)

pub session_events-blank :
    (include_node_id : Bool) (events : List SessionEvent)
    → markup (render_session_events events include_node_id)
      ≡ markup (render_session_events (map_items blank_event events) include_node_id)
unfolding render_session_events
session_events-blank include_node_id [] = refl
session_events-blank include_node_id (event ∷ events) =
    markup-items (render_session_event include_node_id) (render_session_event include_node_id)
      blank_event (session_event-blank include_node_id) (event ∷ events)

chips-blank :
    (online : Bool) (capabilities : List String)
    → markup (capability_chips online capabilities)
      ≡ markup (capability_chips online (map_items (λ c. "") capabilities))
unfolding capability_chips
chips-blank true capabilities =
    markup-items capability_chip capability_chip (λ c. "")
      (λ c. unfold capability_chip in simp (markup-concat, markup-escape_html)) capabilities
chips-blank false capabilities = refl

pub protocol_summary-blank :
    (node : NodeSnapshot)
    → markup (render_protocol_summary node) ≡ markup (render_protocol_summary (blank_node node))
unfolding render_protocol_summary
protocol_summary-blank node =
    simp (markup-concat, markup-escape_html, chips-blank node.online node.session_capabilities)

pub runtime_summary-blank :
    (node : NodeSnapshot)
    → markup (render_runtime_summary node) ≡ markup (render_runtime_summary (blank_node node))
unfolding render_runtime_summary
runtime_summary-blank node =
    simp (markup-concat, markup-escape_html, length-map_items blank_command node.commands)

pub command_option-blank :
    (command : CommandDescriptor)
    → markup (render_command_option command)
      ≡ markup (render_command_option (blank_command command))
unfolding render_command_option
command_option-blank command = simp (markup-concat, markup-escape_html)

pub command_panel-blank :
    (command : CommandDescriptor)
    → markup (render_command_meta_panel command)
      ≡ markup (render_command_meta_panel (blank_command command))
unfolding render_command_meta_panel
command_panel-blank command = simp (markup-concat, markup-escape_html)
