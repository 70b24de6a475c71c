-- ===== src/Console/Pages/Safe/Runtime.antt =====
-- apps/command-server/src/console.rs: the markup of the page of the runtime.
use ruchat.Prelude.{ℕ, ◌≡◌, refl, ap, ◌∙◌, List, [], ◌∷◌}
use ruchat.Prelude.Lists.{select, take}
use ruchat.Protocol.Domain.{NodeSnapshot, TaskSnapshot, SessionEvent}
use ruchat.Server.Api.{map_items}
use ruchat.Console.Pages.Texts.{is_active, is_finished}
use ruchat.Console.Pages.Markup.{
  markup, markup-escape_html, markup-concat, markup-items, take-blank, select-blank,
}
use ruchat.Console.Pages.Blank.{blank_task, blank_node}
use ruchat.Console.Pages.Runtime.{
  or_none, stat_card, render_runtime_overview_cards, runtime_node_row, render_runtime_nodes_list,
  runtime_task_row, render_runtime_active_tasks, runtime_result_row, render_runtime_recent_results,
}
use ruchat.Console.Pages.Safe.Nodes.{length-map_items}

module _ {A : Type 0} (nothing : List ℕ) (render : A → List ℕ) (blank : A → A) where
  blanks :
      ((a : A) → markup (render a) ≡ markup (render (blank a)))
      → (items : List A)
      → markup (or_none nothing render items)
        ≡ markup (or_none nothing render (map_items blank items))
  blanks same [] = refl
  blanks same (item ∷ items) = markup-items render render blank same (item ∷ items)

  -- A list of the items that are shown.
  or_none-blank :
      ((a : A) → markup (render a) ≡ markup (render (blank a)))
      → (items shown : List A) → map_items blank items ≡ shown
      → markup (or_none nothing render items) ≡ markup (or_none nothing render shown)
  or_none-blank same items shown e =
      blanks same items ∙ ap (λ list. markup (or_none nothing render list)) e

node_row-blank :
    (node : NodeSnapshot)
    → markup (runtime_node_row node) ≡ markup (runtime_node_row (blank_node node))
unfolding runtime_node_row
node_row-blank node = simp (markup-concat, markup-escape_html, length-map_items _ node.commands)

task_row-blank :
    (task : TaskSnapshot)
    → markup (runtime_task_row task) ≡ markup (runtime_task_row (blank_task task))
unfolding runtime_task_row
task_row-blank task = simp (markup-concat, markup-escape_html)

result_row-blank :
    (task : TaskSnapshot)
    → markup (runtime_result_row task) ≡ markup (runtime_result_row (blank_task task))
unfolding runtime_result_row
result_row-blank task = simp (markup-concat, markup-escape_html)

-- The cards have the same markup whatever is counted in them.
pub overview_cards-markup :
    (nodes others : List NodeSnapshot) (tasks more : List TaskSnapshot)
    (events later : List SessionEvent)
    → markup (render_runtime_overview_cards nodes tasks events)
      ≡ markup (render_runtime_overview_cards others more later)
unfolding render_runtime_overview_cards stat_card
overview_cards-markup nodes others tasks more events later =
    simp (markup-concat, markup-escape_html)

-- Whatever the texts of the nodes and tasks are, the lists of the online nodes, of the active tasks and
-- of the recent results have the markup that they have where all of them are empty.
pub runtime_lists-blank :
    (nodes : List NodeSnapshot) (tasks : List TaskSnapshot)
    → (markup (render_runtime_nodes_list nodes)
        ≡ markup (render_runtime_nodes_list (map_items blank_node nodes)))
      × (markup (render_runtime_active_tasks tasks)
          ≡ markup (render_runtime_active_tasks (map_items blank_task tasks)))
      × (markup (render_runtime_recent_results tasks)
          ≡ markup (render_runtime_recent_results (map_items blank_task tasks)))
unfolding render_runtime_nodes_list render_runtime_active_tasks render_runtime_recent_results
runtime_lists-blank nodes tasks = (
  or_none-blank _ runtime_node_row blank_node node_row-blank _ _
      (select-blank blank_node (λ node. node.online) (λ node. refl) nodes),
  or_none-blank _ runtime_task_row blank_task task_row-blank _ _
      (select-blank blank_task (λ task. is_active task.status) (λ task. refl) tasks),
  or_none-blank _ runtime_result_row blank_task result_row-blank _ _ (
      take-blank blank_task 8 (select (λ task. is_finished task.status) tasks)
      ∙ ap (take 8)
          (select-blank blank_task (λ task. is_finished task.status) (λ task. refl) tasks)),
)
